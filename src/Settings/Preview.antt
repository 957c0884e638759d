-- ===== src/Settings/Preview.antt =====
-- What the staging bar shows and what a click on apply sends.
use rcon_ui.Base.{
  ◌≡◌, refl, sym, ap, ◌∙◌, Option, none, some, List, [], ◌∷◌, ◌++◌, map, append-nil, append_assoc,
  coalesce,
}
use rcon_ui.Text.{Text}
use rcon_ui.Text.Dict.{lookup}
use rcon_ui.Discovery.{DiscoveryReport}
use rcon_ui.Settings.{
  Edits, Panel, Applied, build_command, preview, send_all, settle_key, start, dirty_keys, rows,
  apply,
}

-- A world that also writes down the commands that it is sent, in order.
abbrev pub logging {ℓ} :
    {W : Type ℓ}
    → (Text → W → Option Text × W)
    → Text
    → List Text × W
    → Option Text × (List Text × W)
logging execute command (log, w) =
    let (failure, w') = execute command w in (failure, (log ++ command ∷ [], w'))

-- A call that is no command leaves the log alone.
abbrev pub unlogged {ℓ} :
    {W : Type ℓ}
    → (W → Option DiscoveryReport × W)
    → List Text × W
    → Option DiscoveryReport × (List Text × W)
unlogged discover (log, w) = let (fresh, w') = discover w in (fresh, (log, w'))

world-settle_key {ℓ} :
    {W : Type ℓ} (key : Text) (r : Option Text × W) (a : Applied W)
    → (settle_key key r a).world ≡ r.1
unfolding settle_key
world-settle_key key (none, w) a = refl
world-settle_key key (some message, w) a = refl

module _ {ℓ} {W : Type ℓ} (execute : Text → W → Option Text × W) where
  send_all-log :
      (template : Text) (edits : Edits) (keys : List Text) (a : Applied (List Text × W))
      → (send_all (logging execute) template edits keys a).world.0
        ≡ a.world.0 ++ map (λ k. build_command template k (coalesce (lookup k edits) [])) keys
  unfolding send_all
  send_all-log template edits [] a = sym (append-nil a.world.0)
  send_all-log template edits (k ∷ keys) a =
      send_all-log template edits keys (settle_key k (logging execute command a.world) a)
      ∙ ap
          (λ (w : List Text × W).
            w.0 ++ map (λ j. build_command template j (coalesce (lookup j edits) [])) keys)
          (world-settle_key k (logging execute command a.world) a)
      ∙ append_assoc a.world.0 (command ∷ [])
          (map (λ j. build_command template j (coalesce (lookup j edits) [])) keys)
    where
      command : Text
      command = build_command template k (coalesce (lookup k edits) [])

  -- The commands that a click on apply sends to the server are the lines that the staging bar
  -- showed, in that order: whatever the server answers, and whatever is edited meanwhile.
  pub apply-preview :
      (discover : W → Option DiscoveryReport × W) (meanwhile : Panel → Panel)
      (report : DiscoveryReport) (p : Panel) (w : W)
      → (apply (logging execute) (unlogged discover) meanwhile (some report) p ([], w)).2.0
        ≡ preview report p.edits (dirty_keys p.edits (rows (some report)))
  unfolding apply preview
  apply-preview discover meanwhile report p w =
      send_all-log report.write_template p.edits (dirty_keys p.edits (rows (some report)))
        (start (logging execute) ([], w))
