-- ===== src/Settings/Apply.antt =====
-- How an edit ends when the edits are applied.
use mathlib.Core.List.{Memᴰ}
use rcon_ui.Base.{
  ◌≡◌, refl, sym, ap₂, ◌∙◌, ◌⊎◌, inl, inr, Bool, true, false, ◌||◌, Option, none, some, List, [],
  ◌∷◌, arith, if◌then◌else◌, Bool-cases, Option-cases, coalesce,
}
use rcon_ui.Text.{Text, ◌===◌, ===_iff}
use rcon_ui.Text.Dict.{lookup, erase, lookup-erase, lookup-insert}
use rcon_ui.Text.DictKeys.{entry_key, has_key-insert, is_some-lookup}
use rcon_ui.Text.Keyed.{has_key}
use rcon_ui.Text.ObjectKeys.{contains, contains-append}
use rcon_ui.Discovery.{DiscoveryReport}
use rcon_ui.Settings.{
  Edits, Panel, Applied, build_command, send_all, settle_key, start, dirty_keys, rows, delete_all,
  apply, begin_apply, end_apply,
}

lookup-delete_all :
    (ks : List Text) (k : Text) (edits : Edits)
    → lookup k (delete_all ks edits) ≡ (if contains k ks then none else lookup k edits)
unfolding delete_all
lookup-delete_all [] k edits = refl
lookup-delete_all (j ∷ ks) k edits =
    ground (arith, lookup-delete_all ks k (erase j edits), lookup-erase j k edits)

module _ {ℓ} {W : Type ℓ} (execute : Text → W → Option Text × W) where
  -- The key is applied or has an error.
  abbrev settled : Text → Applied W → Bool
  settled k a = contains k a.applied || has_key entry_key k a.next_errors

  settled-settle_key :
      (k key : Text) (r : Option Text × W) (a : Applied W)
      → settled k (settle_key key r a) ≡ (settled k a || (key === k))
  unfolding settle_key
  settled-settle_key k key (none, w) a = ground (arith, contains-append k a.applied (key ∷ []))
  settled-settle_key k key (some message, w) a =
      ground (arith, has_key-insert key k message a.next_errors)

  settled-send_all :
      (k : Text) (template : Text) (edits : Edits) (keys : List Text) (a : Applied W)
      → settled k (send_all execute template edits keys a) ≡ (settled k a || contains k keys)
  unfolding send_all
  settled-send_all k template edits [] a = ground arith
  settled-send_all k template edits (j ∷ keys) a =
      let command = build_command template j (coalesce (lookup j edits) []) in
      ground (
        arith,
        settled-send_all k template edits keys (settle_key j (execute command a.world) a),
        settled-settle_key k j (execute command a.world) a,
      )

  -- What the loop has done for the changed options of a report.
  abbrev pub sent : DiscoveryReport → Panel → W → Applied W
  sent report p w =
      send_all execute report.write_template p.edits (dirty_keys p.edits (rows (some report)))
        (start execute w)

  -- What the server answered for each key, in turn.
  abbrev pub replies : Text → Edits → List Text → W → List (Text × Option Text)
  replies template edits [] w = []
  replies template edits (key ∷ keys) w =
      let (reply, w') = execute (build_command template key (coalesce (lookup key edits) [])) w in
      (key, reply) ∷ replies template edits keys w'

  applied-settle_key :
      (k key : Text) (r : Option Text × W) (a : Applied W)
      → contains k (settle_key key r a).applied ≡ true
      → (contains k a.applied ≡ true) ⊎ ((key ≡ k) × (r.0 ≡ none))
  unfolding settle_key
  applied-settle_key k key (some message, w) a h = inl h
  applied-settle_key k key (none, w) a h = elim (Bool-cases (contains k a.applied)) [
    | inl e ↦ inl e
    | inr e ↦ inr ((===_iff key k).0 (ground (arith, contains-append k a.applied (key ∷ []))), refl)
  ]

  errors-settle_key :
      (k key message : Text) (r : Option Text × W) (a : Applied W)
      → lookup k (settle_key key r a).next_errors ≡ some message
      → (lookup k a.next_errors ≡ some message) ⊎ ((key ≡ k) × (r.0 ≡ some message))
  unfolding settle_key
  errors-settle_key k key message (none, w) a h = inl h
  errors-settle_key k key message (some m, w) a h = elim (Bool-cases (key === k)) [
    | inl e ↦ inr ((===_iff key k).0 e, rw e at (sym (lookup-insert key k m a.next_errors) ∙ h))
    | inr e ↦ inl (rw e at (sym (lookup-insert key k m a.next_errors) ∙ h))
  ]

  world-settle_key :
      (key : Text) (r : Option Text × W) (a : Applied W) → (settle_key key r a).world ≡ r.1
  unfolding settle_key
  world-settle_key key (none, w) a = refl
  world-settle_key key (some message, w) a = refl

  applied-send_all :
      (k : Text) (template : Text) (edits : Edits) (keys : List Text) (a : Applied W)
      → contains k (send_all execute template edits keys a).applied ≡ true
      → (contains k a.applied ≡ true) ⊎ Memᴰ (k, none) (replies template edits keys a.world)
  unfolding send_all
  applied-send_all k template edits [] a h = inl h
  applied-send_all k template edits (j ∷ keys) a h =
      let r = execute (build_command template j (coalesce (lookup j edits) [])) a.world in
      let same = world-settle_key j r a in
      elim (applied-send_all k template edits keys (settle_key j r a) h) [
        | inl before ↦ elim (applied-settle_key k j r a before) [
          | inl old ↦ inl old
          | inr (e, q) ↦ inr (Memᴰ.head (ap₂ (λ x y. (x, y)) (sym e) (sym q)))
        ]
        | inr later ↦ inr (Memᴰ.tail (rw same at later))
      ]

  errors-send_all :
      (k message : Text) (template : Text) (edits : Edits) (keys : List Text) (a : Applied W)
      → lookup k (send_all execute template edits keys a).next_errors ≡ some message
      → (lookup k a.next_errors ≡ some message)
        ⊎ Memᴰ (k, some message) (replies template edits keys a.world)
  unfolding send_all
  errors-send_all k message template edits [] a h = inl h
  errors-send_all k message template edits (j ∷ keys) a h =
      let r = execute (build_command template j (coalesce (lookup j edits) [])) a.world in
      let same = world-settle_key j r a in
      elim (errors-send_all k message template edits keys (settle_key j r a) h) [
        | inl before ↦ elim (errors-settle_key k j message r a before) [
          | inl old ↦ inl old
          | inr (e, q) ↦ inr (Memᴰ.head (ap₂ (λ x y. (x, y)) (sym e) (sym q)))
        ]
        | inr later ↦ inr (Memᴰ.tail (rw same at later))
      ]

  no_error : (k message : Text) → lookup {V = Text} k [] ≡ some message → ⊥
  unfolding lookup
  no_error k message h = cc

  unsettled :
      (k : Text) (a : Applied W)
      → settled k a ≡ true
      → contains k a.applied ≡ false
      → lookup k a.next_errors ≡ none
      → ⊥
  unsettled k a s c l = ground (arith, is_some-lookup k a.next_errors)

  -- What the server answered for the changed options of a report.
  abbrev pub answered : DiscoveryReport → Panel → W → List (Text × Option Text)
  answered report p w =
      replies report.write_template p.edits (dirty_keys p.edits (rows (some report))) w

  -- When nothing is edited meanwhile, an option that was changed has been sent, and either a command
  -- for it was accepted and it is no longer staged, or a command for it was refused, it stays staged
  -- with its value, and it carries the message of the refusal.
  pub apply_changed :
      (discover : W → Option DiscoveryReport × W) (report : DiscoveryReport) (p : Panel) (w : W)
      (k : Text)
      → contains k (dirty_keys p.edits (rows (some report))) ≡ true
      → let after = (apply execute discover (λ s. s) (some report) p w).0 in
        (Memᴰ (k, none) (answered report p w) × (lookup k after.edits ≡ none))
        ⊎ ((message : Text) × Memᴰ (k, some message) (answered report p w)
            × (lookup k after.edits ≡ lookup k p.edits)
            × (lookup k after.errors ≡ some message))
  unfolding apply end_apply begin_apply
  apply_changed discover report p w k h =
      let keys = dirty_keys p.edits (rows (some report)) in
      let s = settled-send_all k report.write_template p.edits keys (start execute w) in
      let d = lookup-delete_all (sent report p w).applied k p.edits in
      elim (Bool-cases (contains k (sent report p w).applied)) [
        | inl a ↦ elim (applied-send_all k report.write_template p.edits keys (start execute w) a) [
          | inl never ↦ cc
          | inr m ↦ inl (m, d ∙ rw a)
        ]
        | inr a ↦ elim (Option-cases (lookup k (sent report p w).next_errors)) [
          | inl q ↦ absurd (unsettled k (sent report p w) (s ∙ h) a q)
          | inr (message, q) ↦
              elim (errors-send_all k message report.write_template p.edits keys (start execute w)
                q) [
                  | inl never ↦ absurd (no_error k message never)
                  | inr m ↦ inr (message, m, d ∙ rw a, q)
                ]
        ]
      ]

  -- When nothing is edited meanwhile, an option that was not changed keeps what was staged for it
  -- and carries no error.
  pub apply_unchanged :
      (discover : W → Option DiscoveryReport × W) (report : DiscoveryReport) (p : Panel) (w : W)
      (k : Text)
      → contains k (dirty_keys p.edits (rows (some report))) ≡ false
      → (lookup k (apply execute discover (λ s. s) (some report) p w).0.edits ≡ lookup k p.edits)
        × (lookup k (apply execute discover (λ s. s) (some report) p w).0.errors ≡ none)
  unfolding apply end_apply begin_apply
  apply_unchanged discover report p w k h =
      let s =
        settled-send_all k report.write_template p.edits (dirty_keys p.edits (rows (some report)))
          (start execute w) in
      let d = lookup-delete_all (sent report p w).applied k p.edits in
      let e = is_some-lookup k (sent report p w).next_errors in (ground arith, ground arith)

  -- An option whose command was accepted is not staged any more, whatever was staged for it while
  -- the commands were on their way.
  pub apply_forgets :
      (discover : W → Option DiscoveryReport × W) (meanwhile : Panel → Panel)
      (report : DiscoveryReport) (p : Panel) (w : W) (k : Text)
      → contains k (sent report p w).applied ≡ true
      → lookup k (apply execute discover meanwhile (some report) p w).0.edits ≡ none
  unfolding apply end_apply
  apply_forgets discover meanwhile report p w k h =
      lookup-delete_all (sent report p w).applied k (meanwhile (begin_apply p)).edits ∙ rw h
