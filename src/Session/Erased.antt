-- ===== src/Session/Erased.antt =====
-- A discovery run on a connection that is gone.
use rcon_ui.Base.{◌≡◌, refl, ap, ◌∙◌, Bool, Option, none, some}
use rcon_ui.Text.{Text, codes, ===_refl}
use rcon_ui.Text.Dict.{lookup, insert, lookup-insert}
use rcon_ui.Probe.Minecraft.{query}
use rcon_ui.Probe.Discover.{recognised, probe_gamerule, finish, make_report, unknown, read_help}
use rcon_ui.Session.Reports.{Daemon, last_discovery, run_discovery, persisted, persisted_lem}

-- Each command fails.
abbrev pub IsGone : {W : Type 0} → (Text → W → Option Text × W) → Type 0
IsGone {W} exec = (cmd : Text) (w : W) → (exec cmd w).0 ≡ none

module _ {W : Type 0} (is_float : Text → Bool) (at : Text) (exec : Text → W → Option Text × W)
    (gone : IsGone exec) where
  fingerprint-probe_gamerule :
      (w : W) → (probe_gamerule is_float at exec w).0.fingerprint ≡ codes "unknown"
  unfolding probe_gamerule make_report
  fingerprint-probe_gamerule w = rw (gone (query (codes "randomTickSpeed")) w) refl

  fingerprint-discover :
      (w : W) → (rcon_ui.Probe.Discover.discover is_float at exec w).0.fingerprint ≡ codes "unknown"
  unfolding rcon_ui.Probe.Discover.discover
  fingerprint-discover w =
      rw (gone (codes "showoptions") w)
        (fingerprint-probe_gamerule (exec (codes "showoptions") w).1)

  -- A run in which every command fails, as on a connection that was lost after the run began, replaces
  -- the report that the daemon kept by one of no known game, and the game of the stored profile by
  -- "unknown", whatever they were.
  pub game_erased :
      (now id : Text) (d : Daemon) (game : Text) (w : W)
      → lookup id d.games ≡ some game
      → let r = (rcon_ui.Probe.Discover.discover is_float at exec w).0 in
        (r.fingerprint ≡ codes "unknown")
        × (last_discovery id (run_discovery now id r d) ≡ some r)
        × (lookup id (run_discovery now id r d).games ≡ some (codes "unknown"))
  unfolding last_discovery run_discovery
  game_erased now id d game w h =
      let r = (rcon_ui.Probe.Discover.discover is_float at exec w).0 in
      let saved : lookup id (insert id r d.discoveries) ≡ some r =
        lookup-insert id id r d.discoveries ∙ rw (===_refl id) refl in
      (
        fingerprint-discover w,
        saved,
        ap (λ g. lookup id (persisted id r.fingerprint g d.games)) h
            ∙ persisted_lem id r.fingerprint game d.games h
            ∙ ap some (fingerprint-discover w),
      )
