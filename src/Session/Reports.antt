-- ===== src/Session/Reports.antt =====
-- `Discover`, `runDiscovery` and `LastDiscovery` of internal/session/session.go: the reports that the
-- daemon keeps, and what a run changes besides.
use rcon_ui.Base.{
  ◌≡◌, refl, ap, ◌∙◌, inl, inr, Bool, true, false, Option, none, some, List, ◌++◌, if◌then◌else◌,
  Bool-cases, length,
}
use rcon_ui.Text.{Text, codes, ◌===◌, ===_refl, ===_iff}
use rcon_ui.Text.Decimal.{show_nat}
use rcon_ui.Text.Dict.{lookup, insert, lookup-insert}
use rcon_ui.Discovery.{DiscoveryReport}
use rcon_ui.Events.{discovery}
use rcon_ui.Hub.{Hub, publish}
use rcon_ui.Sidebar.{disconnected, connecting, connected, auth_failed}
use rcon_ui.Session.{Session}
use rcon_ui.Session.Manager.{Manager}
use rcon_ui.Session.Commands.{unsent}

-- `games` is the column of the stored profiles that a run may write.
pub record Daemon : Type 0 where
  pub manager : Manager
  pub discoveries : List (Text × DiscoveryReport)
  pub games : List (Text × Text)
  pub hub : Hub

unfoldable pub last_discovery : Text → Daemon → Option DiscoveryReport
unfolding lookup
last_discovery id d = lookup id d.discoveries

-- The game is written only to a profile that is there and has another.
unfoldable pub persisted : Text → Text → Option Text → List (Text × Text) → List (Text × Text)
unfolding insert
persisted id fingerprint none games = games
persisted id fingerprint (some game) games =
    if game === fingerprint then games else insert id fingerprint games

abbrev pub summary : DiscoveryReport → Text
summary r =
    r.label
    ++ codes " · "
    ++ show_nat (length r.options)
    ++ codes " options · "
    ++ show_nat (length r.commands)
    ++ codes " commands"

-- What is left of a run that made a report, where the store takes the write.
unfoldable pub run_discovery : Text → Text → DiscoveryReport → Daemon → Daemon
unfolding insert lookup persisted publish
run_discovery now id r d = record d {
  discoveries = insert id r d.discoveries;
  games = persisted id r.fingerprint (lookup id d.games) d.games;
  hub = publish now (unsent id (codes "system") discovery (summary r)) d.hub;
}

abbrev pub is_connected : Option Session → Bool
is_connected none = false
is_connected (some s) = elim s.status [
  | connected ↦ true
  | disconnected ↦ false
  | connecting ↦ false
  | auth_failed ↦ false
]

-- `probe` is the report that the connection gives.
unfoldable pub discover : Text → Text → DiscoveryReport → Daemon → Option DiscoveryReport × Daemon
unfolding lookup run_discovery
discover now id probe d =
    if is_connected (lookup id d.manager.sessions)
    then (some probe, run_discovery now id probe d)
    else (none, d)

pub persisted_lem :
    (id fingerprint : Text) (game : Text) (games : List (Text × Text))
    → lookup id games ≡ some game
    → lookup id (persisted id fingerprint (some game) games) ≡ some fingerprint
unfolding persisted
persisted_lem id fingerprint game games h = elim (Bool-cases (game === fingerprint)) [
  | inl e ↦ rw e (h ∙ ap some ((===_iff game fingerprint).0 e))
  | inr e ↦ rw e (lookup-insert id id fingerprint games ∙ rw (===_refl id) refl)
]

-- A discovery of a connected server answers with the report, keeps it for the server and for no other,
-- and leaves the report's fingerprint as the game of the stored profile; of a server that is not
-- connected it answers with none and changes nothing.
pub discover_lem :
    (now id other : Text) (probe : DiscoveryReport) (d : Daemon) (game : Text)
    → lookup id d.games ≡ some game
    → (is_connected (lookup id d.manager.sessions) ≡ true
        → let (answer, d') = discover now id probe d in
          (answer ≡ some probe)
          × (last_discovery id d' ≡ some probe)
          × ((id === other) ≡ false → last_discovery other d' ≡ last_discovery other d)
          × (lookup id d'.games ≡ some probe.fingerprint)
          × (d'.manager ≡ d.manager))
      × (is_connected (lookup id d.manager.sessions) ≡ false → discover now id probe d ≡ (none, d))
unfolding discover last_discovery run_discovery
discover_lem now id other probe d game h =
    let saved : lookup id (insert id probe d.discoveries) ≡ some probe =
      lookup-insert id id probe d.discoveries ∙ rw (===_refl id) refl in
    let named : lookup id (persisted id probe.fingerprint (lookup id d.games) d.games)
        ≡ some probe.fingerprint =
      ap (λ g. lookup id (persisted id probe.fingerprint g d.games)) h
      ∙ persisted_lem id probe.fingerprint game d.games h in
    (
      λ e.
          rw e
            (refl, saved, λ q. lookup-insert id other probe d.discoveries ∙ rw q refl, named, refl),
      λ e. rw e refl,
    )
