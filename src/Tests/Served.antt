-- ===== src/Tests/Served.antt =====
-- Replies of the daemon, as the front end reads them, and a command on the hub.
use rcon_ui.Base.{ℕ, ◌+◌, ◌≡◌, refl, true, false, Option, none, some, List, [], ◌∷◌, ◌++◌, arith}
use rcon_ui.Text.{Text, codes, ◌===◌}
use rcon_ui.Discovery.{DiscoveryReport}
use rcon_ui.Events.{status, command, RconEvent}
use rcon_ui.Api.Request.{api_error, replied, settle}
use rcon_ui.Api.Handlers.{
  Executed, refusal, decoded, handle_execute, handle_get_discovery, handle_discover,
}
use rcon_ui.App.{State, set_report, discovery_settled, rescan_settled, server, console}
use rcon_ui.App.Served.{taken_for, rescanned, report_served}
use rcon_ui.Hub.{new_hub}
use rcon_ui.Hub.Log.{HasLog}
use rcon_ui.Hub.Restart.{HasLog-new_hub}
use rcon_ui.Session.{Session, new_session}
use rcon_ui.Session.Erased.{game_erased}
use rcon_ui.Probe.Discover
use rcon_ui.Session.Reports.{
  run_discovery, Daemon, discover, last_discovery, is_connected, discover_lem,
}
use rcon_ui.Text.Dict.{lookup}
use rcon_ui.Sidebar.{connected}
use rcon_ui.Session.Commands.{Turns, World, Answer, failed, unsent, run_command}
use rcon_ui.Session.Published.{expected, stamp_all, run_command_lem}
use rcon_ui.Tests.{report}

-- The bodies that the daemon writes.
data Body : Type 0 where
  error_json response_json : Text → Body
  report_json : DiscoveryReport → Body

abbrev error_of : Body → Option Text
error_of (error_json m) = some m
error_of _ = none

abbrev read_report : Body → DiscoveryReport
read_report (report_json r) = r
read_report _ = report

abbrev status_text : ℕ → Text
status_text n = codes "status"

abbrev refuses : Text → Executed
refuses cmd = refusal (codes "session: authentication failed")

-- A command with a refused password.
refused_test :
    settle error_of (codes "bad JSON") (
      replied
        (handle_execute status_text error_json response_json refuses (decoded (codes "players"))))
    ≡ api_error 401 (codes "session: authentication failed")
unfolding settle handle_execute rcon_ui.Probe.White.drop_white
refused_test = refl

abbrev others : List RconEvent
others = unsent (codes "p2") (codes "rcon") command (codes "help") ∷ []

abbrev begin : World
begin = record { session = new_session; hub = new_hub; history = [] }

abbrev broken_pipe : Answer
broken_pipe = failed (codes "broken pipe")

-- The supervisor reports the loss between the status of the failure and its error.
abbrev turns : Turns
turns = record {
  turn = λ s. s;
  first = [];
  later = unsent (codes "p1") (codes "system") status (codes "connecting…") ∷ [];
}

run_command_lem_example :
    HasLog
      ([]
        ++ stamp_all (codes "12:00") 0 (
            unsent (codes "p1") (codes "rcon") command (codes "save") ∷ others
            ++ expected (codes "p1") new_session turns broken_pipe))
      (run_command
        (codes "12:00")
        true
        (codes "p1")
        (codes "save")
        others
        turns
        broken_pipe
        begin).hub
unfolding rcon_ui.Text.◌===◌ rcon_ui.Session.drop_client
run_command_lem_example =
    run_command_lem (codes "12:00") true (codes "p1") (codes "save") others turns broken_pipe begin
      [] HasLog-new_hub (omega arith)

abbrev page : State
page = record {
  servers = [];
  selected_id = some (codes "p1");
  macros = [];
  history = [];
  dialog = record { open? = false; server = none };
  palette_open = false;
  load_error = none;
  view = server;
  report = none;
  report_error = none;
  rescanning = true;
  tab = console;
  tab_touched = false;
  prefill = none;
  stored_id = none;
}

report_served_example :
    (discovery_settled
        (taken_for read_report (
          settle error_of
            (codes "bad JSON")
            (replied (handle_get_discovery status_text error_json report_json (some report)))))
        page
      ≡ record (set_report (some report) page) { report_error = none })
    × (rescan_settled
          (taken_for read_report (
            settle error_of
              (codes "bad JSON")
              (replied (handle_discover status_text error_json report_json (some report)))))
          page
        ≡ rescanned (some report) page)
report_served_example =
    report_served status_text error_json error_of (λ m. refl) (codes "bad JSON") report_json
      read_report (λ r. refl) (some report) page

abbrev alive : Session
alive = record new_session { status = connected; client = some 7 }

abbrev daemon : Daemon
daemon = record {
  manager = record { sessions = (codes "p1", alive) ∷ []; retired = [] };
  discoveries = [];
  games = (codes "p1", []) ∷ [];
  hub = new_hub;
}

discover_lem_example :
    (is_connected (lookup (codes "p1") daemon.manager.sessions) ≡ true
      → let (answer, d) = discover (codes "12:00") (codes "p1") report daemon in
        (answer ≡ some report)
        × (last_discovery (codes "p1") d ≡ some report)
        × ((codes "p1" === codes "p2") ≡ false
            → last_discovery (codes "p2") d ≡ last_discovery (codes "p2") daemon)
        × (lookup (codes "p1") d.games ≡ some report.fingerprint)
        × (d.manager ≡ daemon.manager))
    × (is_connected (lookup (codes "p1") daemon.manager.sessions) ≡ false
        → discover (codes "12:00") (codes "p1") report daemon ≡ (none, daemon))
unfolding lookup ◌===◌
discover_lem_example = discover_lem (codes "12:00") (codes "p1") (codes "p2") report daemon [] refl

abbrev known : Daemon
known = record daemon { games = (codes "p1", codes "zomboid") ∷ [] }

-- No command is answered.
abbrev silent : Text → ℕ → Option Text × ℕ
silent cmd n = (none, n + 1)

abbrev erased : DiscoveryReport
erased = (rcon_ui.Probe.Discover.discover (λ v. false) (codes "12:00") silent 0).0

game_erased_example :
    (erased.fingerprint ≡ codes "unknown")
    × (last_discovery (codes "p1") (run_discovery (codes "12:00") (codes "p1") erased known)
        ≡ some erased)
    × (lookup (codes "p1") (run_discovery (codes "12:00") (codes "p1") erased known).games
        ≡ some (codes "unknown"))
unfolding lookup ◌===◌
game_erased_example =
    game_erased (λ v. false) (codes "12:00") silent (λ cmd n. refl) (codes "12:00") (codes "p1")
      known (codes "zomboid") 0 refl
