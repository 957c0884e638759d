-- ===== src/Tests/App.antt =====
-- The application with two servers.
use rcon_ui.Base.{◌≡◌, refl, false, none, some, List, [], ◌∷◌}
use rcon_ui.Text.{Text, codes, ◌===◌}
use rcon_ui.Discovery.{DiscoveryReport}
use rcon_ui.Api.Request.{Outcome, value}
use rcon_ui.Sidebar.{Server, connected}
use rcon_ui.App.{macros_settled, history_settled, State, console, server, select, discovery_settled}
use rcon_ui.App.Async.{
  World, asked, macros_of, history_of, Reach, IsAbout, selects, reports, macros_come, history_comes,
}
use rcon_ui.App.Calm.{CalmReach, calm_here, calm_next, calm_report}
use rcon_ui.App.Stale.{stale_report}
use rcon_ui.Tests.{report, differ}

abbrev server_of : Text → Server
server_of id = record {
  id = id;
  name = id;
  protocol = codes "source";
  addr = codes "localhost";
  group = none;
  created_at = [];
  updated_at = [];
  status = connected;
  game = none;
  tls = none;
  server_name = none;
}

abbrev begin : State
begin = record {
  servers = server_of (codes "a") ∷ server_of (codes "b") ∷ [];
  selected_id = none;
  macros = [];
  history = [];
  dialog = record { open? = false; server = none };
  palette_open = false;
  load_error = none;
  view = server;
  report = none;
  report_error = none;
  rescanning = false;
  tab = console;
  tab_touched = false;
  prefill = none;
  stored_id = none;
}

abbrev history : List Text
history = codes "players" ∷ codes "kick bob" ∷ []

-- Every report is of the server "a".
abbrev owner : DiscoveryReport → Text
owner r = codes "a"

abbrev idle : World
idle = record { app = begin; pending = [] }

abbrev found : Outcome DiscoveryReport
found = value (some report)

found-IsAbout : IsAbout owner (codes "a") found
found-IsAbout = λ r e. refl

-- The server "a" is selected, and its report comes in first, then its history, then its macros.
abbrev chosen : World
chosen = record { app = select (codes "a") begin; pending = asked (codes "a") }

abbrev first_reply : World
first_reply = record {
  app = discovery_settled found chosen.app;
  pending = macros_of (codes "a") ∷ history_of (codes "a") ∷ [];
}

abbrev second_reply : World
second_reply = record {
  app = history_settled none first_reply.app;
  pending = macros_of (codes "a") ∷ [];
}

abbrev last_reply : World
last_reply = record { app = macros_settled none second_reply.app; pending = [] }

calm_run : CalmReach owner idle last_reply
unfolding ◌===◌
calm_run =
    let s1 = selects idle (codes "a") (differ (codes "a") [] refl) refl in
    let s2 =
      reports chosen (macros_of (codes "a") ∷ history_of (codes "a") ∷ []) [] (codes "a") found refl
        found-IsAbout in
    let s3 = history_comes first_reply (macros_of (codes "a") ∷ []) [] (codes "a") none refl in
    let s4 = macros_come second_reply [] [] (codes "a") none refl in
    calm_next (calm_next (calm_next (calm_next calm_here s1 refl) s2 tt) s3 tt) s4 tt

calm_report_example : last_reply.app.selected_id ≡ some (codes "a")
unfolding macros_settled history_settled discovery_settled select
calm_report_example =
    calm_report owner {u = idle} {v = last_reply} refl refl calm_run refl report refl

stale_report_example :
    (v : World) × Reach owner (record { app = begin; pending = [] }) v
    × (v.app.selected_id ≡ some (codes "b"))
    × (v.app.report ≡ some report)
    × (v.pending
        ≡ macros_of (codes "a")
          ∷ history_of (codes "a")
          ∷ macros_of (codes "b")
          ∷ history_of (codes "b")
          ∷ [])
unfolding ◌===◌
stale_report_example =
    stale_report owner begin (codes "a") (codes "b") report (differ (codes "a") [] refl)
      (differ (codes "b") [] refl) refl (differ (codes "a") (codes "b") refl) refl

-- The daemon's history holds a command twice.
abbrev repeated : State
repeated = record begin {
  selected_id = some (codes "a");
  history = codes "players" ∷ codes "save" ∷ codes "players" ∷ [];
}
