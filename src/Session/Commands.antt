-- ===== src/Session/Commands.antt =====
-- `Execute` of internal/session/session.go: what a command publishes on the hub and records in the
-- history, with what others publish while it waits for the server.
use rcon_ui.Base.{Bool, Option, none, some, List, [], ◌∷◌, ◌++◌, map, if◌then◌else◌, length, drop}
use rcon_ui.Text.{Text, codes, is_empty}
use rcon_ui.Text.Dict.{lookup}
use rcon_ui.Events.{RconEvent, Stream, command, response, error, status}
use rcon_ui.Hub.{Hub, publish}
use rcon_ui.Sidebar.{Status, disconnected, connecting, connected, auth_failed}
use rcon_ui.Session.{Session, drop_client, set_status}
use rcon_ui.Session.Manager.{Manager, connect}

abbrev pub unsent : Text → Text → Stream → Text → RconEvent
unsent profile source stream line = record {
  seq = 0;
  profile_id = profile;
  source = source;
  stream = stream;
  line = line;
  at = [];
}

abbrev pub status_name : Status → Text
status_name disconnected = codes "disconnected"
status_name connecting = codes "connecting"
status_name connected = codes "connected"
status_name auth_failed = codes "auth_failed"

-- `fmt.Sprintf("%s: %s", st, errMsg)`, unless the message is empty.
abbrev pub status_line : Status × Text → Text
status_line (st, err) = if is_empty err then status_name st else status_name st ++ codes ": " ++ err

abbrev pub status_event : Text → Status × Text → RconEvent
status_event profile entry = unsent profile (codes "system") status (status_line entry)

unfoldable pub publish_all : Text → List RconEvent → Hub → Hub
unfolding publish
publish_all now [] h = h
publish_all now (e ∷ es) h = publish_all now es (publish now e h)

-- What a session and the hub are, and the stored history: a profile and a command.
pub record World : Type 0 where
  pub session : Session
  pub hub : Hub
  pub history : List (Text × Text)

pub data Answer : Type 0 where
  answered failed : Text → Answer

-- The statuses that a session took on since it was `s`.
abbrev pub status_events : Text → Session → Session → List RconEvent
status_events profile s t = map (status_event profile) (drop (length s.log) t.log)

-- What others do after a failure's client was dropped, to the session and on the hub, before the failing
-- command has set the status; and what they publish before it has published the error.
pub record Turns : Type 0 where
  pub turn : Session → Session
  pub first : List RconEvent
  pub later : List RconEvent

-- The session when a failing command is about to set the status.
abbrev pub at_status : Turns → Session → Session
at_status ts s = ts.turn (drop_client s)

-- The events that follow the answer, for the session as it is when the answer comes.
unfoldable pub answer_events : Text → Session → Turns → Answer → List RconEvent
unfolding drop_client set_status
answer_events profile s ts (answered line) = unsent profile (codes "rcon") response line ∷ []
answer_events profile s ts (failed err) =
    ts.first
    ++ status_events profile (at_status ts s) (set_status disconnected err (at_status ts s))
    ++ ts.later
    ++ unsent profile (codes "rcon") error err ∷ []

unfoldable pub after_answer : Turns → Answer → Session → Session
unfolding drop_client set_status
after_answer ts (answered line) s = s
after_answer ts (failed err) s = set_status disconnected err (at_status ts s)

-- A command that failed is not recorded, and the store may refuse one.
abbrev pub recorded : Bool → Text → Text → Answer → List (Text × Text) → List (Text × Text)
recorded stores profile cmd (answered line) h = if stores then h ++ (profile, cmd) ∷ [] else h
recorded stores profile cmd (failed err) h = h

-- From the client that `waitReady` gave on; `others` is published before the answer comes, and all of it
-- at one time `now`.
unfoldable pub run_command :
    Text → Bool → Text → Text → List RconEvent → Turns → Answer → World → World
unfolding publish_all answer_events after_answer
run_command now stores profile cmd others ts answer w =
    let sent = publish now (unsent profile (codes "rcon") command cmd) w.hub in
    let waited = publish_all now others sent in
    record {
      session = after_answer ts answer w.session;
      hub = publish_all now (answer_events profile w.session ts answer) waited;
      history = recorded stores profile cmd answer w.history;
    }

-- The session that `Execute` starts with: the one on the map, or a new one; and what it reads when it
-- takes the lock again.
unfoldable pub first_read : Text → Manager → Manager
unfolding lookup connect
first_read id m = elim (lookup id m.sessions) [ none ↦ connect id m | some s ↦ m ]

unfoldable pub second_read : Text → Manager → Option Session
unfolding lookup
second_read id m = lookup id m.sessions
