-- ===== src/Session.antt =====
-- internal/session/session.go: a session, its supervisor, and the commands that run on it.
-- A connection and a channel are numbers; `closed` are the channels that were closed, and `panicked`
-- tells that one was closed twice. Each critical section is one step, with the publication that
-- `setStatus` makes right after it. Time is in seconds.
pub mod Steps
pub mod Channels
pub mod Fields
pub mod Refused
pub mod Wakes
pub mod Backoff
pub mod Stale
pub mod Manager
pub mod Commands
pub mod Published
pub mod Reports
pub mod Erased
use rcon_ui.Base.{
  ℕ, min, ◌+◌, ◌*◌, Bool, true, false, ◌&&◌, ◌||◌, Option, none, some, List, [], ◌∷◌, ◌++◌, ◌==◌,
  if◌then◌else◌, any,
}
use rcon_ui.Text.{Text, ◌===◌}
use rcon_ui.Sidebar.{Status, disconnected, connecting, connected, auth_failed}

abbrev pub initial_backoff : ℕ
initial_backoff = 1

abbrev pub max_backoff : ℕ
max_backoff = 30

-- Where the supervisor stands: at the top of its loop, after the check of the context, in `dial`,
-- asleep, with the new client installed, waiting on the channel `broken`, or returned.
pub data Phase : Type 0 where
  top checked dialing sleeping finished : Phase
  installed serving : ℕ → Phase

-- `dials` counts the dials, and `sleeps` are the lengths of the sleeps so far; `held` are the clients that
-- running commands were given, and `failing` the failures whose client was dropped and whose status is
-- still to be set.
pub record Session : Type 0 where
  pub status : Status
  pub last_err : Text
  pub client : Option ℕ
  pub broken : Option ℕ
  pub broken_closed : Bool
  pub changed : ℕ
  pub cancelled : Bool
  pub phase : Phase
  pub backoff : ℕ
  pub next_channel : ℕ
  pub closed : List ℕ
  pub panicked : Bool
  pub dials : ℕ
  pub sleeps : List ℕ
  pub held : List ℕ
  pub failing : List Text
  pub log : List (Status × Text)

-- As `Connect` makes it.
abbrev pub new_session : Session
new_session = record {
  status = disconnected;
  last_err = [];
  client = none;
  broken = none;
  broken_closed = false;
  changed = 0;
  cancelled = false;
  phase = top;
  backoff = initial_backoff;
  next_channel = 1;
  closed = [];
  panicked = false;
  dials = 0;
  sleeps = [];
  held = [];
  failing = [];
  log = [];
}

abbrev pub is_closed : ℕ → List ℕ → Bool
is_closed c cs = any (λ d. d == c) cs

-- `close(c)` of Go.
abbrev pub close : ℕ → Session → Session
close c s = record s { closed = c ∷ s.closed; panicked = s.panicked || is_closed c s.closed }

abbrev pub same_status : Status → Status → Bool
same_status disconnected disconnected = true
same_status connecting connecting = true
same_status connected connected = true
same_status auth_failed auth_failed = true
same_status _ _ = false

abbrev pub change_status : Status → Text → Session → Session
change_status st err s = record (close s.changed s) {
  status = st;
  last_err = err;
  changed = s.next_channel;
  next_channel = s.next_channel + 1;
  log = s.log ++ (st, err) ∷ [];
}

unfoldable pub set_status : Status → Text → Session → Session
set_status st err s =
    if same_status s.status st && (s.last_err === err) then s else change_status st err s

unfoldable pub stop : Session → Session
stop s = record s { cancelled = true; client = none }

-- The first critical section of `markBroken`.
abbrev pub close_broken : Option ℕ → Bool → Session → Session
close_broken (some b) false s = record (close b s) { broken_closed = true }
close_broken _ _ s = s

unfoldable pub drop_client : Session → Session
drop_client s = close_broken s.broken s.broken_closed (record s { client = none })

-- Both, where nothing comes in between.
unfoldable pub mark_broken : Text → Session → Session
unfolding drop_client set_status
mark_broken err s = set_status disconnected err (drop_client s)

-- The same, as two steps: others may take turns between them.
unfoldable pub begin_failure : Text → Session → Session
unfolding drop_client
begin_failure err s = record (drop_client s) { failing = err ∷ s.failing }

unfoldable pub end_failure : Text → List Text → Session → Session
unfolding set_status
end_failure err rest s = set_status disconnected err (record s { failing = rest })

-- What a round of `waitReady` finds: the client, the terminal error, or nothing yet.
pub data Ready : Type 0 where
  client_ready : ℕ → Ready
  refused : Text → Ready
  not_yet : Ready

abbrev pub ready_by : Status → Option ℕ → Text → Ready
ready_by connected (some c) err = client_ready c
ready_by auth_failed _ err = refused err
ready_by _ _ err = not_yet

unfoldable pub wait_ready : Session → Ready
wait_ready s = ready_by s.status s.client s.last_err

-- The supervisor's steps.
unfoldable pub check_context : Session → Session
check_context s = record s { phase = if s.cancelled then finished else checked }

unfoldable pub start_dial : Session → Session
unfolding set_status
start_dial s = record (set_status connecting [] s) { phase = dialing; dials = s.dials + 1 }

-- `dial` returned an error: a refused password, or another.
unfoldable pub dial_refused : Text → Session → Session
unfolding set_status
dial_refused err s = record (set_status auth_failed err s) { phase = finished }

unfoldable pub dial_failed : Text → Session → Session
unfolding set_status
dial_failed err s = record (set_status disconnected err s) {
  phase = sleeping;
  sleeps = s.sleeps ++ s.backoff ∷ [];
}

unfoldable pub wake : Session → Session
wake s = record s { phase = top; backoff = min (s.backoff * 2) max_backoff }

-- `dial` returned a client.
unfoldable pub install : ℕ → Session → Session
install c s = record s {
  backoff = initial_backoff;
  client = some c;
  broken = some s.next_channel;
  broken_closed = false;
  next_channel = s.next_channel + 1;
  phase = installed s.next_channel;
}

unfoldable pub serve : ℕ → Session → Session
unfolding set_status
serve b s = record (set_status connected [] s) { phase = serving b }

abbrev pub go_to : Phase → Session → Session
go_to p s = record s { phase = p }
