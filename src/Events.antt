-- ===== src/Events.antt =====
-- web/src/useEvents.ts: the reducer behind the console's event list, and the types of web/src/api.ts
-- that it works on. Sequence numbers are the daemon's counters, natural numbers.
pub mod Order
pub mod Window
use rcon_ui.Base.{
  ℕ, ◌+◌, ◌-◌, Bool, false, List, [], ◌∷◌, ◌++◌, none, some, leb, if◌then◌else◌, length, drop,
  get_last?,
}
use rcon_ui.Text.{Text}

pub data Stream : Type 0 where
  command response status error discovery : Stream

pub record RconEvent : Type 0 where
  pub seq : ℕ
  pub profile_id : Text
  pub source : Text
  pub stream : Stream
  pub line : Text
  pub at : Text

abbrev pub max_events : ℕ
max_events = 5000

pub data Action : Type 0 where
  append : RconEvent → Action
  reset : Action

-- `last && e.seq <= last.seq`
unfoldable pub is_replay : List RconEvent → RconEvent → Bool
is_replay state e = elim (get_last? state) [ none ↦ false | some last ↦ leb e.seq last.seq ]

-- What is kept before the new event is added.
unfoldable pub make_room : List RconEvent → List RconEvent
make_room state =
    if leb max_events (length state) then drop (length state - max_events + 1) state else state

unfoldable pub reducer : List RconEvent → Action → List RconEvent
unfolding is_replay make_room
reducer state reset = []
reducer state (append e) = if is_replay state e then state else make_room state ++ e ∷ []

-- The dispatches of a session, one after the other.
abbrev pub run : List RconEvent → List Action → List RconEvent
run state [] = state
run state (a ∷ rest) = run (reducer state a) rest
