-- ===== src/Hub.antt =====
-- internal/event/event.go: the hub that numbers the daemon's events and fans them out, and
-- handleEvents of internal/api/api.go, which streams them to a browser. An event is the one that the
-- front end reads; one to be published has no number yet. `uint64` wraps. A channel is the list of
-- what it holds; the hub's lock makes each of its operations one step.
pub mod Log
pub mod Delivery
pub mod Numbers
pub mod Lossless
pub mod Console
pub mod Restart
use rcon_ui.Base.{
  ℕ, ◌+◌, ◌-◌, ◌%◌, ◌^◌, ◌≡◌, Bool, true, false, not, ◌&&◌, ◌||◌, List, [], ◌∷◌, ◌++◌, map, ltb,
  leb, ◌==◌, if◌then◌else◌, length, drop, filter,
}
use rcon_ui.Text.{codes, Text, ◌===◌, is_empty}
use rcon_ui.Events.{RconEvent, Stream, command, response, status, error, discovery}

pub record Subscriber : Type 0 where
  pub queue : List RconEvent
  pub profile : Text

pub record Hub : Type 0 where
  pub seq : ℕ
  pub subs : List (ℕ × Subscriber)
  pub next_sub_id : ℕ
  pub history : List RconEvent
  pub history_limit : ℕ

abbrev pub subscriber_buffer : ℕ
subscriber_buffer = 256

abbrev pub default_history : ℕ
default_history = 500

abbrev pub new_hub : Hub
new_hub = record {
  seq = 0;
  subs = [];
  next_sub_id = 0;
  history = [];
  history_limit = default_history;
}

-- The empty profile stands for all.
abbrev pub wants : Text → RconEvent → Bool
wants profile e = is_empty profile || (e.profile_id === profile)

abbrev pub stamp : Text → ℕ → RconEvent → RconEvent
stamp now n e = record e { seq = n; at = if is_empty e.at then now else e.at }

-- The send to one subscriber, which never blocks.
abbrev pub offer : RconEvent → ℕ × Subscriber → ℕ × Subscriber
offer e (id, s) = (
  id,
  if not (wants s.profile e)
      then s
      else if ltb (length s.queue) subscriber_buffer
      then record s { queue = s.queue ++ e ∷ [] }
      else s,
)

unfoldable pub trim : ℕ → List RconEvent → List RconEvent
trim limit h = if ltb limit (length h) then drop (length h - limit) h else h

abbrev pub next_seq : Hub → ℕ
next_seq h = (h.seq + 1) % 2 ^ 64

unfoldable pub publish : Text → RconEvent → Hub → Hub
unfolding trim
publish now e h =
    let stamped = stamp now (next_seq h) e in
    record h {
      seq = next_seq h;
      history = trim h.history_limit (h.history ++ stamped ∷ []);
      subs = map (offer stamped) h.subs;
    }

abbrev pub stream_name : Stream → Text
stream_name command = codes "command"
stream_name response = codes "response"
stream_name status = codes "status"
stream_name error = codes "error"
stream_name discovery = codes "discovery"

-- The name and the data of the frame that `writeSSE` writes; `json` is `json.Marshal`.
abbrev pub sse_frame : (RconEvent → Text) → RconEvent → Text × Text
sse_frame json e = (stream_name e.stream, json e)

-- The channel's id, and the hub.
unfoldable pub subscribe : Text → Hub → ℕ × Hub
subscribe profile h =
    let id = (h.next_sub_id + 1) % 2 ^ 64 in
    (
      id,
      record h {
        next_sub_id = id;
        subs =
            (id, record { queue = []; profile = profile })
            ∷ filter (λ (s : ℕ × Subscriber). not (s.0 == id)) h.subs;
      },
    )

unfoldable pub cancel : ℕ → Hub → Hub
cancel id h = record h { subs = filter (λ (s : ℕ × Subscriber). not (s.0 == id)) h.subs }

abbrev pub is_after : ℕ → Text → RconEvent → Bool
is_after after profile e = not (leb e.seq after) && wants profile e

unfoldable pub history_since : Text → ℕ → Hub → List RconEvent
history_since profile after h = filter (is_after after profile) h.history

-- One stream to a browser: the hub, in which its subscription stands first, what was written, the
-- last number written from the history, and whether that is done.
pub record Connection : Type 0 where
  pub hub : Hub
  pub profile : Text
  pub replayed : ℕ
  pub written : List RconEvent
  pub streaming : Bool

-- `replayed = e.Seq` for each event of the history.
abbrev pub replay_to : ℕ → List RconEvent → ℕ
replay_to r [] = r
replay_to r (e ∷ es) = replay_to e.seq es

unfoldable pub open_stream : Text → ℕ → Hub → Connection
unfolding subscribe
open_stream profile last_seq h = record {
  hub = (subscribe profile h).1;
  profile = profile;
  replayed = last_seq;
  written = [];
  streaming = false;
}

unfoldable pub replay : Connection → Connection
unfolding history_since
replay w =
    let past = history_since w.profile w.replayed w.hub in
    record w { written = w.written ++ past; replayed = replay_to w.replayed past; streaming = true }

-- An event is received from the subscription's channel: what the replay delivered is skipped.
abbrev pub receive_from : List (ℕ × Subscriber) → Connection → Connection
receive_from [] w = w
receive_from ((id, s) ∷ others) w = elim s.queue [
  | [] ↦ w
  | e ∷ rest ↦ record w {
    hub = record (w.hub) { subs = (id, record s { queue = rest }) ∷ others };
    written = if leb e.seq w.replayed then w.written else w.written ++ e ∷ [];
  }
]

unfoldable pub receive : Connection → Connection
receive w = receive_from w.hub.subs w

-- The events waiting in its channel.
abbrev pub waiting_in : List (ℕ × Subscriber) → List RconEvent
waiting_in [] = []
waiting_in ((id, s) ∷ others) = s.queue

abbrev pub waiting : Connection → List RconEvent
waiting w = waiting_in w.hub.subs

-- The hub once other streams were opened and closed, which leave this one's subscription as it is.
abbrev pub beside : List (ℕ × Subscriber) → List (ℕ × Subscriber) → List (ℕ × Subscriber)
beside others [] = []
beside others (s ∷ _) = s ∷ others

abbrev pub others_change : List (ℕ × Subscriber) → ℕ → Connection → Connection
others_change others id w = record w {
  hub = record (w.hub) { subs = beside others w.hub.subs; next_sub_id = id };
}

-- How a connection can go on, with the events published since it was opened: an event is published
-- by anyone, other streams come and go, the history is written, an event is received.
pub data Run (w0 : Connection) : List RconEvent → Connection → Type 0 where
  fresh : Run w0 [] w0
  published :
      {log : List RconEvent} {w : Connection}
      → Run w0 log w
      → (now : Text) (e : RconEvent)
      → Run w0 (log ++ stamp now (next_seq w.hub) e ∷ []) (record w { hub = publish now e w.hub })
  beside_others :
      {log : List RconEvent} {w : Connection}
      → Run w0 log w
      → (others : List (ℕ × Subscriber)) (id : ℕ) → Run w0 log (others_change others id w)
  replayed_past :
      {log : List RconEvent} {w : Connection}
      → Run w0 log w
      → w.streaming ≡ false
      → Run w0 log (replay w)
  received :
      {log : List RconEvent} {w : Connection}
      → Run w0 log w
      → w.streaming ≡ true
      → Run w0 log (receive w)
