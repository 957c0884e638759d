-- ===== src/Tests/Hub.antt =====
-- The daemon's hub, and a tab that subscribes to it while events are published.
use rcon_ui.Base.{
  max, ◌-◌, ◌≤◌, ◌≡◌, refl, Option, none, some, List, [], ◌∷◌, ◌++◌, map, arith, filter,
}
use rcon_ui.Hub.Console.{console_shows}
use rcon_ui.Hub.{
  sse_frame, Hub, new_hub, Connection, stamp, next_seq, is_after, publish, open_stream, replay,
  receive, Run, fresh, published, replayed_past, received,
}
use rcon_ui.Subscription.Frames.{deliver_all}
use rcon_ui.Subscription.{Hook, subscribe}
use rcon_ui.Api.{Page}
use rcon_ui.Events.Window.{newest}
use rcon_ui.Text.{Text, codes}
use rcon_ui.Events.{RconEvent}
use rcon_ui.Hub.Log.{HasLog-publish}
use rcon_ui.Hub.Delivery.{replay_point, IsLossless}
use rcon_ui.Hub.Lossless.{delivered}
use rcon_ui.Hub.Restart.{restart_silent, HasLog-new_hub}
use rcon_ui.Tests.{event, encode}

abbrev now : Text
now = codes "12:00"

-- An event of a profile that has no number yet.
abbrev news : Text → RconEvent
news profile = record (event 0) { profile_id = profile; at = now }

abbrev mine : Text
mine = codes "p1"

abbrev first : RconEvent
first = stamp now 1 (news mine)

abbrev hub1 : Hub
hub1 = publish now (news mine) new_hub

abbrev log1 : List RconEvent
log1 = [] ++ stamp now (next_seq new_hub) (news mine) ∷ []

abbrev w0 : Connection
w0 = open_stream mine 0 hub1

-- One event for the tab and one for another server, then the history is written, one more, and all
-- that waits is received.
abbrev log : List RconEvent
log =
    (([] ++ stamp now 2 (news mine) ∷ []) ++ stamp now 3 (news (codes "p2")) ∷ [])
    ++ stamp now 4 (news mine) ∷ []

abbrev w1 : Connection
w1 = record w0 { hub = publish now (news mine) w0.hub }

abbrev w2 : Connection
w2 = record w1 { hub = publish now (news (codes "p2")) w1.hub }

abbrev w3 : Connection
w3 = replay w2

abbrev w4 : Connection
w4 = record w3 { hub = publish now (news mine) w3.hub }

abbrev w6 : Connection
w6 = receive (receive w4)

run6 : Run w0 log w6
unfolding open_stream replay receive publish rcon_ui.Text.◌===◌
run6 =
    received
      (received
        (published
          (replayed_past (published (published fresh now (news mine)) now (news (codes "p2"))) refl)
          now (news mine))
        refl)
      refl

abbrev past : List RconEvent
past = log1

run6-IsLossless : IsLossless run6
unfolding IsLossless run6
run6-IsLossless = (
  (((tt, omega arith, omega arith), omega arith, omega arith), omega arith),
  omega arith,
  omega arith,
)

written_test : map (λ e. e.seq) w6.written ≡ 1 ∷ 2 ∷ 4 ∷ []
unfolding receive publish replay open_stream rcon_ui.Text.◌===◌
written_test = refl

delivered_example :
    (replay_point run6 - 500 ≤ 1)
    × (w6.written ≡ filter (is_after (max 0 (replay_point run6 - 500)) mine) (past ++ log))
unfolding receive publish replay open_stream replay_point run6 rcon_ui.Text.◌===◌
delivered_example =
    delivered mine 0 hub1 past log w6
      (HasLog-publish [] new_hub now (news mine) HasLog-new_hub (omega arith)) run6 run6-IsLossless
      refl refl

-- A frame holds the event whose number and profile it is.
abbrev json : RconEvent → Text
json e = e.seq ∷ e.profile_id

abbrev parse : Text → Option RconEvent
parse [] = none
parse (n ∷ profile) = some (stamp now n (news profile))

abbrev page : Page
page = record { cached = some []; injected = none; pathname = codes "/"; params = []; hash = [] }

abbrev hook : Hook
hook = record { events = event 9 ∷ []; last_seq = 9; source = none }

console_shows_example :
    (replay_point run6 - 500 ≤ 1)
    × ((deliver_all parse
          (map (sse_frame json) w6.written)
          (subscribe encode (some mine) page hook).0).events
        ≡ newest (filter (is_after (replay_point run6 - 500) mine) (past ++ log)))
unfolding receive publish replay open_stream replay_point run6 rcon_ui.Text.◌===◌
console_shows_example =
    console_shows encode parse json b'p' (codes "1") page hook hub1 past log w6
      (HasLog-publish [] new_hub now (news mine) HasLog-new_hub (omega arith)) run6 run6-IsLossless
      refl refl (refl, (refl, (refl, (refl, tt))))

-- A daemon that has started again, and a tab that had seen the event 900.
abbrev v0 : Connection
v0 = open_stream mine 900 new_hub

abbrev v1 : Connection
v1 = replay v0

abbrev v2 : Connection
v2 = record v1 { hub = publish now (news mine) v1.hub }

again : Run v0 ([] ++ stamp now (next_seq v1.hub) (news mine) ∷ []) (receive v2)
unfolding open_stream replay
again = received (published (replayed_past fresh refl) now (news mine)) refl

again-IsLossless : IsLossless again
unfolding IsLossless again
again-IsLossless = ((tt, omega arith), omega arith, omega arith)

restart_silent_example : (receive v2).written ≡ []
unfolding receive publish replay open_stream rcon_ui.Text.◌===◌
restart_silent_example =
    restart_silent mine 900 ([] ++ stamp now (next_seq v1.hub) (news mine) ∷ []) (receive v2) again
      again-IsLossless refl refl (omega arith)
