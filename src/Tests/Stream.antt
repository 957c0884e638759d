-- ===== src/Tests/Stream.antt =====
-- The console's events: the list, and the subscription that fills it.
use rcon_ui.Base.{
  ◌-◌, ◌≡◌, refl, ◌&&◌, Option, none, some, List, [], ◌∷◌, arith, leb, if◌then◌else◌,
}
use rcon_ui.Text.{Text, codes}
use rcon_ui.Events.{RconEvent, append, reset, run}
use rcon_ui.Events.Order.{IsValid, run-IsValid}
use rcon_ui.Events.Window.{accepted, newest}
use rcon_ui.Subscription.{Hook, subscribe}
use rcon_ui.Subscription.Frames.{deliver_all, deliver_all-subscribe}
use rcon_ui.Api.{Page, token_param}
use rcon_ui.Tests.{encode, event}

abbrev held : List RconEvent
held = event 1 ∷ event 2 ∷ event 4 ∷ []

held-IsValid : IsValid held
held-IsValid = record {
  rising = ((omega arith, (omega arith, tt)), ((omega arith, tt), (tt, tt)));
  capped = omega arith;
}

run-IsValid_example :
    IsValid (run held (append (event 4) ∷ append (event 5) ∷ reset ∷ append (event 1) ∷ []))
run-IsValid_example =
    run-IsValid (append (event 4) ∷ append (event 5) ∷ reset ∷ append (event 1) ∷ []) held
      held-IsValid

accepted_test : accepted (some (event 4)) (event 3 ∷ event 6 ∷ event 5 ∷ []) ≡ event 6 ∷ []
unfolding accepted
accepted_test = refl

-- A frame holds the event whose number it is, in one digit.
abbrev parse : Text → Option RconEvent
parse [] = none
parse (c ∷ s) = if leb b'0' c && leb c b'9' then some (event (c - b'0')) else none

abbrev page : Page
page = record {
  cached = none;
  injected = some [];
  pathname = codes "/";
  params = (codes "view", codes "x") ∷ (token_param, codes "secret") ∷ [];
  hash = codes "#top";
}

abbrev hook : Hook
hook = record { events = held; last_seq = 4; source = some (codes "/api/events") }

abbrev frames : List (Text × Text)
frames =
    (codes "response", codes "7")
    ∷ (codes "message", codes "8")
    ∷ (codes "status", codes "x")
    ∷ (codes "error", codes "9")
    ∷ []

deliver_all-subscribe_example :
    (deliver_all parse frames (subscribe encode (some (codes "p1")) page hook).0).events
    ≡ newest (event 7 ∷ event 9 ∷ [])
unfolding accepted rcon_ui.Text.◌===◌
deliver_all-subscribe_example = deliver_all-subscribe encode parse b'p' (codes "1") page hook frames
