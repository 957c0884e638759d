-- ===== src/Subscription/Frames.antt =====
-- What a subscription shows, from its first frame on.
use rcon_ui.Base.{
  ℕ, ◌≡◌, refl, ap, ◌∙◌, inl, inr, true, Option, none, some, List, [], ◌∷◌, ◌++◌, map, arith,
  if◌then◌else◌, Bool-cases, Option-cases, is_some,
}
use rcon_ui.Text.{Text, codes}
use rcon_ui.Text.ObjectKeys.{contains}
use rcon_ui.Events.{RconEvent, append, run}
use rcon_ui.Events.Window.{accepted, newest, run-newest}
use rcon_ui.Api.{Page, with_token}
use rcon_ui.Subscription.{Hook, stream_path, subscribe, on_message, listened, deliver}

-- The frames of a stream, one after the other.
abbrev pub deliver_all : (Text → Option RconEvent) → List (Text × Text) → Hook → Hook
deliver_all parse [] h = h
deliver_all parse (f ∷ fs) h = deliver_all parse fs (deliver parse f h)

-- The events in the frames that the hook listens to; a frame that does not parse holds none.
abbrev pub events_of : (Text → Option RconEvent) → List (Text × Text) → List RconEvent
events_of parse [] = []
events_of parse ((name, raw) ∷ fs) =
    let rest = events_of parse fs in
    if contains name listened then elim (parse raw) [ none ↦ rest | some e ↦ e ∷ rest ] else rest

-- A frame dispatches the events in it.
run-deliver :
    (parse : Text → Option RconEvent) (name raw : Text) (fs : List (Text × Text)) (h : Hook)
    → is_some h.source ≡ true
    → run (deliver parse (name, raw) h).events (map append (events_of parse fs))
      ≡ run h.events (map append (events_of parse ((name, raw) ∷ fs)))
unfolding deliver on_message
run-deliver parse name raw fs h live = elim (Bool-cases (contains name listened)) [
  | inr other ↦ ground arith
  | inl ours ↦ elim (Option-cases (parse raw)) [
    | inl bad ↦ ground arith
    | inr (e, good) ↦ ground arith
  ]
]

source-deliver :
    (parse : Text → Option RconEvent) (f : Text × Text) (h : Hook)
    → (deliver parse f h).source ≡ h.source
unfolding deliver on_message
source-deliver parse (name, raw) h = ground arith

deliver_all-run :
    (parse : Text → Option RconEvent) (fs : List (Text × Text)) (h : Hook)
    → is_some h.source ≡ true
    → (deliver_all parse fs h).events ≡ run h.events (map append (events_of parse fs))
deliver_all-run parse [] h live = refl
deliver_all-run parse ((name, raw) ∷ fs) h live =
    deliver_all-run parse fs (deliver parse (name, raw) h)
      (ap is_some (source-deliver parse (name, raw) h) ∙ live)
    ∙ run-deliver parse name raw fs h live

subscribe_opens :
    (encode : Text → Text) (c : ℕ) (cs : Text) (page : Page) (h : Hook)
    → ((subscribe encode (some (c ∷ cs)) page h).0.events ≡ [])
      × ((subscribe encode (some (c ∷ cs)) page h).0.source
          ≡ some (with_token encode page (stream_path encode (c ∷ cs))).0)
unfolding subscribe
subscribe_opens encode c cs page h = (refl, refl)

-- Whatever was shown before, after a subscription to a server and any frames the console holds the
-- newest `MAX_EVENTS` of the events that these frames bring anew: frames of other names, and those
-- that do not parse, leave it as it is.
pub deliver_all-subscribe :
    (encode : Text → Text) (parse : Text → Option RconEvent) (c : ℕ) (cs : Text) (page : Page)
    (h : Hook) (fs : List (Text × Text))
    → (deliver_all parse fs (subscribe encode (some (c ∷ cs)) page h).0).events
      ≡ newest (accepted none (events_of parse fs))
deliver_all-subscribe encode parse c cs page h fs =
    let (empty, live) = subscribe_opens encode c cs page h in
    deliver_all-run parse fs (subscribe encode (some (c ∷ cs)) page h).0 (ap is_some live)
    ∙ ap (λ es. run es (map append (events_of parse fs))) empty
    ∙ run-newest (events_of parse fs) [] (omega arith)

-- However much of the stream was seen, subscribing to a server asks for it from the event 0 on.
pub subscribe_restarts :
    (encode : Text → Text) (parse : Text → Option RconEvent) (c : ℕ) (cs : Text) (page : Page)
    (h : Hook) (fs : List (Text × Text))
    → (subscribe encode (some (c ∷ cs)) page (deliver_all parse fs h)).0.source
      ≡ some
          (with_token encode page
            (codes "/api/events?profileId=" ++ (encode (c ∷ cs) ++ codes "&lastEventId=0"))).0
unfolding subscribe stream_path
subscribe_restarts encode parse c cs page h fs = refl
