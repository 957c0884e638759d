-- ===== src/Subscription.antt =====
-- web/src/useEvents.ts: the hook that subscribes to the daemon's stream for one server. `encode` is
-- `encodeURIComponent`, and `parse` reads a frame, none where `JSON.parse` throws.
pub mod Frames
use rcon_ui.Base.{
  ℕ, max, ◌&&◌, Option, none, some, List, [], ◌∷◌, ◌++◌, if◌then◌else◌, coalesce, is_some,
}
use rcon_ui.Text.{Text, codes}
use rcon_ui.Text.ObjectKeys.{contains}
use rcon_ui.Events.{RconEvent, append, reset, reducer}
use rcon_ui.Api.{Page, with_token}

-- `source` is the URL of the open stream, if there is one.
pub record Hook : Type 0 where
  pub events : List RconEvent
  pub last_seq : ℕ
  pub source : Option Text

abbrev decimal_zero : Text
decimal_zero = codes "0"

-- The URL is built right after `lastSeq.current = 0`.
unfoldable pub stream_path : (Text → Text) → Text → Text
stream_path encode profile =
    codes "/api/events?profileId=" ++ (encode profile ++ (codes "&lastEventId=" ++ decimal_zero))

-- The effect on a new `profileId`, its cleanup included: null and "" open no stream.
unfoldable pub subscribe : (Text → Text) → Option Text → Page → Hook → Hook × Page
unfolding reducer with_token stream_path
subscribe encode profile page h =
    let cleared : Hook = record { events = reducer h.events reset; last_seq = 0; source = none } in
    elim (coalesce profile []) [
      | [] ↦ (cleared, page)
      | c ∷ cs ↦
          let (url, page') = with_token encode page (stream_path encode (c ∷ cs)) in
          (record cleared { source = some url }, page')
    ]

unfoldable pub on_message : (Text → Option RconEvent) → Text → Hook → Hook
unfolding reducer
on_message parse raw h = elim (parse raw) [
  | none ↦ h
  | some e ↦ record h { last_seq = max h.last_seq e.seq; events = reducer h.events (append e) }
]

-- The names that the hook registers for; the default "message" is not among them.
abbrev pub listened : List Text
listened =
    codes "command" ∷ codes "response" ∷ codes "status" ∷ codes "error" ∷ codes "discovery" ∷ []

-- A frame of the stream: its `event:` name and its data. With no stream open there is none.
unfoldable pub deliver : (Text → Option RconEvent) → Text × Text → Hook → Hook
unfolding on_message
deliver parse (name, raw) h =
    if is_some h.source && contains name listened then on_message parse raw h else h
