-- ===== src/App/Refetch.antt =====
-- web/src/App.tsx: what the newest event of the console makes the application fetch again.
use rcon_ui.Base.{◌≡◌, ap, false, Option, none, some, List, [], ◌∷◌, get_last?, get_last?-append}
use rcon_ui.Text.{Text}
use rcon_ui.Events.{
  RconEvent, command, response, status, error, discovery, append, is_replay, make_room, reducer,
}

pub data Refetch : Type 0 where
  refresh_servers : Refetch
  refresh_discovery : Text → Refetch

-- `last?.stream === "status"`, and `last?.stream === "discovery" && selectedId`.
abbrev pub of_selected : Option Text → List Refetch
of_selected none = []
of_selected (some []) = []
of_selected (some (c ∷ cs)) = refresh_discovery (c ∷ cs) ∷ []

abbrev pub of_last : Option Text → Option RconEvent → List Refetch
of_last selected none = []
of_last selected (some last) = elim last.stream [
  | status ↦ refresh_servers ∷ []
  | discovery ↦ of_selected selected
  | command ↦ []
  | response ↦ []
  | error ↦ []
]

-- The effect on `[events, selectedId]`.
unfoldable pub on_events : List RconEvent → Option Text → List Refetch
on_events events selected = of_last selected (get_last? events)

reducer_last :
    (events : List RconEvent) (e : RconEvent)
    → is_replay events e ≡ false
    → get_last? (reducer events (append e)) ≡ some e
unfolding reducer
reducer_last events e h = rw h (get_last?-append (make_room events) e)

-- An event that the console takes up has the list of servers fetched again if it is a status, the
-- report of the selected server if it is a discovery, and nothing otherwise, whatever was held, also
-- where an old event makes room for it.
pub on_events-reducer :
    (events : List RconEvent) (e : RconEvent) (selected : Option Text)
    → is_replay events e ≡ false
    → on_events (reducer events (append e)) selected ≡ of_last selected (some e)
unfolding on_events
on_events-reducer events e selected h = ap (of_last selected) (reducer_last events e h)
