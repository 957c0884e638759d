-- ===== src/Console/Stuck.antt =====
-- A source that is hidden when the bar goes away.
use rcon_ui.Base.{◌≡◌, refl, true, false, none, List, [], ◌∷◌, map, ltb, length, All}
use rcon_ui.Text.{Text, ===_refl}
use rcon_ui.Text.ObjectKeys.{contains}
use rcon_ui.Text.TextSet.{of_list, add_all}
use rcon_ui.Events.{RconEvent}
use rcon_ui.Console.{sources, visible, is_visible, sort_texts, place_text}
use rcon_ui.Console.View.{Viewer, bar, hint, body_of, console_view}

abbrev pub IsFrom : Text → RconEvent → Type 0
IsFrom s e = e.source ≡ s

add_all_same :
    (s : Text) (events : List RconEvent)
    → All (IsFrom s) events
    → add_all (s ∷ []) (map (λ (e : RconEvent). e.source) events) ≡ s ∷ []
unfolding add_all
add_all_same s [] h = refl
add_all_same s (e ∷ es) (p, h) = rw (p, ===_refl s) (add_all_same s es h)

length-sources :
    (s : Text) (events : List RconEvent)
    → All (IsFrom s) events
    → ltb 1 (length (sources events)) ≡ false
unfolding sources of_list add_all sort_texts place_text
length-sources s [] h = refl
length-sources s (e ∷ es) (p, h) = rw (p, add_all_same s es h) refl

hidden-visible :
    (lower : Text → Text) (hidden : List Text) (filter_text s : Text) (events : List RconEvent)
    → contains s hidden ≡ true
    → All (IsFrom s) events
    → visible lower hidden filter_text events ≡ []
unfolding visible is_visible
hidden-visible lower hidden filter_text s [] h p = refl
hidden-visible lower hidden filter_text s (e ∷ es) h (p, ps) =
    rw (p, h) (hidden-visible lower hidden filter_text s es h ps)

-- When all events are of one source, that source is hidden and the filter is empty, the console shows
-- the hint of an empty one, whatever the events are, and no bar on which to show the source again.
pub hidden_stuck :
    (lower time_of : Text → Text) (empty_hint s : Text) (events : List RconEvent) (v : Viewer)
    → All (IsFrom s) events
    → contains s v.hidden ≡ true
    → v.filter_text ≡ []
    → console_view lower time_of empty_hint events v ≡ (none, hint empty_hint)
unfolding console_view bar body_of
hidden_stuck lower time_of empty_hint s events v from gone plain =
    rw (length-sources s events from, plain, hidden-visible lower v.hidden [] s events gone from)
      refl
