-- ===== src/Console.antt =====
-- web/src/components/Console.tsx: which events the console shows, and how a line is drawn.
pub mod Sources
pub mod Sorted
pub mod View
pub mod Stuck
use rcon_ui.Base.{
  ℕ, ◌+◌, Bool, true, false, not, ◌&&◌, ◌||◌, List, [], ◌∷◌, map, ltb, ◌==◌, if◌then◌else◌, filter,
}
use rcon_ui.Text.{Text, is_empty, includes}
use rcon_ui.Text.Trim.{trim}
use rcon_ui.Text.ObjectKeys.{contains}
use rcon_ui.Text.TextSet.{of_list, toggle}
use rcon_ui.Events.{RconEvent, Stream}

-- The default order of `sort`: by code units.
unfoldable pub precedes : Text → Text → Bool
precedes s [] = false
precedes [] (d ∷ t) = true
precedes (c ∷ s) (d ∷ t) = ltb c d || ((c == d) && precedes s t)

unfoldable pub place_text : Text → List Text → List Text
place_text s [] = s ∷ []
place_text s (t ∷ ts) =
    let later = t ∷ place_text s ts in if precedes s t then s ∷ t ∷ ts else later

unfoldable pub sort_texts : List Text → List Text
sort_texts [] = []
sort_texts (s ∷ ss) = place_text s (sort_texts ss)

-- `[...new Set(events.map((e) => e.source))].sort()`
unfoldable pub sources : List RconEvent → List Text
unfolding precedes place_text sort_texts of_list
sources events = sort_texts (of_list (map (λ (e : RconEvent). e.source) events))

unfoldable pub is_visible : (Text → Text) → List Text → Text → RconEvent → Bool
is_visible lower hidden filter_text e =
    let needle = lower (trim filter_text) in
    not (contains e.source hidden) && (is_empty needle || includes (lower e.line) needle)

unfoldable pub visible : (Text → Text) → List Text → Text → List RconEvent → List RconEvent
unfolding is_visible
visible lower hidden filter_text events = filter (is_visible lower hidden filter_text) events

-- `toggle` of the component, on the set of hidden sources.
unfoldable pub toggle_source : Text → List Text → List Text
unfolding toggle
toggle_source source hidden = toggle source hidden

-- How `Line` draws an event; an empty response says so.
pub data LineKind : Type 0 where
  prompt status discovery error no_output output : LineKind

unfoldable pub line_kind : RconEvent → LineKind
line_kind e = elim e.stream [
  | Stream.command ↦ prompt
  | Stream.status ↦ status
  | Stream.discovery ↦ discovery
  | Stream.error ↦ error
  | Stream.response ↦ if is_empty e.line then no_output else output
]

-- `pinnedToBottom.current = el.scrollHeight - el.scrollTop - el.clientHeight < 40`
unfoldable pub is_pinned_to_bottom : ℕ → ℕ → ℕ → Bool
is_pinned_to_bottom scroll_height scroll_top client_height =
    ltb scroll_height (scroll_top + client_height + 40)
