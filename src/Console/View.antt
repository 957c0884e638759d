-- ===== src/Console/View.antt =====
-- web/src/components/Console.tsx: what the console shows, and its events. `time_of` writes the time of
-- an event in the reader's locale.
use rcon_ui.Base.{
  ℕ, Bool, true, not, ◌||◌, Option, none, some, List, [], ◌∷◌, map, ltb, if◌then◌else◌, length,
}
use rcon_ui.Text.{Text, is_empty}
use rcon_ui.Text.ObjectKeys.{contains}
use rcon_ui.Events.{RconEvent}
use rcon_ui.Console.{sources, visible, toggle_source, LineKind, line_kind, is_pinned_to_bottom}

-- The sources hidden, the filter, and whether the view follows the output.
pub record Viewer : Type 0 where
  pub hidden : List Text
  pub filter_text : Text
  pub pinned : Bool
  pub scroll_top : ℕ

abbrev pub new_viewer : Viewer
new_viewer = record { hidden = []; filter_text = []; pinned = true; scroll_top = 0 }

-- A click on a source, an edit of the filter, a scroll to a place, and the effect after the number of
-- lines has changed, with the heights at that time.
pub data ViewerEvent : Type 0 where
  toggles : Text → ViewerEvent
  filters : Text → ViewerEvent
  scrolls : ℕ → ℕ → ℕ → ViewerEvent
  grows : ℕ → ViewerEvent

unfoldable pub on_viewer : ViewerEvent → Viewer → Viewer
unfolding toggle_source is_pinned_to_bottom
on_viewer (toggles source) v = record v { hidden = toggle_source source v.hidden }
on_viewer (filters text) v = record v { filter_text = text }
on_viewer (scrolls height top client) v = record v {
  scroll_top = top;
  pinned = is_pinned_to_bottom height top client;
}
on_viewer (grows height) v = if v.pinned then record v { scroll_top = height } else v

pub record LineView : Type 0 where
  pub time : Text
  pub kind : LineKind
  pub text : Text

unfoldable pub line_view : (Text → Text) → RconEvent → LineView
unfolding line_kind
line_view time_of e = record { time = time_of e.at; kind = line_kind e; text = e.line }

-- The buttons of the sources, with those that are hidden, and the field of the filter.
pub record Bar : Type 0 where
  pub buttons : List (Text × Bool)
  pub filter_text : Text

unfoldable pub bar : List Text → Viewer → Option Bar
bar ss v =
    if ltb 1 (length ss) || not (is_empty v.filter_text)
    then some
        record { buttons = map (λ s. (s, contains s v.hidden)) ss; filter_text = v.filter_text }
    else none

-- The lines, or the hint where there are none.
pub data Body : Type 0 where
  hint : Text → Body
  output_lines : List LineView → Body

unfoldable pub body_of : (Text → Text) → Text → List RconEvent → Body
unfolding line_view
body_of time_of empty_hint [] = hint empty_hint
body_of time_of empty_hint (e ∷ es) = output_lines (map (line_view time_of) (e ∷ es))

unfoldable pub console_view :
    (Text → Text) → (Text → Text) → Text → List RconEvent → Viewer → Option Bar × Body
unfolding sources bar visible body_of
console_view lower time_of empty_hint events v = (
  bar (sources events) v,
  body_of time_of empty_hint (visible lower v.hidden v.filter_text events),
)
