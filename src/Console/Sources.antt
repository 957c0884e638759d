-- ===== src/Console/Sources.antt =====
-- The source filter of the console.
use rcon_ui.Base.{
  ◌≡◌, refl, ◌∙◌, Bool, true, false, not, ◌||◌, List, [], ◌∷◌, map, arith, if◌then◌else◌, filter,
  any,
}
use rcon_ui.Text.{Text, ◌===◌, ===_iff}
use rcon_ui.Text.DictKeys.{===_comm}
use rcon_ui.Text.ObjectKeys.{contains}
use rcon_ui.Text.TextSet.{of_list, contains-toggle, contains-of_list, unique, unique-of_list}
use rcon_ui.Events.{RconEvent}
use rcon_ui.Console.Sorted.{IsInOrder, IsInOrder-sort_texts}
use rcon_ui.Console.{sources, is_visible, visible, toggle_source, place_text, sort_texts}

contains-place_text :
    (k s : Text) (ts : List Text) → contains k (place_text s ts) ≡ ((s === k) || contains k ts)
unfolding place_text
contains-place_text k s [] = refl
contains-place_text k s (t ∷ ts) = ground (arith, contains-place_text k s ts)

contains-sort_texts : (k : Text) (ts : List Text) → contains k (sort_texts ts) ≡ contains k ts
unfolding sort_texts
contains-sort_texts k [] = refl
contains-sort_texts k (t ∷ ts) =
    ground (arith, contains-place_text k t (sort_texts ts), contains-sort_texts k ts)

unique-place_text :
    (s : Text) (ts : List Text)
    → unique ts ≡ true
    → contains s ts ≡ false
    → unique (place_text s ts) ≡ true
unfolding place_text
unique-place_text s [] u h = refl
unique-place_text s (t ∷ ts) u h =
    ground (arith, unique-place_text s ts, contains-place_text t s ts, ===_comm s t)

unique-sort_texts : (ts : List Text) → unique ts ≡ true → unique (sort_texts ts) ≡ true
unfolding sort_texts
unique-sort_texts [] u = refl
unique-sort_texts (t ∷ ts) u =
    ground
      (arith, unique-place_text t (sort_texts ts), contains-sort_texts t ts, unique-sort_texts ts)

contains-map_source :
    (k : Text) (events : List RconEvent)
    → contains k (map (λ (e : RconEvent). e.source) events) ≡ any (λ e. e.source === k) events
contains-map_source k [] = refl
contains-map_source k (e ∷ events) = ground (arith, contains-map_source k events)

-- The filter bar has a button for a source exactly when an event comes from it, and one only, and
-- the buttons are in the order of their code units.
pub sources_lem :
    (k : Text) (events : List RconEvent)
    → (contains k (sources events) ≡ any (λ (e : RconEvent). e.source === k) events)
      × (unique (sources events) ≡ true)
      × IsInOrder (sources events)
unfolding sources
sources_lem k events = (
  contains-sort_texts k (of_list (map (λ (e : RconEvent). e.source) events))
      ∙ contains-of_list k (map (λ (e : RconEvent). e.source) events)
      ∙ contains-map_source k events,
  unique-sort_texts (of_list (map (λ (e : RconEvent). e.source) events))
      (unique-of_list (map (λ (e : RconEvent). e.source) events)),
  IsInOrder-sort_texts (of_list (map (λ (e : RconEvent). e.source) events)),
)

-- Every event but those of a source.
abbrev pub not_from : Text → RconEvent → Bool
not_from source e = not (e.source === source)

-- Hiding or showing a source changes nothing of what is shown of the others, and of the source
-- itself shows nothing, or all that the text filter lets through.
pub visible-toggle_source :
    (lower : Text → Text) (source : Text) (hidden : List Text) (filter_text : Text)
    (events : List RconEvent)
    → (filter (not_from source) (visible lower (toggle_source source hidden) filter_text events)
        ≡ filter (not_from source) (visible lower hidden filter_text events))
      × (filter
            (λ e. e.source === source)
            (visible lower (toggle_source source hidden) filter_text events)
          ≡ (if contains source hidden
              then filter (λ e. e.source === source) (visible lower [] filter_text events)
              else []))
unfolding visible is_visible toggle_source
visible-toggle_source lower source hidden filter_text [] = ground arith
visible-toggle_source lower source hidden filter_text (e ∷ events) = ground (
  arith,
  contains-toggle source e.source hidden,
  ===_comm source e.source,
  ===_iff e.source source,
  visible-toggle_source lower source hidden filter_text events,
)
