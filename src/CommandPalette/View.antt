-- ===== src/CommandPalette/View.antt =====
-- web/src/components/CommandPalette.tsx: what the palette shows, and how it closes.
use rcon_ui.Base.{
  ℕ, suc, ◌+◌, ◌<◌, ◌≡◌, refl, sym, ap, ◌∙◌, Bool, Option, none, some, List, [], ◌∷◌, arith, ◌==◌,
  if◌then◌else◌, lt→ltb, length, get_elem?, get_elem?_of_lt,
}
use rcon_ui.Text.{Text, is_empty}
use rcon_ui.CommandPalette.{
  at_active, Command, Palette, PaletteEvent, hover, react, palette_matches, enter,
}

pub record EntryView : Type 0 where
  pub id : Text
  pub label : Text
  pub hint : Option Text
  pub highlighted : Bool

-- An empty hint is not shown.
abbrev pub shown_hint : Option Text → Option Text
shown_hint none = none
shown_hint (some hint) = if is_empty hint then none else some hint

module _ {ℓ} {R : Type ℓ} where
  -- The rows from one on; `active` counts from 1.
  unfoldable pub entry_views : ℕ → ℕ → List (Command R) → List EntryView
  entry_views active i [] = []
  entry_views active i (c ∷ cs) =
      record { id = c.id; label = c.label; hint = shown_hint c.hint; highlighted = i + 1 == active }
      ∷ entry_views active (i + 1) cs

  -- No row: "No matching commands".
  unfoldable pub palette_view : (Text → Text) → List (Command R) → Palette → List EntryView
  unfolding entry_views palette_matches
  palette_view lower commands p = entry_views p.active 0 (palette_matches lower commands p.query)

-- What the user does: an event of the list, Enter, Escape, a click on a row, a click beside it.
pub data Gesture : Type 0 where
  moves : PaletteEvent → Gesture
  enters escapes : Gesture
  clicks : ℕ → Gesture
  clicks_beside : Gesture

-- The palette stays, or closes, after it ran a command or not.
pub data Outcome {ℓ} (R : Type ℓ) : Type ℓ where
  stays : Palette → Outcome R
  closes : Option R → Outcome R

abbrev pub run_entry {ℓ} : {R : Type ℓ} → Palette → Option R → Outcome R
run_entry p none = stays p
run_entry p (some r) = closes (some r)

abbrev pub run_of {ℓ} : {R : Type ℓ} → Option (Command R) → Option R
run_of none = none
run_of (some c) = some c.run

unfoldable pub gesture {ℓ} :
    {R : Type ℓ} → (Text → Text) → List (Command R) → Gesture → Palette → Outcome R
unfolding react enter palette_matches
gesture lower commands (moves e) p = stays (react lower commands e p)
gesture lower commands enters p = run_entry p (enter lower commands p)
gesture lower commands escapes p = closes none
gesture lower commands (clicks i) p =
    run_entry p (run_of (get_elem? (palette_matches lower commands p.query) i))
gesture lower commands clicks_beside p = closes none

enter_lem {ℓ} :
    {R : Type ℓ} (lower : Text → Text) (commands : List (Command R)) (p : Palette) (c : Command R)
    → at_active (palette_matches lower commands p.query) p.active ≡ some c
    → enter lower commands p ≡ some c.run
unfolding enter
enter_lem lower commands p c h = rw (h, enter) refl

-- A click on a row runs the command that Enter would run with the pointer on the row.
pub gesture-clicks {ℓ} :
    {R : Type ℓ} (lower : Text → Text) (commands : List (Command R)) (i : ℕ) (p : Palette)
    → i < length (palette_matches lower commands p.query)
    → gesture lower commands (clicks i) p
      ≡ gesture lower commands enters (react lower commands (hover i) p)
unfolding gesture react
gesture-clicks lower commands i p h =
    let ms = palette_matches lower commands p.query in
    let (c, e) = get_elem?_of_lt ms i h in
    let one : i + 1 ≡ suc i = omega arith in
    let q : at_active ms (i + 1) ≡ some c = ap (at_active ms) one ∙ e in
    let over : Palette = record { query = p.query; active = i + 1 } in
    rw e
      (rw (lt→ltb i (length ms) h) (sym (ap (run_entry over) (enter_lem lower commands over c q))))
