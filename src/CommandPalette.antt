-- ===== src/CommandPalette.antt =====
-- web/src/components/CommandPalette.tsx: the filtered list of commands and the highlighted row.
-- The source's `active` may be -1, when the arrow key is pressed over an empty list: `active` here is
-- that index plus one. `R` is what a command runs; `lower` is `toLowerCase`.
pub mod Keys
pub mod View
use rcon_ui.Base.{
  ℕ, min, max, zero, suc, ◌+◌, ◌-◌, Bool, false, ◌||◌, Option, none, some, List, [], ltb,
  if◌then◌else◌, length, get_elem?, filter,
}
use rcon_ui.Text.{Text, is_empty, includes}
use rcon_ui.Text.Trim.{trim}

pub record Command {ℓ} (R : Type ℓ) : Type ℓ where
  pub id : Text
  pub label : Text
  pub hint : Option Text
  pub run : R

-- `c.hint?.toLowerCase().includes(needle)`
abbrev pub hint_includes : (Text → Text) → Option Text → Text → Bool
hint_includes lower none needle = false
hint_includes lower (some hint) needle = includes (lower hint) needle

unfoldable pub command_matches {ℓ} : {R : Type ℓ} → (Text → Text) → Text → Command R → Bool
command_matches lower needle c =
    includes (lower c.label) needle || hint_includes lower c.hint needle

unfoldable pub palette_matches {ℓ} :
    {R : Type ℓ} → (Text → Text) → List (Command R) → Text → List (Command R)
unfolding command_matches
palette_matches lower commands query =
    let needle = lower (trim query) in
    if is_empty needle then commands else filter (command_matches lower needle) commands

pub record Palette : Type 0 where
  pub query : Text
  pub active : ℕ

pub data PaletteEvent : Type 0 where
  type : Text → PaletteEvent
  hover : ℕ → PaletteEvent
  arrow_down arrow_up : PaletteEvent

-- Typing resets the highlight, by the effect on the query, if the query is another one.
unfoldable pub react {ℓ} :
    {R : Type ℓ} → (Text → Text) → List (Command R) → PaletteEvent → Palette → Palette
unfolding palette_matches
react lower commands (type query) p = record { query = query; active = 1 }
react lower commands (hover i) p =
    if ltb i (length (palette_matches lower commands p.query))
    then record p { active = i + 1 }
    else p
react lower commands arrow_down p = record p {
  active = min (p.active + 1) (length (palette_matches lower commands p.query));
}
react lower commands arrow_up p = record p { active = max (p.active - 1) 1 }

-- `matches[active]`, undefined at -1 and past the end.
abbrev pub at_active {ℓ} : {A : Type ℓ} → List A → ℕ → Option A
at_active xs zero = none
at_active xs (suc i) = get_elem? xs i

-- What Enter runs, if anything; the palette closes exactly when something runs.
unfoldable pub enter {ℓ} : {R : Type ℓ} → (Text → Text) → List (Command R) → Palette → Option R
enter lower commands p = elim (at_active (palette_matches lower commands p.query) p.active) [
  | none ↦ none
  | some chosen ↦ some chosen.run
]

abbrev pub opened : Palette
opened = record { query = []; active = 1 }
