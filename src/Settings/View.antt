-- ===== src/Settings/View.antt =====
-- web/src/components/SettingsPanel.tsx: what the panel shows (`Control`, `OptionRow`, and the markup of
-- SettingsPanel by what stands in it), and what its controls send. `fractional` is what a press of a
-- button makes of an option with the step 0.1, by the floating point numbers of the engine: the value
-- shown, the bounds and whether it is the upper button.
use rcon_ui.Base.{
  ℕ, Bool, true, false, not, Option, none, some, List, [], ◌∷◌, map, if◌then◌else◌, coalesce,
  filter,
}
use rcon_ui.Base.Int.{ℤ, pos, negsuc, ◌+ℤ◌, ltb_ℤ}
use rcon_ui.Text.{Text, ◌===◌, codes, is_empty}
use rcon_ui.Text.Dict.{lookup}
use rcon_ui.Text.Decimal.{parse_int, show_int}
use rcon_ui.Discovery.{DiscoveryReport, boolean, integer, number, string}
use rcon_ui.Settings.{Row, rows, sections, matches, Edits, Panel, dirty_keys, set_value, preview}
use rcon_ui.Settings.Staging.{is_dirty}

-- What stands in a row for its value.
pub data Control : Type 0 where
  plain field stepper : Text → Control
  switch : Text → Bool → Control
  select : List Text → Text → Control

abbrev pub row_label : Row → Text
row_label row = coalesce (elim row.meta [ none ↦ none | some m ↦ m.label ]) row.key

abbrev pub choices : Row → Option (List Text)
choices row = elim row.meta [ none ↦ none | some m ↦ m.options ]

abbrev pub control_of : Row → Text → Control
control_of row value = elim row.type [
  | boolean ↦ switch (row_label row) (value === codes "true")
  | integer ↦ stepper value
  | number ↦ stepper value
  | string ↦ elim (choices row) [ none ↦ field value | some options ↦ select options value ]
]

abbrev pub control : Bool → Row → Text → Control
control read_only row value = if read_only then plain value else control_of row value

-- `Math.max(min, next)` and `Math.min(max, next)`, where the bound is given.
abbrev pub at_least : Option ℕ → ℤ → ℤ
at_least none next = next
at_least (some low) next = if ltb_ℤ next (pos low) then pos low else next

abbrev pub at_most : Option ℕ → ℤ → ℤ
at_most none next = next
at_most (some high) next = if ltb_ℤ (pos high) next then pos high else next

abbrev pub min_of : Row → Option ℕ
min_of row = elim row.meta [ none ↦ none | some m ↦ m.min ]

abbrev pub max_of : Row → Option ℕ
max_of row = elim row.meta [ none ↦ none | some m ↦ m.max ]

-- `bump` of an integer; NaN counts as 0.
unfoldable pub bump : ℤ → Row → Text → Text
unfolding parse_int show_int ◌+ℤ◌
bump delta row value =
    show_int
      (at_most (max_of row) (at_least (min_of row) (coalesce (parse_int value) (pos 0) +ℤ delta)))

pub data ControlEvent : Type 0 where
  clicked decreased increased : ControlEvent
  entered : Text → ControlEvent

abbrev pub Fractional : Type 0
Fractional = Bool → Option ℕ → Option ℕ → Text → Text

abbrev pub stepped : Fractional → Bool → Row → Text → Text
stepped fractional up row value = elim row.type [
  | integer ↦ bump (if up then pos 1 else negsuc 0) row value
  | boolean ↦ fractional up (min_of row) (max_of row) value
  | number ↦ fractional up (min_of row) (max_of row) value
  | string ↦ fractional up (min_of row) (max_of row) value
]

-- What `onChange` is called with, if an event of a control calls it.
unfoldable pub on_change : Fractional → Row → Control → ControlEvent → Option Text
unfolding bump
on_change fractional row (switch label checked) clicked =
    some (if checked then codes "false" else codes "true")
on_change fractional row (stepper value) decreased = some (stepped fractional false row value)
on_change fractional row (stepper value) increased = some (stepped fractional true row value)
on_change fractional row (stepper value) (entered text) = some text
on_change fractional row (select options value) (entered text) = some text
on_change fractional row (field value) (entered text) = some text
on_change fractional row _ _ = none

-- `staged ?? row.value`
abbrev pub current : Edits → Row → Text
current edits row = coalesce (lookup row.key edits) row.value

abbrev pub staged_change : Row → Option Text → Panel → Panel
staged_change row none p = p
staged_change row (some value) p = set_value row.key value p

-- An event of a row's control, on the panel.
unfoldable pub use_control : Fractional → Bool → Row → ControlEvent → Panel → Panel
unfolding set_value on_change
use_control fractional read_only row event p =
    staged_change row (on_change fractional row (control read_only row (current p.edits row)) event)
      p

pub record RowView : Type 0 where
  pub key : Text
  pub label : Text
  pub dirty : Bool
  pub badge : Bool
  pub old_value : Option Text
  pub edit : Control
  pub description : Text
  pub error : Option Text

-- An empty error is not shown.
abbrev pub shown_error : Option Text → Option Text
shown_error none = none
shown_error (some message) = if is_empty message then none else some message

unfoldable pub option_row : Bool → Panel → Row → RowView
unfolding is_dirty
option_row read_only p row = record {
  key = row.key;
  label = row_label row;
  dirty = is_dirty p.edits row;
  badge = coalesce (elim row.meta [ none ↦ none | some m ↦ m.requires_restart ]) false;
  old_value = if is_dirty p.edits row then some row.value else none;
  edit = control read_only row (current p.edits row);
  description =
      coalesce (elim row.meta [ none ↦ none | some m ↦ m.description ])
        (codes "Uncurated option — no metadata yet, edited as raw text.");
  error = shown_error (lookup row.key p.errors);
}

-- The sections with a row that the filter keeps.
abbrev pub is_nil {ℓ} : {A : Type ℓ} → List A → Bool
is_nil [] = true
is_nil (x ∷ xs) = false

unfoldable pub shown_sections : (Text → Text) → Text → List Row → List (Text × List Row)
unfolding matches sections
shown_sections lower filter_text rs =
    filter (λ (g : Text × List Row). not (is_nil g.1))
      (map (λ (g : Text × List Row). (g.0, filter (matches lower filter_text) g.1)) (sections rs))

-- A text in place of the panel; or the sections of rows and the lines of the staging bar.
pub data PanelView : Type 0 where
  notice : Text → PanelView
  page : List (Text × List RowView) → List Text → PanelView

unfoldable pub options_page : (Text → Text) → Text → DiscoveryReport → Panel → PanelView
unfolding shown_sections option_row preview dirty_keys rows
options_page lower filter_text report p =
    let read_only = not report.capabilities.option_write in
    let all_rows = rows (some report) in
    page
      (map (λ (g : Text × List Row). (g.0, map (option_row read_only p) g.1))
        (shown_sections lower filter_text all_rows))
      (if read_only then [] else preview report p.edits (dirty_keys p.edits all_rows))

unfoldable pub panel_view : (Text → Text) → Bool → Option DiscoveryReport → Text → Panel → PanelView
unfolding options_page
panel_view lower connected report filter_text p =
    if not connected then notice (codes "Connect to load settings.") else elim report [
      | none ↦ notice (codes "No discovery yet — use ↻ re-scan above.")
      | some r ↦
          if not r.capabilities.options
          then notice (codes "This server did not report an options dump.")
          else options_page lower filter_text r p
    ]
