-- ===== src/CommandInput.antt =====
-- web/src/components/CommandInput.tsx: the console prompt and its history.
-- The source's `index` is -1 for a fresh line: `cursor` is that index plus one, so 0 is the fresh
-- line and n + 1 stands at the entry n of the history, newest first.
pub mod Browse
pub mod Submit
pub mod View
use mathlib.Core.Option
use rcon_ui.Base.{
  ℕ, min, zero, suc, ◌+◌, Bool, not, ◌&&◌, ◌||◌, Option, none, some, List, [], ◌∷◌, map, ◌==◌,
  if◌then◌else◌, coalesce, length, get_elem?, find?,
}
use rcon_ui.Text.{Text, ◌===◌, is_empty, starts_with}
use rcon_ui.Text.Trim.{trim}
use rcon_ui.Text.Split.{split, join}

pub record Input : Type 0 where
  pub value : Text
  pub cursor : ℕ
  pub draft : Text

pub record Prefill : Type 0 where
  pub text : Text
  pub nonce : ℕ

-- The effect on a new prefill request.
unfoldable pub on_prefill : Option Prefill → Input → Input
on_prefill none s = s
on_prefill (some p) s = record s { value = p.text; cursor = 0 }

-- What is submitted, if anything, and the state after it.
unfoldable pub submit : Bool → Input → Option Text × Input
unfolding trim
submit disabled s =
    let cmd = trim s.value in
    if is_empty cmd || disabled
    then (none, s)
    else (some cmd, record { value = []; cursor = 0; draft = [] })

-- The entry that the source reads is always there: its index is at most the last one.
unfoldable pub arrow_up : List Text → Input → Input
arrow_up [] s = s
arrow_up (h ∷ hs) s =
    let next = min s.cursor (length hs) in
    record {
      value = coalesce (get_elem? (h ∷ hs) next) [];
      cursor = next + 1;
      draft = if s.cursor == 0 then s.value else s.draft;
    }

-- The entry before n is n - 1, and before the newest one is the draft. The history may
-- have been replaced by a shorter one since the cursor was set: where the entry is missing the field
-- is set to undefined, and the next render throws at `value.trim()`, which is none here.
abbrev pub down_from : List Text → ℕ → Input → Option Input
down_from history zero s = some s
down_from history (suc zero) s = some (record s { value = s.draft; cursor = 0 })
down_from history (suc (suc n)) s = elim (get_elem? history n) [
  | none ↦ none
  | some line ↦ some (record s { value = line; cursor = suc n })
]

unfoldable pub arrow_down : List Text → Input → Option Input
arrow_down history s = down_from history s.cursor s

-- The first name that continues the first word.
abbrev pub completes : Text → Text → Bool
completes head name = starts_with name head && not (name === head)

unfoldable pub tab : List Text → Input → Input
unfolding split join
tab names s =
    let (head, rest) = split b' ' s.value in
    if is_empty head then s else elim (find? (completes head) names) [
      | none ↦ s
      | some name ↦ record s { value = join b' ' name rest }
    ]

-- Typing makes a fresh line of whatever is shown.
unfoldable pub on_change : Text → Input → Input
on_change text s = record s { value = text; cursor = 0 }

pub data Key : Type 0 where
  enter up down tabulator other : Key

-- What is submitted and the state after the key; none where the component throws.
unfoldable pub on_key_down :
    Bool → List Text → List Text → Key → Input → Option (Option Text × Input)
unfolding submit arrow_up arrow_down tab
on_key_down disabled history names enter s = some (submit disabled s)
on_key_down disabled history names up s = some (none, arrow_up history s)
on_key_down disabled history names down s = Option.map (λ s'. (none, s')) (arrow_down history s)
on_key_down disabled history names tabulator s = some (none, tab names s)
on_key_down disabled history names other s = some (none, s)
