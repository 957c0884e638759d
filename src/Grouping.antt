-- ===== src/Grouping.antt =====
-- The grouping that three components share: web/src/components/SettingsPanel.tsx (`sections`),
-- TemplatesPanel.tsx (`groupBySection`) and Sidebar.tsx (`groups`) collect rows into a `Map` by a
-- name, and sort its entries by a comparator on the names.
pub mod Order
pub mod Sorted
pub mod Laws
use rcon_ui.Base.{Bool, true, false, List, [], ◌∷◌, ◌++◌, is_some, coalesce, if◌then◌else◌}
use rcon_ui.Text.{Text}
use rcon_ui.Text.Dict.{lookup, insert}

-- What a comparator returns, by its sign.
pub data Sign : Type 0 where
  negative zero positive : Sign

abbrev pub is_negative : Sign → Bool
is_negative negative = true
is_negative _ = false

module _ {ℓ} {A : Type ℓ} where
  -- `if (!m.has(name)) m.set(name, []); m.get(name)!.push(row);`
  unfoldable pub collect : Text → A → List (Text × List A) → List (Text × List A)
  unfolding lookup insert
  collect name row m =
      let m' = if is_some (lookup name m) then m else insert name [] m in
      insert name (coalesce (lookup name m') [] ++ row ∷ []) m'

  unfoldable pub group_from : (A → Text) → List (Text × List A) → List A → List (Text × List A)
  group_from name m [] = m
  group_from name m (row ∷ rows) = group_from name (collect (name row) row m) rows

  unfoldable pub group_by : (A → Text) → List A → List (Text × List A)
  unfolding collect group_from
  group_by name rows = group_from name [] rows

module _ {ℓ} {V : Type ℓ} where
  -- `sort` as a stable insertion sort: an entry goes before the first one that it precedes.
  unfoldable pub place : (Text → Text → Sign) → Text × V → List (Text × V) → List (Text × V)
  place compare e [] = e ∷ []
  place compare e (f ∷ es) =
      let later = f ∷ place compare e es in
      if is_negative (compare e.0 f.0) then e ∷ f ∷ es else later

  unfoldable pub sort_from :
      (Text → Text → Sign) → List (Text × V) → List (Text × V) → List (Text × V)
  sort_from compare sorted [] = sorted
  sort_from compare sorted (e ∷ es) = sort_from compare (place compare e sorted) es

  unfoldable pub sort : (Text → Text → Sign) → List (Text × V) → List (Text × V)
  unfolding place sort_from
  sort compare es = sort_from compare [] es

-- The comparator of the two section lists: what `is_other` accepts goes last.
unfoldable pub other_last : (Text → Bool) → Text → Text → Sign
other_last is_other a b = if is_other a then positive else if is_other b then negative else zero
