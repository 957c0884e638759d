-- ===== src/Text/ObjectKeys.antt =====
-- `Object.keys` of a plain object: the array indices in ascending order, then the other keys in
-- insertion order. Objects here hold no key of `Object.prototype`.
use rcon_ui.Base.{
  ℕ, ◌+◌, ◌-◌, ◌*◌, ◌≡◌, refl, ◌∙◌, inl, inr, Bool, not, ◌&&◌, ◌||◌, Option, none, some, List, [],
  ◌∷◌, ◌++◌, map, arith, ltb, leb, ◌==◌, if◌then◌else◌, Bool-cases, Option-cases, is_some, filter,
  any,
}
use rcon_ui.Text.{Text, ◌===◌, is_empty, ===_iff}
use rcon_ui.Text.Dict.{keys}
use rcon_ui.Text.DictKeys.{entry_key}
use rcon_ui.Text.Keyed.{has_key}

abbrev is_digit : ℕ → Bool
is_digit c = leb b'0' c && leb c b'9'

-- The value of a run of digits, none at any other code unit.
abbrev digits_value : ℕ → Text → Option ℕ
digits_value acc [] = some acc
digits_value acc (c ∷ s) =
    let rest = digits_value (acc * 10 + (c - b'0')) s in if is_digit c then rest else none

-- A canonical numeral below 2 ^ 32 - 1, with its value.
abbrev as_index : Text → Option ℕ
as_index [] = none
as_index (c ∷ s) = if c == b'0' && not (is_empty s) then none else elim (digits_value 0 (c ∷ s)) [
  | none ↦ none
  | some n ↦ if ltb n 4294967295 then some n else none
]

unfoldable pub index_of : Text → Option ℕ
index_of s = as_index s

-- By value, after those of the same value.
unfoldable pub place_index : ℕ → Text → List (ℕ × Text) → List (ℕ × Text)
place_index n k [] = (n, k) ∷ []
place_index n k ((m, j) ∷ rest) =
    let later = (m, j) ∷ place_index n k rest in if ltb n m then (n, k) ∷ (m, j) ∷ rest else later

unfoldable pub indices : List Text → List (ℕ × Text)
indices [] = []
indices (k ∷ ks) = elim (index_of k) [ none ↦ indices ks | some n ↦ place_index n k (indices ks) ]

unfoldable pub object_keys {ℓ} : {V : Type ℓ} → List (Text × V) → List Text
unfolding index_of place_index indices
object_keys m =
    map (λ e. e.1) (indices (keys m)) ++ filter (λ k. not (is_some (index_of k))) (keys m)

-- `ks.includes(k)`
abbrev pub contains : Text → List Text → Bool
contains k ks = any (λ j. j === k) ks

pub contains-append :
    (k : Text) (xs ys : List Text) → contains k (xs ++ ys) ≡ (contains k xs || contains k ys)
contains-append k [] ys = refl
contains-append k (x ∷ xs) ys = ground (arith, contains-append k xs ys)

contains-place_index :
    (k : Text) (n : ℕ) (j : Text) (es : List (ℕ × Text))
    → contains k (map (λ e. e.1) (place_index n j es))
      ≡ ((j === k) || contains k (map (λ e. e.1) es))
unfolding place_index
contains-place_index k n j [] = refl
contains-place_index k n j (e ∷ es) = ground (arith, contains-place_index k n j es)

contains-indices :
    (k : Text) (ks : List Text)
    → (contains k (map (λ e. e.1) (indices ks))
        || contains k (filter (λ j. not (is_some (index_of j))) ks))
      ≡ contains k ks
unfolding indices
contains-indices k [] = refl
contains-indices k (j ∷ ks) = elim (Option-cases (index_of j)) [
  | inl e ↦ ground (arith, contains-indices k ks)
  | inr (n, e) ↦ ground (arith, contains-indices k ks, contains-place_index k n j (indices ks))
]

contains-keys {ℓ} :
    {V : Type ℓ} (k : Text) (m : List (Text × V)) → contains k (keys m) ≡ has_key entry_key k m
contains-keys k [] = refl
contains-keys k (e ∷ m) = ground (arith, contains-keys k m)

-- The keys that `Object.keys` lists are those of the object.
pub contains-object_keys {ℓ} :
    {V : Type ℓ} (k : Text) (m : List (Text × V))
    → contains k (object_keys m) ≡ has_key entry_key k m
unfolding object_keys
contains-object_keys k m =
    contains-append k (map (λ e. e.1) (indices (keys m)))
      (filter (λ j. not (is_some (index_of j))) (keys m))
    ∙ contains-indices k (keys m)
    ∙ contains-keys k m

pub contains-filter :
    (p : Text → Bool) (k : Text) (ks : List Text)
    → contains k (filter p ks) ≡ (contains k ks && p k)
contains-filter p k [] = refl
contains-filter p k (j ∷ ks) = elim (Bool-cases (j === k)) [
  | inl e ↦ rw ((===_iff j k).0 e) (ground (arith, contains-filter p k ks))
  | inr e ↦ ground (arith, contains-filter p k ks)
]
