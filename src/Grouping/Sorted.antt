-- ===== src/Grouping/Sorted.antt =====
-- Sorting by a comparator that is an order gives a sorted list.
use rcon_ui.Base.{◌≡◌, inl, inr, true, false, List, [], ◌∷◌, Bool-cases, All}
use rcon_ui.Text.{Text}
use rcon_ui.Grouping.{Sign, is_negative, place, sort_from, sort}

-- What the callers need of `localeCompare`: of two names at most one comes before the other, and the
-- order is transitive.
pub record IsOrder (compare : Text → Text → Sign) : Type 0 where
  pub asym : (a b : Text) → is_negative (compare a b) ≡ true → is_negative (compare b a) ≡ false
  pub trans :
      (a b c : Text)
      → is_negative (compare b a) ≡ false
      → is_negative (compare c b) ≡ false
      → is_negative (compare c a) ≡ false

module _ {ℓ} {V : Type ℓ} (compare : Text → Text → Sign) (order : IsOrder compare) where
  -- No entry comes before one that stands above it.
  abbrev pub IsSorted : List (Text × V) → Type 0
  IsSorted [] = Unit
  IsSorted (e ∷ es) = All (λ f. is_negative (compare f.0 e.0) ≡ false) es × IsSorted es

  abbrev After : Text × V → List (Text × V) → Type 0
  After e es = All (λ f. is_negative (compare f.0 e.0) ≡ false) es

  After-trans :
      (e f : Text × V) (es : List (Text × V))
      → is_negative (compare f.0 e.0) ≡ false
      → After f es
      → After e es
  After-trans e f [] h a = tt
  After-trans e f (g ∷ es) h (p, a) = (order.trans e.0 f.0 g.0 h p, After-trans e f es h a)

  After-place :
      (e f : Text × V) (es : List (Text × V))
      → is_negative (compare f.0 e.0) ≡ false
      → After e es
      → After e (place compare f es)
  unfolding place
  After-place e f [] h a = (h, tt)
  After-place e f (g ∷ es) h (p, a) = elim (Bool-cases (is_negative (compare f.0 g.0))) [
    | inl b ↦ rw b (h, (p, a))
    | inr b ↦ rw b (p, After-place e f es h a)
  ]

  place-IsSorted :
      (e : Text × V) (es : List (Text × V)) → IsSorted es → IsSorted (place compare e es)
  unfolding place
  place-IsSorted e [] s = (tt, tt)
  place-IsSorted e (f ∷ es) (a, s) = elim (Bool-cases (is_negative (compare e.0 f.0))) [
    | inl b ↦ rw b ((order.asym e.0 f.0 b, After-trans e f es (order.asym e.0 f.0 b) a), (a, s))
    | inr b ↦ rw b (After-place f e es b a, place-IsSorted e es s)
  ]

  sort_from-IsSorted :
      (es sorted : List (Text × V)) → IsSorted sorted → IsSorted (sort_from compare sorted es)
  unfolding sort_from
  sort_from-IsSorted [] sorted s = s
  sort_from-IsSorted (e ∷ es) sorted s =
      sort_from-IsSorted es (place compare e sorted) (place-IsSorted e sorted s)

  pub sort-IsSorted : (es : List (Text × V)) → IsSorted (sort compare es)
  unfolding sort
  sort-IsSorted es = sort_from-IsSorted es [] tt
