-- ===== src/Store/Sorting.antt =====
-- Lists of rows in an order: what `ORDER BY` gives, and pairs of rows that hold of a table.
use rcon_ui.Store.Records.{place_row, order_by}
use rcon_ui.Base.{
  ◌≡◌, refl, inl, inr, Bool, true, false, List, [], ◌∷◌, ◌++◌, arith, Bool-cases, length, All,
  All-append, filter,
}

module _ {ℓ κ} {A : Type ℓ} (R : A → A → Type κ) where
  -- `R` holds of each row and every later one.
  abbrev pub Pairwise : List A → Type κ
  Pairwise [] = Unit
  Pairwise (x ∷ xs) = All (R x) xs × Pairwise xs

  pub Pairwise-append :
      (xs : List A) (y : A) → Pairwise xs → All (λ x. R x y) xs → Pairwise (xs ++ y ∷ [])
  Pairwise-append [] y h k = (tt, tt)
  Pairwise-append (x ∷ xs) y (a, h) (r, k) =
      (All-append (R x) xs (y ∷ []) a (r, tt), Pairwise-append xs y h k)

-- A property of the rows of a smaller table, where it follows for those that stay.
pub All_kept {ℓ κ μ} :
    {A : Type ℓ} {P : A → Type κ} {Q : A → Type μ} (p : A → Bool) (xs : List A)
    → ((x : A) → p x ≡ true → P x → Q x)
    → All P xs
    → All Q (filter p xs)
All_kept p [] f h = tt
All_kept {P = P} {Q = Q} p (x ∷ xs) f (px, h) = elim (Bool-cases (p x)) [
  | inl e ↦ rw e (f x e px, All_kept p xs f h)
  | inr e ↦ rw e (All_kept p xs f h)
]

pub All_weaken {ℓ κ μ} :
    {A : Type ℓ} {P : A → Type κ} {Q : A → Type μ} (xs : List A)
    → ((x : A) → P x → Q x)
    → All P xs
    → All Q xs
All_weaken [] f h = tt
All_weaken (x ∷ xs) f (px, h) = (f x px, All_weaken xs f h)

pub Pairwise-filter {ℓ κ} :
    {A : Type ℓ} (R : A → A → Type κ) (p : A → Bool) (xs : List A)
    → Pairwise R xs
    → Pairwise R (filter p xs)
Pairwise-filter R p [] h = tt
Pairwise-filter R p (x ∷ xs) (a, h) = elim (Bool-cases (p x)) [
  | inl e ↦ rw e (All_kept p xs (λ y _ r. r) a, Pairwise-filter R p xs h)
  | inr e ↦ rw e (Pairwise-filter R p xs h)
]

module _ {ℓ} {A : Type ℓ} (before : A → A → Bool) where
  -- Each row stands as often in the list as in the table.
  filter-place_row :
      (p : A → Bool) (x : A) (xs : List A)
      → length (filter p (place_row before x xs)) ≡ length (filter p (x ∷ xs))
  unfolding place_row
  filter-place_row p x [] = refl
  filter-place_row p x (y ∷ ys) = ground (arith, filter-place_row p x ys)

  pub filter-order_by :
      (p : A → Bool) (xs : List A) → length (filter p (order_by before xs)) ≡ length (filter p xs)
  unfolding order_by
  filter-order_by p [] = refl
  filter-order_by p (x ∷ xs) =
      ground (arith, filter-place_row p x (order_by before xs), filter-order_by p xs)

  All-place_row :
      (P : A → Type 0) (x : A) (xs : List A) → P x → All P xs → All P (place_row before x xs)
  unfolding place_row
  All-place_row P x [] px h = (px, tt)
  All-place_row P x (y ∷ ys) px (py, h) = elim (Bool-cases (before y x)) [
    | inl e ↦ rw e (py, All-place_row P x ys px h)
    | inr e ↦ rw e (px, (py, h))
  ]

  pub All-order_by : (P : A → Type 0) (xs : List A) → All P xs → All P (order_by before xs)
  unfolding order_by
  All-order_by P [] h = tt
  All-order_by P (x ∷ xs) (px, h) = All-place_row P x (order_by before xs) px (All-order_by P xs h)

  -- A row that comes before all others is the first.
  pub order_by-append :
      (xs : List A) (y : A)
      → All (λ x. before y x ≡ true) xs
      → order_by before (xs ++ y ∷ []) ≡ y ∷ order_by before xs
  unfolding order_by place_row
  order_by-append [] y h = refl
  order_by-append (x ∷ xs) y (e, h) = rw (order_by-append xs y h) (rw e refl)

  module _ (through : (x y z : A) → before y x ≡ false → before z y ≡ false → before z x ≡ false)
      (apart : (x y : A) → before x y ≡ true → before y x ≡ false) where
    -- No row comes before an earlier one.
    abbrev Sorted : List A → Type 0
    Sorted xs = Pairwise (λ x y. before y x ≡ false) xs

    Sorted-place_row : (x : A) (xs : List A) → Sorted xs → Sorted (place_row before x xs)
    unfolding place_row
    Sorted-place_row x [] h = (tt, tt)
    Sorted-place_row x (y ∷ ys) (a, h) = elim (Bool-cases (before y x)) [
      | inl e ↦
          rw e
            (All-place_row (λ z. before z y ≡ false) x ys (apart y x e) a, Sorted-place_row x ys h)
      | inr e ↦ rw e ((e, All_weaken ys (λ z q. through x y z e q) a), (a, h))
    ]

    pub Sorted-order_by : (xs : List A) → Sorted (order_by before xs)
    unfolding order_by
    Sorted-order_by [] = tt
    Sorted-order_by (x ∷ xs) = Sorted-place_row x (order_by before xs) (Sorted-order_by xs)
