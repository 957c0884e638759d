-- ===== src/Text/Table.antt =====
-- Tables whose rows carry a key: a row changed, removed and added, and what each key finds afterwards.
use rcon_ui.Text.DictKeys.{===_comm}
use rcon_ui.Text.Keyed.{has_key, find_key, distinct}
use rcon_ui.Text.{Text, ◌===◌, ===_iff}
use rcon_ui.Base.{
  ◌≡◌, refl, Bool, true, false, not, ◌&&◌, ◌||◌, none, some, List, [], ◌∷◌, ◌++◌, arith,
  if◌then◌else◌, is_some, filter,
}
use mathlib.Core.Option

module _ {ℓ} {A : Type ℓ} (key : A → Text) where
  -- `UPDATE ... WHERE key = k`
  abbrev pub modify_key : Text → (A → A) → List A → List A
  modify_key k f [] = []
  modify_key k f (x ∷ xs) = (if key x === k then f x else x) ∷ modify_key k f xs

  -- `DELETE ... WHERE key = k`
  abbrev pub remove_key : Text → List A → List A
  remove_key k xs = filter (λ x. not (key x === k)) xs

  pub has_key_iff_find : (k : Text) (xs : List A) → has_key key k xs ≡ is_some (find_key key k xs)
  has_key_iff_find k [] = refl
  has_key_iff_find k (x ∷ xs) = ground (arith, has_key_iff_find k xs)

  pub has_key-append :
      (k : Text) (xs : List A) (x : A)
      → has_key key k (xs ++ x ∷ []) ≡ (has_key key k xs || (key x === k))
  has_key-append k [] x = ground arith
  has_key-append k (y ∷ xs) x = ground (arith, has_key-append k xs x)

  pub find_key-append :
      (k : Text) (xs : List A) (x : A)
      → find_key key k (xs ++ x ∷ [])
        ≡ (if has_key key k xs then find_key key k xs else if key x === k then some x else none)
  find_key-append k [] x = refl
  find_key-append k (y ∷ xs) x = ground (arith, find_key-append k xs x)

  pub distinct-append :
      (xs : List A) (x : A)
      → distinct key xs ≡ true
      → has_key key (key x) xs ≡ false
      → distinct key (xs ++ x ∷ []) ≡ true
  distinct-append [] x d h = refl
  distinct-append (y ∷ xs) x d h =
      ground (arith, distinct-append xs x, has_key-append (key y) xs x, ===_comm (key y) (key x))

  pub has_key-remove :
      (j k : Text) (xs : List A)
      → has_key key j (remove_key k xs) ≡ (not (j === k) && has_key key j xs)
  has_key-remove j k [] = ground arith
  has_key-remove j k (y ∷ xs) =
      ground (arith, has_key-remove j k xs, ===_iff (key y) j, ===_iff (key y) k, ===_iff j k)

  pub find_key-remove :
      (j k : Text) (xs : List A)
      → find_key key j (remove_key k xs) ≡ (if j === k then none else find_key key j xs)
  find_key-remove j k [] = ground arith
  find_key-remove j k (y ∷ xs) =
      ground (arith, find_key-remove j k xs, ===_iff (key y) j, ===_iff (key y) k, ===_iff j k)

  has_key-filter :
      (k : Text) (p : A → Bool) (xs : List A)
      → has_key key k xs ≡ false
      → has_key key k (filter p xs) ≡ false
  has_key-filter k p [] h = refl
  has_key-filter k p (x ∷ xs) h = ground (arith, has_key-filter k p xs)

  pub distinct-filter :
      (p : A → Bool) (xs : List A) → distinct key xs ≡ true → distinct key (filter p xs) ≡ true
  distinct-filter p [] d = refl
  distinct-filter p (x ∷ xs) d = ground (arith, distinct-filter p xs, has_key-filter (key x) p xs)

  module _ (f : A → A) (keeps : (x : A) → key (f x) ≡ key x) where
    pub has_key-modify :
        (j k : Text) (xs : List A) → has_key key j (modify_key k f xs) ≡ has_key key j xs
    has_key-modify j k [] = refl
    has_key-modify j k (y ∷ xs) = ground (arith, has_key-modify j k xs, keeps y)

    pub distinct-modify :
        (k : Text) (xs : List A) → distinct key (modify_key k f xs) ≡ distinct key xs
    distinct-modify k [] = refl
    distinct-modify k (y ∷ xs) =
        ground (arith, distinct-modify k xs, has_key-modify (key y) k xs, keeps y)

    pub find_key-modify :
        (j k : Text) (xs : List A)
        → find_key key j (modify_key k f xs)
          ≡ (if j === k then Option.map f (find_key key j xs) else find_key key j xs)
    find_key-modify j k [] = ground arith
    find_key-modify j k (y ∷ xs) =
        ground (
          arith,
          find_key-modify j k xs,
          keeps y,
          ===_iff (key y) j,
          ===_iff (key y) k,
          ===_iff j k,
        )
