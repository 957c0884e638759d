-- ===== src/Text/Keyed.antt =====
-- Lists whose elements carry a text key: `find` by the key, and lists with distinct keys.
use mathlib.Core.List.{Memᴰ}
use rcon_ui.Base.{
  ◌≡◌, refl, sym, ap, ◌∙◌, subst, inl, inr, Bool, true, false, not, ◌&&◌, Option, some, List, [],
  ◌∷◌, arith, Bool-cases, any, find?,
}
use rcon_ui.Text.{Text, ◌===◌, ===_iff, ===_refl}

module _ {ℓ} {A : Type ℓ} (key : A → Text) where
  -- `xs.some((x) => key(x) === k)`
  abbrev pub has_key : Text → List A → Bool
  has_key k xs = any (λ x. key x === k) xs

  -- `xs.find((x) => key(x) === k)`
  abbrev pub find_key : Text → List A → Option A
  find_key k xs = find? (λ x. key x === k) xs

  -- No two elements have the same key.
  abbrev pub distinct : List A → Bool
  distinct [] = true
  distinct (x ∷ xs) = not (has_key (key x) xs) && distinct xs

  pub has_key_of_mem :
      (k : Text) (xs : List A) {x : A} → Memᴰ x xs → key x ≡ k → has_key k xs ≡ true
  has_key_of_mem k [] m h = elim m [ ]
  has_key_of_mem k (y ∷ xs) {x} (Memᴰ.head e) h =
      ground (arith, (===_iff (key y) k).1 (ap key (sym e) ∙ h))
  has_key_of_mem k (y ∷ xs) {x} (Memᴰ.tail m) h = ground (arith, has_key_of_mem k xs m h)

  pub find_key_sound :
      (k : Text) (xs : List A) {x : A} → find_key k xs ≡ some x → Memᴰ x xs × (key x ≡ k)
  find_key_sound k [] {x} h = cc
  find_key_sound k (y ∷ xs) {x} h = elim (Bool-cases (key y === k)) [
    | inl e ↦
        let same : y ≡ x = ground arith in
        (Memᴰ.head (sym same), ap key (sym same) ∙ (===_iff (key y) k).0 e)
    | inr e ↦ let (m, same) = find_key_sound k xs {x = x} (ground arith) in (Memᴰ.tail m, same)
  ]

  pub find_key_complete :
      (k : Text) (xs : List A) {x : A}
      → distinct xs ≡ true
      → Memᴰ x xs
      → key x ≡ k
      → find_key k xs ≡ some x
  find_key_complete k [] d m h = elim m [ ]
  find_key_complete k (y ∷ xs) {x} d (Memᴰ.head e) h =
      ground (arith, (===_iff (key y) k).1 (ap key (sym e) ∙ h))
  find_key_complete k (y ∷ xs) {x} d (Memᴰ.tail m) h = elim (Bool-cases (key y === k)) [
    | inl e ↦ ground (arith, has_key_of_mem (key y) xs m (h ∙ sym ((===_iff (key y) k).0 e)))
    | inr e ↦ ground (arith, find_key_complete k xs {x = x} (ground arith) m h)
  ]

  -- A test of the elements of an absent key finds nothing.
  any_absent :
      (k : Text) (q : A → Bool) (xs : List A)
      → has_key k xs ≡ false
      → any (λ x. (key x === k) && q x) xs ≡ false
  any_absent k q [] h = refl
  any_absent k q (y ∷ xs) h = ground (arith, any_absent k q xs)

  any_of_head :
      (q : A → Bool) (y : A) (xs : List A)
      → distinct (y ∷ xs) ≡ true
      → any (λ w. (key w === key y) && q w) (y ∷ xs) ≡ q y
  any_of_head q y xs d = ground (arith, ===_refl (key y), any_absent (key y) q xs)

  -- Where keys are distinct a test of the elements of a key is a test of the one that has it.
  pub any_of_mem :
      (q : A → Bool) (xs : List A) {x : A}
      → distinct xs ≡ true
      → Memᴰ x xs
      → any (λ y. (key y === key x) && q y) xs ≡ q x
  any_of_mem q [] d m = elim m [ ]
  any_of_mem q (y ∷ xs) {x} d (Memᴰ.head e) =
      subst (λ z. any (λ w. (key w === key z) && q w) (y ∷ xs) ≡ q z) (sym e) (any_of_head q y xs d)
  any_of_mem q (y ∷ xs) {x} d (Memᴰ.tail m) = elim (Bool-cases (key y === key x)) [
    | inl e ↦ ground (arith, has_key_of_mem (key y) xs m (sym ((===_iff (key y) (key x)).0 e)))
    | inr e ↦ ground (arith, any_of_mem q xs {x = x} (ground arith) m)
  ]
