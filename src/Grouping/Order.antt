-- ===== src/Grouping/Order.antt =====
-- What sorting keeps, for every comparator, and where the fallback section ends up.
use rcon_ui.Base.{
  ◌≡◌, refl, sym, ap, ap₂, ◌∙◌, inl, inr, Bool, true, false, not, ◌||◌, some, List, [], ◌∷◌, ◌++◌,
  append-nil, append_assoc, arith, if◌then◌else◌, Bool-cases, All, All-append, filter,
}
use rcon_ui.Text.{Text, ◌===◌, ===_iff}
use rcon_ui.Text.Keyed.{has_key, distinct}
use rcon_ui.Text.Dict.{lookup}
use rcon_ui.Text.DictKeys.{entry_key, ===_comm}
use rcon_ui.Grouping.{Sign, place, sort_from, sort, other_last}

module _ {ℓ} {V : Type ℓ} (compare : Text → Text → Sign) where
  has_key-place :
      (k : Text) (e : Text × V) (es : List (Text × V))
      → has_key entry_key k (place compare e es) ≡ ((e.0 === k) || has_key entry_key k es)
  unfolding place
  has_key-place k e [] = refl
  has_key-place k e (f ∷ es) = ground (arith, has_key-place k e es)

  distinct-place :
      (e : Text × V) (es : List (Text × V))
      → distinct entry_key es ≡ true
      → has_key entry_key e.0 es ≡ false
      → distinct entry_key (place compare e es) ≡ true
  unfolding place
  distinct-place e [] d h = refl
  distinct-place e (f ∷ es) d h =
      ground (arith, distinct-place e es, has_key-place f.0 e es, ===_comm e.0 f.0)

  lookup-place :
      (k : Text) (e : Text × V) (es : List (Text × V))
      → has_key entry_key e.0 es ≡ false
      → lookup k (place compare e es) ≡ (if e.0 === k then some e.1 else lookup k es)
  unfolding place lookup
  lookup-place k e [] h = refl
  lookup-place k e (f ∷ es) h =
      ground (arith, lookup-place k e es, ===_iff e.0 k, ===_iff f.0 k, ===_iff f.0 e.0)

  -- No entry of the second list has a key of the first.
  abbrev Apart : List (Text × V) → List (Text × V) → Type 0
  Apart sorted es = All (λ e. has_key entry_key e.0 sorted ≡ false) es

  Apart-place :
      (e : Text × V) (sorted es : List (Text × V))
      → has_key entry_key e.0 es ≡ false
      → Apart sorted es
      → Apart (place compare e sorted) es
  Apart-place e sorted [] h a = tt
  Apart-place e sorted (f ∷ es) h (p, a) = (
    ground (arith, has_key-place f.0 e sorted, ===_comm e.0 f.0),
    Apart-place e sorted es (ground arith) a,
  )

  lookup_shift :
      (k : Text) (e : Text × V) (es sorted : List (Text × V))
      → has_key entry_key e.0 es ≡ false
      → has_key entry_key e.0 sorted ≡ false
      → (if has_key entry_key k es then lookup k es else lookup k (place compare e sorted))
        ≡ (if has_key entry_key k (e ∷ es) then lookup k (e ∷ es) else lookup k sorted)
  unfolding lookup
  lookup_shift k e es sorted h p = ground (arith, lookup-place k e sorted, ===_iff e.0 k)

  lookup-sort_from :
      (k : Text) (es sorted : List (Text × V))
      → distinct entry_key es ≡ true
      → distinct entry_key sorted ≡ true
      → Apart sorted es
      → (lookup k (sort_from compare sorted es)
          ≡ (if has_key entry_key k es then lookup k es else lookup k sorted))
        × (distinct entry_key (sort_from compare sorted es) ≡ true)
  unfolding sort_from
  lookup-sort_from k [] sorted d d' a = (refl, d')
  lookup-sort_from k (e ∷ es) sorted d d' (p, a) =
      let rest =
        lookup-sort_from k es (place compare e sorted) (ground arith) (distinct-place e sorted d' p)
          (Apart-place e sorted es (ground arith) a) in
      (rest.0 ∙ lookup_shift k e es sorted (ground arith) p, rest.1)

  Apart-nil : (es : List (Text × V)) → Apart [] es
  Apart-nil [] = tt
  Apart-nil (e ∷ es) = (refl, Apart-nil es)

  lookup_default :
      (k : Text) (es : List (Text × V))
      → (if has_key entry_key k es then lookup k es else lookup k []) ≡ lookup k es
  unfolding lookup
  lookup_default k [] = refl
  lookup_default k (e ∷ es) = ground (arith, lookup_default k es)

  -- Sorting by any comparator keeps what each key maps to, and keeps the keys distinct.
  pub lookup-sort :
      (k : Text) (es : List (Text × V))
      → distinct entry_key es ≡ true
      → (lookup k (sort compare es) ≡ lookup k es) × (distinct entry_key (sort compare es) ≡ true)
  unfolding sort
  lookup-sort k es d =
      let (found, apart) = lookup-sort_from k es [] d refl (Apart-nil es) in
      (found ∙ lookup_default k es, apart)

-- Entries whose name is the fallback's, and the others.
abbrev pub others {ℓ} : {V : Type ℓ} → (Text → Bool) → List (Text × V) → List (Text × V)
others is_other es = filter (λ e. is_other e.0) es

abbrev pub named {ℓ} : {V : Type ℓ} → (Text → Bool) → List (Text × V) → List (Text × V)
named is_other es = filter (λ e. not (is_other e.0)) es

module _ {ℓ} {V : Type ℓ} (is_other : Text → Bool) where
  place_other :
      (e : Text × V) (es : List (Text × V))
      → is_other e.0 ≡ true
      → place (other_last is_other) e es ≡ es ++ e ∷ []
  unfolding place other_last
  place_other e [] h = refl
  place_other e (f ∷ es) h = ground (arith, place_other e es h)

  place_named :
      (e : Text × V) (xs ys : List (Text × V))
      → is_other e.0 ≡ false
      → All (λ f. is_other f.0 ≡ false) xs
      → All (λ f. is_other f.0 ≡ true) ys
      → place (other_last is_other) e (xs ++ ys) ≡ xs ++ e ∷ ys
  unfolding place other_last
  place_named e [] [] h a b = refl
  place_named e [] (f ∷ ys) h a (q, b) = ground arith
  place_named e (f ∷ xs) ys h (p, a) b = ground (arith, place_named e xs ys h a b)

  sort_from_split :
      (es xs ys : List (Text × V))
      → All (λ f. is_other f.0 ≡ false) xs
      → All (λ f. is_other f.0 ≡ true) ys
      → sort_from (other_last is_other) (xs ++ ys) es
        ≡ (xs ++ named is_other es) ++ (ys ++ others is_other es)
  unfolding sort_from
  sort_from_split [] xs ys a b = ap₂ ◌++◌ (sym (append-nil xs)) (sym (append-nil ys))
  sort_from_split (e ∷ es) xs ys a b = elim (Bool-cases (is_other e.0)) [
    | inl o ↦
        ap (λ m. sort_from (other_last is_other) m es)
          (place_other e (xs ++ ys) o ∙ append_assoc xs ys (e ∷ []))
        ∙ sort_from_split es xs (ys ++ e ∷ []) a
            (All-append (λ f. is_other f.0 ≡ true) ys (e ∷ []) b (o, tt))
        ∙ rw o (
            ap (λ m. (xs ++ named is_other es) ++ m)
              (append_assoc ys (e ∷ []) (others is_other es)))
    | inr n ↦
        ap (λ m. sort_from (other_last is_other) m es)
          (place_named e xs ys n a b ∙ sym (append_assoc xs (e ∷ []) ys))
        ∙ sort_from_split es (xs ++ e ∷ []) ys
            (All-append (λ f. is_other f.0 ≡ false) xs (e ∷ []) a (n, tt)) b
        ∙ rw n (
            ap (λ m. m ++ (ys ++ others is_other es))
              (append_assoc xs (e ∷ []) (named is_other es)))
  ]

  -- The comparator keeps the curated entries in their order and puts the fallback's last.
  pub sort-other_last :
      (es : List (Text × V))
      → sort (other_last is_other) es ≡ named is_other es ++ others is_other es
  unfolding sort
  sort-other_last es = sort_from_split es [] [] tt tt
