-- ===== src/Grouping/Laws.antt =====
-- A group holds exactly the rows of its name, in their order, whatever the comparator.
use rcon_ui.Base.{
  ◌≡◌, refl, ap, ◌∙◌, inl, inr, true, Option, none, some, List, [], ◌∷◌, ◌++◌, append_assoc, arith,
  if◌then◌else◌, Bool-cases, Option-cases, coalesce, is_some, filter,
}
use rcon_ui.Text.{Text, ◌===◌, ===_iff, ===_refl}
use rcon_ui.Text.DictKeys.{entry_key, distinct-insert}
use rcon_ui.Text.Keyed.{distinct}
use rcon_ui.Text.Dict.{lookup, insert, lookup-insert}
use rcon_ui.Grouping.{collect, group_from, group_by}

-- What a group adds up to: the rows so far, and those that join them.
abbrev pub joined {ℓ} : {A : Type ℓ} → Option (List A) → List A → Option (List A)
joined o [] = o
joined o (row ∷ rows) = some (coalesce o [] ++ row ∷ rows)

-- The rows of a name, none if there is no such row.
abbrev pub group {ℓ} : {A : Type ℓ} → (A → Text) → Text → List A → Option (List A)
group name n rows = joined none (filter (λ row. name row === n) rows)

module _ {ℓ} {A : Type ℓ} where
  lookup-collect :
      (name n : Text) (row : A) (m : List (Text × List A))
      → lookup n (collect name row m)
        ≡ (if name === n then some (coalesce (lookup name m) [] ++ row ∷ []) else lookup n m)
  unfolding collect
  lookup-collect name n row m = elim (Option-cases (lookup name m)) [
    | inr (xs, e) ↦ ground (arith, lookup-insert name n (coalesce (lookup name m) [] ++ row ∷ []) m)
    | inl e ↦ ground (
      arith,
      lookup-insert name n (coalesce (lookup name (insert name [] m)) [] ++ row ∷ [])
          (insert name [] m),
      lookup-insert name n [] m,
      lookup-insert name name [] m,
      ===_refl name,
    )
  ]

  joined-snoc :
      (o : Option (List A)) (row : A) (rows : List A)
      → joined (some (coalesce o [] ++ row ∷ [])) rows ≡ joined o (row ∷ rows)
  joined-snoc o row [] = refl
  joined-snoc o row (next ∷ rows) = ap some (append_assoc (coalesce o []) (row ∷ []) (next ∷ rows))

  lookup-group_from :
      (name : A → Text) (n : Text) (rows : List A) (m : List (Text × List A))
      → lookup n (group_from name m rows)
        ≡ joined (lookup n m) (filter (λ row. name row === n) rows)
  unfolding group_from
  lookup-group_from name n [] m = refl
  lookup-group_from name n (row ∷ rows) m =
      lookup-group_from name n rows (collect (name row) row m)
      ∙ ap (λ o. joined o (filter (λ row'. name row' === n) rows))
          (lookup-collect (name row) n row m)
      ∙ elim (Bool-cases (name row === n)) [
        | inr e ↦ rw e
        | inl e ↦
            rw (e, (===_iff (name row) n).0 e)
              (joined-snoc (lookup n m) row (filter (λ row'. name row' === n) rows))
      ]

  -- The group of a name is the list of the rows with that name, in order; no row, no group.
  pub lookup-group_by :
      (name : A → Text) (n : Text) (rows : List A)
      → lookup n (group_by name rows) ≡ group name n rows
  unfolding group_by
  lookup-group_by name n rows =
      lookup-group_from name n rows []
      ∙ ap (λ o. joined o (filter (λ row. name row === n) rows)) (lookup_nil n)
    where
      lookup_nil : (k : Text) → lookup {V = List A} k [] ≡ none
      lookup_nil k = unfold lookup in refl

module _ {ℓ} {A : Type ℓ} where
  distinct-collect :
      (name : Text) (row : A) (m : List (Text × List A))
      → distinct entry_key m ≡ true
      → distinct entry_key (collect name row m) ≡ true
  unfolding collect
  distinct-collect name row m h = elim (Bool-cases (is_some (lookup name m))) [
    | inl e ↦ rw e (distinct-insert name (coalesce (lookup name m) [] ++ row ∷ []) m h)
    | inr e ↦ rw e (
        distinct-insert name (coalesce (lookup name (insert name [] m)) [] ++ row ∷ [])
          (insert name [] m) (distinct-insert name [] m h))
  ]

  distinct-group_from :
      (name : A → Text) (rows : List A) (m : List (Text × List A))
      → distinct entry_key m ≡ true
      → distinct entry_key (group_from name m rows) ≡ true
  unfolding group_from
  distinct-group_from name [] m h = h
  distinct-group_from name (row ∷ rows) m h =
      distinct-group_from name rows (collect (name row) row m) (distinct-collect (name row) row m h)

  pub distinct-group_by :
      (name : A → Text) (rows : List A) → distinct entry_key (group_by name rows) ≡ true
  unfolding group_by
  distinct-group_by name rows = distinct-group_from name rows [] refl
