-- ===== src/Store/Migrations.antt =====
-- `migrate` of internal/store/store.go: the loop over the migrations that the database has not had. A
-- migration is a transaction, which makes its change with the new version, or leaves both as they are;
-- what its SQL does is a parameter.
use rcon_ui.Base.{
  ℕ, zero, suc, ◌≡◌, refl, sym, ap, ◌∙◌, inl, inr, Bool, true, false, Option, none, some, List, [],
  ◌∷◌, Option-cases, drop,
}

-- `PRAGMA user_version`, and the tables.
pub record Schema (D : Type 0) : Type 0 where
  pub version : ℕ
  pub tables : D

drop_next :
    {M : Type 0} (n : ℕ) (xs : List M) {x : M} {rest : List M}
    → drop n xs ≡ x ∷ rest
    → drop (suc n) xs ≡ rest
drop_next zero [] h = cc
drop_next zero (y ∷ xs) h = cc
drop_next (suc n) [] h = cc
drop_next (suc n) (y ∷ xs) h = drop_next n xs h

module _ {M D : Type 0} where
  -- With whether all of them were made.
  unfoldable pub migrate_rest : (M → D → Option D) → List M → Schema D → Bool × Schema D
  migrate_rest exec [] d = (true, d)
  migrate_rest exec (m ∷ ms) d = elim (exec m d.tables) [
    | none ↦ (false, d)
    | some t ↦ migrate_rest exec ms (record { version = suc d.version; tables = t })
  ]

  unfoldable pub migrate : (M → D → Option D) → List M → Schema D → Bool × Schema D
  unfolding migrate_rest
  migrate exec migrations d = migrate_rest exec (drop d.version migrations) d

  module _ (first again : M → D → Option D)
      (agrees : (m : M) (t u : D) → first m t ≡ some u → again m t ≡ some u)
      (migrations : List M) where
    migrate-migrate_rest :
        (rest : List M) (d : Schema D)
        → drop d.version migrations ≡ rest
        → migrate again migrations (migrate_rest first rest d).1 ≡ migrate_rest again rest d
    unfolding migrate migrate_rest
    migrate-migrate_rest [] d h = ap (λ r. migrate_rest again r d) h
    migrate-migrate_rest (m ∷ ms) d h = elim (Option-cases (first m d.tables)) [
      | inl e ↦
          let stops : (migrate_rest first (m ∷ ms) d).1 ≡ d = rw (migrate_rest, e) refl in
          ap (λ x. migrate again migrations x) stops ∙ ap (λ r. migrate_rest again r d) h
      | inr (t, e) ↦
          let d' : Schema D = record { version = suc d.version; tables = t } in
          let goes : (migrate_rest first (m ∷ ms) d).1 ≡ (migrate_rest first ms d').1 =
            rw (migrate_rest, e) refl in
          let goes_again : migrate_rest again (m ∷ ms) d ≡ migrate_rest again ms d' =
            rw (migrate_rest, agrees m d.tables t e) refl in
          ap (λ x. migrate again migrations x) goes
          ∙ migrate-migrate_rest ms d' (drop_next d.version migrations h)
          ∙ sym goes_again
    ]

    -- An upgrade that was interrupted, by whatever failed, ends, once it is started again, as one that
    -- was not: no migration is made twice and none is left out.
    pub migrate-migrate :
        (d : Schema D)
        → migrate again migrations (migrate first migrations d).1 ≡ migrate again migrations d
    unfolding migrate
    migrate-migrate d = migrate-migrate_rest (drop d.version migrations) d refl
