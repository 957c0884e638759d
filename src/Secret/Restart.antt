-- ===== src/Secret/Restart.antt =====
-- A sealed password after a restart of the program.
use rcon_ui.Secret.{
  IsSealer, Bytes, Aead, IsAead, Sealer, seal_with, unseal_with, new_from_key, KeyDir,
  load_or_create_key, start_sealer,
}
use mathlib.Core.Option.{some_inj}
use rcon_ui.Base.{
  ℕ, zero, suc, ◌≡◌, refl, sym, ap, ◌∙◌, subst, inl, inr, Bool, Option, some, List, [], ◌∷◌, ◌++◌,
  arith, Option-cases, length, take, drop, length-append, ◌>>=◌,
}

take_prefix {ℓ} : {A : Type ℓ} (n : ℕ) (xs ys : List A) → length xs ≡ n → take n (xs ++ ys) ≡ xs
take_prefix zero [] ys h = refl
take_prefix zero (x ∷ xs) ys h = ground arith
take_prefix (suc n) [] ys h = ground arith
take_prefix (suc n) (x ∷ xs) ys h = ap (λ zs. x ∷ zs) (take_prefix n xs ys (omega arith))

drop_prefix {ℓ} : {A : Type ℓ} (n : ℕ) (xs ys : List A) → length xs ≡ n → drop n (xs ++ ys) ≡ ys
drop_prefix zero [] ys h = refl
drop_prefix zero (x ∷ xs) ys h = ground arith
drop_prefix (suc n) [] ys h = ground arith
drop_prefix (suc n) (x ∷ xs) ys h = drop_prefix n xs ys (omega arith)

-- What was sealed under a key is opened under it.
pub unseal_with-seal_with :
    (a : Aead) (key nonce plain : Bytes)
    → IsAead a
    → length nonce ≡ a.nonce_size
    → (seal_with a key (some nonce) plain >>= unseal_with a key) ≡ some plain
unfolding seal_with unseal_with
unseal_with-seal_with a key nonce plain h e =
    let cipher = a.encrypt key nonce plain in
    ground (
      arith,
      length-append nonce cipher,
      take_prefix a.nonce_size nonce cipher e,
      drop_prefix a.nonce_size nonce cipher e,
      h.decrypt-encrypt key nonce plain e,
    )

-- Every sealer opens what it sealed.
new_from_key-IsSealer :
    (a : Aead) (digest : Bytes → Bytes) (key : Bytes) (s : Sealer)
    → IsAead a
    → new_from_key a digest key ≡ some s
    → IsSealer s a.nonce_size
unfolding new_from_key seal_with
new_from_key-IsSealer a digest [] s i h = cc
new_from_key-IsSealer a digest (c ∷ key) s i h =
    subst (λ t. IsSealer t a.nonce_size) (some_inj.0 h)
      (record {
        seal-none = λ plain. refl;
        unseal-seal = λ nonce plain e. unseal_with-seal_with a (digest (c ∷ key)) nonce plain i e;
      })

module _ (a : Aead) (digest : Bytes → Bytes) (decode64 : Bytes → Option Bytes) where
  -- The key that a start leaves is the key of the next one.
  load_again :
      (v : Bytes) (generated again : Option Bytes) (d : KeyDir) (k : Bytes × Bool)
      → (load_or_create_key decode64 v generated d).0 ≡ some k
      → (load_or_create_key decode64 v again (load_or_create_key decode64 v generated d).1).0
        ≡ some k
  unfolding load_or_create_key
  load_again (c ∷ v) generated again d k h = h
  load_again [] generated again d k h = ground arith

  -- With a cipher that decrypts what it encrypts: where a start has a sealer, the next one on the
  -- directory that it leaves, with the same variable, has the same one, whatever is drawn; and
  -- what that seals under a nonce of the cipher's size it opens.
  pub start_again :
      (v : Bytes) (generated again : Option Bytes) (d : KeyDir) (s : Sealer)
      → IsAead a
      → (start_sealer a digest decode64 v generated d).0 ≡ some s
      → ((start_sealer a digest decode64 v again (start_sealer a digest decode64 v generated d).1).0
          ≡ some s)
        × IsSealer s a.nonce_size
  unfolding start_sealer
  start_again v generated again d s i h =
      elim (Option-cases (load_or_create_key decode64 v generated d).0) [
        | inl q ↦ cc
        | inr (k, q) ↦
            let from_key : Option (Bytes × Bool) → Option Sealer =
              λ l. l >>= (λ k'. new_from_key a digest k'.0) in
            let made : new_from_key a digest k.0 ≡ some s = sym (ap from_key q) ∙ h in
            (
              ap from_key (load_again v generated again d k q) ∙ made,
              new_from_key-IsSealer a digest k.0 s i made,
            )
      ]
