-- ===== src/Text/DictKeys.antt =====
-- The keys of an insertion-ordered map, and that no key stands in it twice.
use rcon_ui.Base.{◌≡◌, refl, true, false, ◌||◌, List, [], ◌∷◌, arith, is_some}
use rcon_ui.Text.{Text, ◌===◌, ===_iff}
use rcon_ui.Text.Keyed.{has_key, distinct}
use rcon_ui.Text.Dict.{lookup, insert, erase}

pub ===_comm : (s t : Text) → (s === t) ≡ (t === s)
===_comm s t = ground (arith, ===_iff s t, ===_iff t s)

module _ {ℓ} {V : Type ℓ} where
  abbrev pub entry_key : Text × V → Text
  entry_key e = e.0

  pub is_some-lookup :
      (k : Text) (m : List (Text × V)) → is_some (lookup k m) ≡ has_key entry_key k m
  unfolding lookup
  is_some-lookup k [] = refl
  is_some-lookup k ((j, w) ∷ m) = ground (arith, is_some-lookup k m)

  pub has_key-insert :
      (k n : Text) (v : V) (m : List (Text × V))
      → has_key entry_key n (insert k v m) ≡ ((k === n) || has_key entry_key n m)
  unfolding insert
  has_key-insert k n v [] = refl
  has_key-insert k n v ((j, w) ∷ m) =
      ground (arith, has_key-insert k n v m, ===_iff j k, ===_iff j n, ===_iff k n)

  pub distinct-insert :
      (k : Text) (v : V) (m : List (Text × V))
      → distinct entry_key m ≡ true
      → distinct entry_key (insert k v m) ≡ true
  unfolding insert
  distinct-insert k v [] h = refl
  distinct-insert k v ((j, w) ∷ m) h =
      ground (arith, has_key-insert k j v m, distinct-insert k v m, ===_comm j k)

  has_key-erase :
      (k n : Text) (m : List (Text × V))
      → has_key entry_key n m ≡ false
      → has_key entry_key n (erase k m) ≡ false
  unfolding erase
  has_key-erase k n [] h = refl
  has_key-erase k n ((j, w) ∷ m) h = ground (arith, has_key-erase k n m)

  pub distinct-erase :
      (k : Text) (m : List (Text × V))
      → distinct entry_key m ≡ true
      → distinct entry_key (erase k m) ≡ true
  unfolding erase
  distinct-erase k [] h = refl
  distinct-erase k ((j, w) ∷ m) h = ground (arith, has_key-erase k j m, distinct-erase k m)
