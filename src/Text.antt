-- ===== src/Text.antt =====
-- JavaScript strings, as lists of UTF-16 code units, with the operations of the language that the
-- front end calls on them: `===`, `startsWith`, `includes`, `trim`, `split` and `join`.
-- `toLowerCase` and `toUpperCase` follow the Unicode tables of the engine and are parameters where
-- they are used.
pub mod Trim
pub mod Split
pub mod Replace
pub mod Keyed
pub mod Table
pub mod Dict
pub mod DictKeys
pub mod ObjectKeys
pub mod TextSet
pub mod Decimal
use Prim.Native.Char.{code}
use Prim.Native.String.{String}
use rcon_ui.Base.{
  ℕ, ◌≡◌, refl, ◌↔◌, Bool, true, false, ◌&&◌, ◌||◌, List, [], ◌∷◌, arith, ◌==◌, ==_iff,
}

abbrev pub Text : Type 0
Text = List ℕ

-- A literal of the source; `String` has its own `[]` and `∷`. The literals of the source lie in
-- the Basic Multilingual Plane, so a code point is one code unit.
abbrev pub codes : String → Text
codes String.[] = []
codes (String.◌∷◌ c s) = code c ∷ codes s

infix 50 ◌===◌
unfoldable pub ◌===◌ : Text → Text → Bool
[] === [] = true
[] === (d ∷ t) = false
(c ∷ s) === [] = false
(c ∷ s) === (d ∷ t) = (c == d) && (s === t)

pub ===_sound : (s t : Text) → (s === t) ≡ true → s ≡ t
unfolding ◌===◌
===_sound [] [] h = refl
===_sound [] (d ∷ t) h = cc
===_sound (c ∷ s) [] h = cc
===_sound (c ∷ s) (d ∷ t) h = ground (arith, ==_iff c d, ===_sound s t)

pub ===_refl : (s : Text) → (s === s) ≡ true
unfolding ◌===◌
===_refl [] = refl
===_refl (c ∷ s) = ground (arith, ===_refl s)

pub ===_iff : (s t : Text) → ((s === t) ≡ true) ↔ (s ≡ t)
===_iff s t = (===_sound s t, λ e. rw e (===_refl t))

-- JavaScript's `!s`: only the empty string is falsy.
abbrev pub is_empty : Text → Bool
is_empty [] = true
is_empty (c ∷ s) = false

-- `s.startsWith(t)`
unfoldable pub starts_with : Text → Text → Bool
starts_with s [] = true
starts_with [] (d ∷ t) = false
starts_with (c ∷ s) (d ∷ t) = (c == d) && starts_with s t

-- `s.includes(t)`
unfoldable pub includes : Text → Text → Bool
includes [] t = starts_with [] t
includes (c ∷ s) t = starts_with (c ∷ s) t || includes s t

-- No code unit of the text is `c`.
abbrev pub Without : ℕ → Text → Type 0
Without c [] = Unit
Without c (d ∷ s) = ((d == c) ≡ false) × Without c s
