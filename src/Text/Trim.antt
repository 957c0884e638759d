-- ===== src/Text/Trim.antt =====
-- `trim`: white space and line terminators of ECMAScript at both ends.
use rcon_ui.Base.{
  ◌≡◌, refl, inl, inr, ℕ, Bool, false, ◌&&◌, ◌||◌, [], ◌∷◌, arith, ◌==◌, leb, if◌then◌else◌,
  Bool-cases,
}
use rcon_ui.Text.{Text, is_empty}

-- WhiteSpace and LineTerminator of ECMA-262, below and above U+2000.
abbrev low_space : ℕ → Bool
low_space c = (leb 9 c && leb c 13) || ((c == 0x20) || ((c == 0xA0) || (c == 0x1680)))

abbrev high_space : ℕ → Bool
high_space c =
    (leb 0x2000 c && leb c 0x200A)
    || ((c == 0x2028)
        || ((c == 0x2029)
            || ((c == 0x202F) || ((c == 0x205F) || ((c == 0x3000) || (c == 0xFEFF))))))

unfoldable pub is_space : ℕ → Bool
is_space c = low_space c || high_space c

unfoldable pub trim_start : Text → Text
trim_start [] = []
trim_start (c ∷ s) = let rest = trim_start s in if is_space c then rest else c ∷ s

unfoldable pub trim_end : Text → Text
trim_end [] = []
trim_end (c ∷ s) = let rest = trim_end s in if is_space c && is_empty rest then [] else c ∷ rest

unfoldable pub trim : Text → Text
unfolding is_space trim_start trim_end
trim s = trim_end (trim_start s)

-- The first code unit is no white space.
abbrev pub StartsSolid : Text → Type 0
StartsSolid [] = Unit
StartsSolid (c ∷ s) = is_space c ≡ false

trim_start-StartsSolid : (s : Text) → StartsSolid (trim_start s)
unfolding trim_start
trim_start-StartsSolid [] = tt
trim_start-StartsSolid (c ∷ s) = elim (Bool-cases (is_space c)) [
  | inl e ↦ rw e (trim_start-StartsSolid s)
  | inr e ↦ rw e e
]

trim_end-StartsSolid : (s : Text) → StartsSolid s → StartsSolid (trim_end s)
unfolding trim_end
trim_end-StartsSolid [] h = tt
trim_end-StartsSolid (c ∷ s) h = rw h h

pub trim-StartsSolid : (s : Text) → StartsSolid (trim s)
unfolding trim
trim-StartsSolid s = trim_end-StartsSolid (trim_start s) (trim_start-StartsSolid s)

trim_start_of_StartsSolid : (s : Text) → StartsSolid s → trim_start s ≡ s
unfolding trim_start
trim_start_of_StartsSolid [] h = refl
trim_start_of_StartsSolid (c ∷ s) h = rw h

trim_end_idem : (s : Text) → trim_end (trim_end s) ≡ trim_end s
unfolding trim_end
trim_end_idem [] = refl
trim_end_idem (c ∷ s) = ground (arith, trim_end_idem s)

pub trim_idem : (s : Text) → trim (trim s) ≡ trim s
unfolding trim
trim_idem s =
    rw
      (trim_start_of_StartsSolid (trim_end (trim_start s))
        (trim_end-StartsSolid (trim_start s) (trim_start-StartsSolid s)))
      (trim_end_idem (trim_start s))
