-- ===== src/Sidebar/Label.antt =====
-- The words of a label.
use rcon_ui.Base.{
  ◌≡◌, refl, ap, inl, inr, Bool, true, false, not, List, [], ◌∷◌, ◌++◌, Bool-cases, All, filter,
}
use rcon_ui.Text.{Text}
use rcon_ui.Sidebar.{is_separator, words}

-- The words one after the other.
abbrev pub concat : List Text → Text
concat [] = []
concat (w ∷ ws) = w ++ concat ws

-- No code unit of a word is a separator.
abbrev pub IsWord : Text → Type 0
IsWord w = All (λ c. is_separator c ≡ false) w

-- Splitting a fingerprint into words loses nothing but separators: the words hold none, and one after
-- the other they are the fingerprint without them.
pub words_lem :
    (inside : Bool) (s : Text)
    → (concat ((words inside s).0 ∷ (words inside s).1) ≡ filter (λ c. not (is_separator c)) s)
      × IsWord (words inside s).0
      × All IsWord (words inside s).1
unfolding words
words_lem inside [] = (refl, tt, tt)
words_lem true (c ∷ s) = elim (Bool-cases (is_separator c)) [
  | inl e ↦ rw e (words_lem true s)
  | inr e ↦ let (kept, head, rest) = words_lem false s in rw e (ap (c ∷◌) kept, (e, head), rest)
]
words_lem false (c ∷ s) = elim (Bool-cases (is_separator c)) [
  | inl e ↦ let (kept, head, rest) = words_lem true s in rw e (kept, tt, (head, rest))
  | inr e ↦ let (kept, head, rest) = words_lem false s in rw e (ap (c ∷◌) kept, (e, head), rest)
]
