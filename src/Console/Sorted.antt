-- ===== src/Console/Sorted.antt =====
-- The order of the source filter's buttons.
use rcon_ui.Base.{◌≡◌, refl, inl, inr, true, false, List, [], ◌∷◌, arith, Bool-cases, All}
use rcon_ui.Text.{Text}
use rcon_ui.Console.{precedes, place_text, sort_texts}

-- No text comes before one that stands above it.
abbrev pub IsInOrder : List Text → Type 0
IsInOrder [] = Unit
IsInOrder (t ∷ ts) = All (λ u. precedes u t ≡ false) ts × IsInOrder ts

precedes_asym : (s t : Text) → precedes s t ≡ true → precedes t s ≡ false
unfolding precedes
precedes_asym s [] h = cc
precedes_asym [] (d ∷ t) h = refl
precedes_asym (c ∷ s) (d ∷ t) h = ground (arith, precedes_asym s t)

precedes_trans : (a b c : Text) → precedes b a ≡ false → precedes c b ≡ false → precedes c a ≡ false
unfolding precedes
precedes_trans [] b c h k = refl
precedes_trans (x ∷ a) [] c h k = cc
precedes_trans (x ∷ a) (y ∷ b) [] h k = cc
precedes_trans (x ∷ a) (y ∷ b) (z ∷ c) h k = ground (arith, precedes_trans a b c)

All-trans :
    (s t : Text) (ts : List Text)
    → precedes t s ≡ false
    → All (λ u. precedes u t ≡ false) ts
    → All (λ u. precedes u s ≡ false) ts
All-trans s t [] h a = tt
All-trans s t (u ∷ ts) h (p, a) = (precedes_trans s t u h p, All-trans s t ts h a)

All-place_text :
    (P : Text → Type 0) (s : Text) (ts : List Text) → P s → All P ts → All P (place_text s ts)
unfolding place_text
All-place_text P s [] p a = (p, tt)
All-place_text P s (t ∷ ts) p (q, a) = elim (Bool-cases (precedes s t)) [
  | inl e ↦ rw e (p, (q, a))
  | inr e ↦ rw e (q, All-place_text P s ts p a)
]

IsInOrder-place_text : (s : Text) (ts : List Text) → IsInOrder ts → IsInOrder (place_text s ts)
unfolding place_text
IsInOrder-place_text s [] h = (tt, tt)
IsInOrder-place_text s (t ∷ ts) (a, h) = elim (Bool-cases (precedes s t)) [
  | inl e ↦ let back = precedes_asym s t e in rw e ((back, All-trans s t ts back a), (a, h))
  | inr e ↦ rw e (All-place_text (λ u. precedes u t ≡ false) s ts e a, IsInOrder-place_text s ts h)
]

pub IsInOrder-sort_texts : (ts : List Text) → IsInOrder (sort_texts ts)
unfolding sort_texts
IsInOrder-sort_texts [] = tt
IsInOrder-sort_texts (t ∷ ts) = IsInOrder-place_text t (sort_texts ts) (IsInOrder-sort_texts ts)
