-- ===== src/Text/Split.antt =====
-- `split` at a single character, and `join` with it.
use rcon_ui.Base.{
  ℕ, ◌≡◌, refl, sym, ap, ap₂, ◌∙◌, inl, inr, List, [], ◌∷◌, ◌++◌, ◌==◌, if◌then◌else◌, ==_iff,
  Bool-cases, All,
}
use rcon_ui.Text.{Text, Without}

-- The first part and the others; `split` never gives an empty array.
abbrev pub Parts : Type 0
Parts = Text × List Text

unfoldable pub split : ℕ → Text → Parts
split sep [] = ([], [])
split sep (c ∷ s) =
    let (head, rest) = split sep s in if c == sep then ([], head ∷ rest) else (c ∷ head, rest)

-- `[head, ...rest].join(sep)`
unfoldable pub join : ℕ → Text → List Text → Text
join sep head [] = head
join sep head (next ∷ rest) = head ++ sep ∷ join sep next rest

join-cons :
    (sep c : ℕ) (head : Text) (rest : List Text) → join sep (c ∷ head) rest ≡ c ∷ join sep head rest
unfolding join
join-cons sep c head [] = refl
join-cons sep c head (next ∷ rest) = refl

join-nil : (sep : ℕ) (head : Text) → join sep head [] ≡ head
unfolding join
join-nil sep head = refl

join-next :
    (sep : ℕ) (next : Text) (rest : List Text)
    → join sep [] (next ∷ rest) ≡ sep ∷ join sep next rest
unfolding join
join-next sep next rest = refl

pub join-split : (sep : ℕ) (s : Text) → join sep (split sep s).0 (split sep s).1 ≡ s
unfolding split
join-split sep [] = join-nil sep []
join-split sep (c ∷ s) = elim (Bool-cases (c == sep)) [
  | inl e ↦
      rw (e, join-next sep (split sep s).0 (split sep s).1)
        (ap₂ ◌∷◌ (sym ((==_iff c sep).0 e)) (join-split sep s))
  | inr e ↦ rw (e, join-cons sep c (split sep s).0 (split sep s).1) (ap (c ∷◌) (join-split sep s))
]

pub split-Without : (sep : ℕ) (s : Text) → Without sep (split sep s).0
unfolding split
split-Without sep [] = tt
split-Without sep (c ∷ s) = elim (Bool-cases (c == sep)) [
  | inl e ↦ rw e tt
  | inr e ↦ rw e (e, split-Without sep s)
]

split_plain : (sep : ℕ) (s : Text) → Without sep s → split sep s ≡ (s, [])
unfolding split
split_plain sep [] h = refl
split_plain sep (c ∷ s) (e, h) = rw (e, split_plain sep s h) refl

split-append :
    (sep : ℕ) (s t : Text)
    → Without sep s
    → split sep (s ++ sep ∷ t) ≡ (s, (split sep t).0 ∷ (split sep t).1)
unfolding split
split-append sep [] t h = rw ((==_iff sep sep).1 refl) refl
split-append sep (c ∷ s) t (e, h) = rw (e, split-append sep s t h) refl

pub split-join :
    (sep : ℕ) (head : Text) (rest : List Text)
    → Without sep head
    → All (Without sep) rest
    → split sep (join sep head rest) ≡ (head, rest)
unfolding join
split-join sep head [] h hs = split_plain sep head h
split-join sep head (next ∷ rest) h (n, hs) =
    split-append sep head (join sep next rest) h
    ∙ ap (λ (p : Parts). (head, p.0 ∷ p.1)) (split-join sep next rest n hs)
