-- ===== src/CommandInput/Submit.antt =====
-- What the prompt sends, and what completion changes.
use rcon_ui.Base.{
  ◌≡◌, refl, sym, ◌≢◌, ◌↔◌, ◌⊎◌, inl, inr, Bool, true, false, none, some, List, [], ◌∷◌, arith,
  Bool-cases, Option-cases, find?, find?-eq-some,
}
use mathlib.Core.List.{Memᴰ}
use rcon_ui.Text.{===_iff, ===_refl, Text, is_empty, starts_with}
use rcon_ui.Text.Trim.{trim}
use rcon_ui.Text.Split.{split, join, join-split}
use rcon_ui.CommandInput.{Input, submit, tab, completes}

is_empty_iff : (s : Text) → (is_empty s ≡ true) ↔ (s ≡ [])
is_empty_iff [] = (λ _. refl, λ _. refl)
is_empty_iff (c ∷ s) = (λ h. cc, λ h. cc)

-- A command is sent exactly when the prompt is enabled and holds more than white space; it is the
-- line with no white space at either end, and the prompt is empty afterwards. Otherwise nothing
-- changes.
pub submit_lem :
    (disabled : Bool) (s : Input)
    → ((disabled ≡ false)
        × (trim s.value ≢ [])
        × ((submit disabled s).0 ≡ some (trim s.value))
        × ((submit disabled s).1 ≡ record { value = []; cursor = 0; draft = [] }))
      ⊎ (((disabled ≡ true) ⊎ (trim s.value ≡ []))
          × ((submit disabled s).0 ≡ none)
          × ((submit disabled s).1 ≡ s))
unfolding submit
submit_lem true s = inr (inl refl, ground arith, ground arith)
submit_lem false s = elim (Bool-cases (is_empty (trim s.value))) [
  | inl e ↦ inr (inr ((is_empty_iff (trim s.value)).0 e), ground arith, ground arith)
  | inr n ↦ inl (refl, λ z. cc ((is_empty_iff (trim s.value)).1 z), ground arith, ground arith)
]

mem_of_find? {ℓ} :
    {A : Type ℓ} (p : A → Bool) (xs : List A) {x : A} → find? p xs ≡ some x → Memᴰ x xs
mem_of_find? p [] h = cc
mem_of_find? p (y ∷ xs) {x} h = elim (Bool-cases (p y)) [
  | inl e ↦ Memᴰ.head (ground arith)
  | inr e ↦ Memᴰ.tail (mem_of_find? p xs {x = x} (ground arith))
]

-- Completion changes the first word alone: the line stays as it is, or its first word is replaced by
-- a listed name that begins with it and is longer, and the rest of the line is kept to the letter.
pub tab_lem :
    (names : List Text) (s : Input)
    → (tab names s ≡ s)
      ⊎ ((name : Text) × Memᴰ name names
          × (starts_with name (split b' ' s.value).0 ≡ true)
          × (name ≢ (split b' ' s.value).0)
          × (s.value ≡ join b' ' (split b' ' s.value).0 (split b' ' s.value).1)
          × (tab names s ≡ record s { value = join b' ' name (split b' ' s.value).1 }))
unfolding tab
tab_lem names s = elim (Bool-cases (is_empty (split b' ' s.value).0)) [
  | inl e ↦ inl (ground arith)
  | inr n ↦ elim (Option-cases (find? (completes (split b' ' s.value).0) names)) [
    | inl missing ↦ inl (ground arith)
    | inr (name, found) ↦
        let t = find?-eq-some (completes (split b' ' s.value).0) names found in
        inr (
          name,
          mem_of_find? (completes (split b' ' s.value).0) names found,
          ground arith,
          λ same. ground (arith, ===_refl name, t, ===_iff name (split b' ' s.value).0),
          sym (join-split b' ' s.value),
          ground arith,
        )
  ]
]
