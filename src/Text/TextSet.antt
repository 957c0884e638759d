-- ===== src/Text/TextSet.antt =====
-- `Set<string>` in insertion order, with the toggle that two components share.
use rcon_ui.Base.{
  ◌≡◌, refl, sym, ◌∙◌, inl, inr, Bool, true, false, not, ◌&&◌, ◌||◌, List, [], ◌∷◌, ◌++◌,
  append-nil, append_assoc, arith, if◌then◌else◌, Bool-cases, All, filter,
}
use rcon_ui.Text.{Text, ◌===◌, ===_iff}
use rcon_ui.Text.DictKeys.{===_comm}
use rcon_ui.Text.ObjectKeys.{contains, contains-append, contains-filter}

-- `new Set(xs)`
unfoldable pub add_all : List Text → List Text → List Text
add_all s [] = s
add_all s (x ∷ xs) = add_all (if contains x s then s else s ++ x ∷ []) xs

unfoldable pub of_list : List Text → List Text
unfolding add_all
of_list xs = add_all [] xs

-- `next.has(x) ? next.delete(x) : next.add(x)`
unfoldable pub toggle : Text → List Text → List Text
toggle x s = if contains x s then filter (λ y. not (y === x)) s else s ++ x ∷ []

-- No element stands twice.
abbrev pub unique : List Text → Bool
unique [] = true
unique (x ∷ xs) = not (contains x xs) && unique xs

pub contains-toggle :
    (x y : Text) (s : List Text)
    → contains y (toggle x s) ≡ (if x === y then not (contains y s) else contains y s)
unfolding toggle
contains-toggle x y s = ground (
  arith,
  contains-filter (λ z. not (z === x)) y s,
  contains-append y s (x ∷ []),
  ===_iff x y,
  ===_comm x y,
)

pub unique-filter : (p : Text → Bool) (s : List Text) → unique s ≡ true → unique (filter p s) ≡ true
unique-filter p [] h = refl
unique-filter p (x ∷ s) h = ground (arith, unique-filter p s, contains-filter p x s)

unique-snoc :
    (x : Text) (s : List Text)
    → unique s ≡ true
    → contains x s ≡ false
    → unique (s ++ x ∷ []) ≡ true
unique-snoc x [] h n = refl
unique-snoc x (y ∷ s) h n =
    ground (arith, unique-snoc x s, contains-append y s (x ∷ []), ===_comm x y)

pub unique-toggle : (x : Text) (s : List Text) → unique s ≡ true → unique (toggle x s) ≡ true
unfolding toggle
unique-toggle x s h = ground (arith, unique-snoc x s h, unique-filter (λ y. not (y === x)) s h)

unique-add_all : (s xs : List Text) → unique s ≡ true → unique (add_all s xs) ≡ true
unfolding add_all
unique-add_all s [] h = h
unique-add_all s (x ∷ xs) h = elim (Bool-cases (contains x s)) [
  | inl e ↦ rw e (unique-add_all s xs h)
  | inr e ↦ rw e (unique-add_all (s ++ x ∷ []) xs (unique-snoc x s h e))
]

pub unique-of_list : (xs : List Text) → unique (of_list xs) ≡ true
unfolding of_list
unique-of_list xs = unique-add_all [] xs refl

contains-add_all :
    (y : Text) (s xs : List Text) → contains y (add_all s xs) ≡ (contains y s || contains y xs)
unfolding add_all
contains-add_all y s [] = ground arith
contains-add_all y s (x ∷ xs) = ground (
  arith,
  contains-add_all y (if contains x s then s else s ++ x ∷ []) xs,
  contains-append y s (x ∷ []),
  ===_iff x y,
)

pub contains-of_list : (y : Text) (xs : List Text) → contains y (of_list xs) ≡ contains y xs
unfolding of_list
contains-of_list y xs = contains-add_all y [] xs

-- No element of the second list is in the first.
abbrev Fresh : List Text → List Text → Type 0
Fresh s xs = All (λ x. contains x s ≡ false) xs

Fresh-snoc :
    (x : Text) (s xs : List Text) → contains x xs ≡ false → Fresh s xs → Fresh (s ++ x ∷ []) xs
Fresh-snoc x s [] h f = tt
Fresh-snoc x s (y ∷ xs) h (p, f) =
    (ground (arith, contains-append y s (x ∷ []), ===_comm x y), Fresh-snoc x s xs (ground arith) f)

add_all-unique : (s xs : List Text) → unique xs ≡ true → Fresh s xs → add_all s xs ≡ s ++ xs
unfolding add_all
add_all-unique s [] u f = sym (append-nil s)
add_all-unique s (x ∷ xs) u (p, f) = rw p (
    add_all-unique (s ++ x ∷ []) xs (ground arith) (Fresh-snoc x s xs (ground arith) f)
    ∙ append_assoc s (x ∷ []) xs)

Fresh-nil : (xs : List Text) → Fresh [] xs
Fresh-nil [] = tt
Fresh-nil (x ∷ xs) = (refl, Fresh-nil xs)

-- A list with no repetition is the set that it makes.
pub of_list-unique : (xs : List Text) → unique xs ≡ true → of_list xs ≡ xs
unfolding of_list
of_list-unique xs u = add_all-unique [] xs u (Fresh-nil xs)
