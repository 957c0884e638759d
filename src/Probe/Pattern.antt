-- ===== src/Probe/Pattern.antt =====
-- The pieces of which the regular expressions of internal/discovery are made.
use rcon_ui.Base.{
  ℕ, ◌+◌, Bool, ◌&&◌, ◌||◌, Option, none, some, List, [], ◌∷◌, map, leb, ◌==◌, if◌then◌else◌,
}
use rcon_ui.Text.{Text}
use rcon_ui.Text.Split.{split}

-- `\s`
abbrev pub is_blank : ℕ → Bool
is_blank c = (c == 9) || ((c == 10) || ((c == 12) || ((c == 13) || (c == 32))))

-- `\s*`, and what stands after it.
unfoldable pub skip_blanks : Text → Text
skip_blanks [] = []
skip_blanks (c ∷ s) = let rest = skip_blanks s in if is_blank c then rest else c ∷ s

-- `\s+`
unfoldable pub some_blanks : Text → Option Text
unfolding skip_blanks
some_blanks [] = none
some_blanks (c ∷ s) = if is_blank c then some (skip_blanks s) else none

-- `\S*`: the run, and what stands after it.
unfoldable pub solid_run : Text → Text × Text
solid_run [] = ([], [])
solid_run (c ∷ s) =
    let (run, rest) = solid_run s in if is_blank c then ([], c ∷ s) else (c ∷ run, rest)

-- The longest prefix whose code points pass a test, and what stands after it.
unfoldable pub take_run : (ℕ → Bool) → Text → Text × Text
take_run p [] = ([], [])
take_run p (c ∷ s) = let (run, rest) = take_run p s in if p c then (c ∷ run, rest) else ([], c ∷ s)

-- The lower-case form of a letter of ASCII, and of the one other that has one there, U+0130 and the
-- Kelvin sign.
abbrev pub lower_code : ℕ → ℕ
lower_code c =
    if leb b'A' c && leb c b'Z'
    then c + 32
    else if c == 0x130
    then b'i'
    else if c == 0x212A
    then b'k'
    else c

-- `strings.ToLower`, where the letters beyond ASCII keep their case: it is compared with texts of
-- ASCII only.
abbrev pub to_lower : Text → Text
to_lower s = map lower_code s

-- The class of a code point under `(?i)`, for the letters of ASCII.
abbrev pub fold_code : ℕ → ℕ
fold_code c =
    if leb b'A' c && leb c b'Z'
    then c + 32
    else if c == 0x17F
    then b's'
    else if c == 0x212A
    then b'k'
    else c

-- A literal under `(?i)`, given in lower case, and what stands after it.
unfoldable pub after_fold : Text → Text → Option Text
after_fold [] s = some s
after_fold (p ∷ ps) [] = none
after_fold (p ∷ ps) (c ∷ s) = let rest = after_fold ps s in if fold_code c == p then rest else none

abbrev pub is_letter : ℕ → Bool
is_letter c = (leb b'A' c && leb c b'Z') || (leb b'a' c && leb c b'z')

-- `strings.Split(s, "\n")`
unfoldable pub lines : Text → List Text
unfolding split
lines s = let (first, rest) = split b'\n' s in first ∷ rest

abbrev pub push {ℓ} : {A : Type ℓ} → Option A → List A → List A
push none xs = xs
push (some x) xs = x ∷ xs

-- The results of the elements that have one.
unfoldable pub gather {ℓ κ} : {A : Type ℓ} {B : Type κ} → (A → Option B) → List A → List B
gather f [] = []
gather f (x ∷ xs) = push (f x) (gather f xs)
