-- ===== src/Text/Replace.antt =====
-- `replaceAll` with a string pattern: the replacement's `$` sequences are expanded, as ECMA-262's
-- GetSubstitution does with no captures. The pattern is not empty, as in every call of the source.
use rcon_ui.Base.{
  ℕ, zero, suc, ◌-◌, ◌≡◌, refl, ap, [], ◌∷◌, ◌++◌, ◌==◌, if◌then◌else◌, Bool-cases, inl, inr,
  length, drop,
}
use rcon_ui.Text.{Text, starts_with, Without}

-- `$$`, `$&`, "$`" and `$'`; any other `$` stands for itself.
unfoldable pub expand : Text → Text → Text → Text → Text
expand matched before after [] = []
expand matched before after (c ∷ []) = c ∷ []
expand matched before after (c ∷ (d ∷ r)) =
    let skip2 = expand matched before after r in
    let skip1 = expand matched before after (d ∷ r) in
    if c == b'$'
    then (if d == b'$'
        then b'$' ∷ skip2
        else if d == b'&'
        then matched ++ skip2
        else if d == 0x60
        then before ++ skip2
        else if d == 0x27
        then after ++ skip2
        else c ∷ skip1)
    else c ∷ skip1

-- The scan: `before` is what has been passed, and `skip` code units of a match are still to pass.
unfoldable pub replace_from : Text → Text → Text → Text → ℕ → Text
replace_from pat repl before [] skip = []
replace_from pat repl before (c ∷ s) (suc skip) = replace_from pat repl (before ++ c ∷ []) s skip
replace_from pat repl before (c ∷ s) zero =
    let hit = starts_with (c ∷ s) pat in
    let rest = replace_from pat repl (before ++ c ∷ []) s (if hit then length pat - 1 else 0) in
    if hit then expand pat before (drop (length pat) (c ∷ s)) repl ++ rest else c ∷ rest

unfoldable pub replace_all : Text → Text → Text → Text
unfolding replace_from expand starts_with
replace_all s pat repl = replace_from pat repl [] s 0

-- A replacement with no `$` stands for itself.
pub expand_plain :
    (matched before after r : Text) → Without b'$' r → expand matched before after r ≡ r
unfolding expand
expand_plain matched before after [] h = refl
expand_plain matched before after (c ∷ []) h = refl
expand_plain matched before after (c ∷ (d ∷ r)) (e, h) =
    rw e (ap (c ∷◌) (expand_plain matched before after (d ∷ r) h))

-- Replacement by an unexpanded text.
unfoldable pub subst_from : Text → Text → Text → ℕ → Text
subst_from pat repl [] skip = []
subst_from pat repl (c ∷ s) (suc skip) = subst_from pat repl s skip
subst_from pat repl (c ∷ s) zero =
    let hit = starts_with (c ∷ s) pat in
    let rest = subst_from pat repl s (if hit then length pat - 1 else 0) in
    if hit then repl ++ rest else c ∷ rest

replace_from_plain :
    (pat repl before s : Text) (skip : ℕ)
    → Without b'$' repl
    → replace_from pat repl before s skip ≡ subst_from pat repl s skip
unfolding replace_from subst_from
replace_from_plain pat repl before [] skip h = refl
replace_from_plain pat repl before (c ∷ s) (suc skip) h =
    replace_from_plain pat repl (before ++ c ∷ []) s skip h
replace_from_plain pat repl before (c ∷ s) zero h = elim (Bool-cases (starts_with (c ∷ s) pat)) [
  | inl e ↦
      rw (e, expand_plain pat before (drop (length pat) (c ∷ s)) repl h)
        (ap (λ t. repl ++ t) (replace_from_plain pat repl (before ++ c ∷ []) s (length pat - 1) h))
  | inr e ↦ rw e (ap (c ∷◌) (replace_from_plain pat repl (before ++ c ∷ []) s 0 h))
]

pub replace_all_plain :
    (s pat repl : Text) → Without b'$' repl → replace_all s pat repl ≡ subst_from pat repl s 0
unfolding replace_all
replace_all_plain s pat repl h = replace_from_plain pat repl [] s 0 h
