-- ===== src/Settings/Stepper.antt =====
-- The buttons of an integer option.
use rcon_ui.Text.{===_refl}
use rcon_ui.Text.Dict.{lookup, lookup-insert}
use rcon_ui.Discovery.{integer}
use rcon_ui.Text.Decimal.{parse_int, show_int, parse_int-show_int}
use rcon_ui.Base.{
  ℕ, zero, suc, ◌≤◌, ◌≡◌, refl, sym, ap, ◌∙◌, ◌⊎◌, inl, inr, false, Option, none, some, arith,
  coalesce,
}
use rcon_ui.Base.Int.{negsuc, ℤ, pos, ◌+ℤ◌, ◌≤ℤ◌}
use rcon_ui.Settings.{lookup, set_value, Text, Row, Panel}
use rcon_ui.Settings.View.{
  current, decreased, min_of, max_of, increased, bump, on_change, Fractional, ControlEvent,
  use_control, at_least, at_most,
}

-- A number within the bounds that are given.
abbrev pub AtLeast : Option ℕ → ℤ → Type 0
AtLeast none n = Unit
AtLeast (some low) n = pos low ≤ℤ n

abbrev pub AtMost : Option ℕ → ℤ → Type 0
AtMost none n = Unit
AtMost (some high) n = n ≤ℤ pos high

-- `k` less than 0.
abbrev pub minus : ℕ → ℤ
minus zero = pos 0
minus (suc k) = negsuc k

-- A button that is pressed a number of times.
abbrev pub presses : Fractional → Row → ControlEvent → ℕ → Panel → Panel
presses fractional row event zero p = p
presses fractional row event (suc k) p =
    use_control fractional false row event (presses fractional row event k p)

up_once :
    (low high : Option ℕ) (n : ℤ) (k : ℕ)
    → AtLeast low n
    → AtMost high n
    → at_most high (at_least low (at_most high (n +ℤ pos k) +ℤ pos 1))
      ≡ at_most high (n +ℤ pos (suc k))
unfolding ◌+ℤ◌
up_once none none n k a b = ground arith
up_once none (some h) n k a b = ground arith
up_once (some l) none n k a b = ground arith
up_once (some l) (some h) n k a b = ground arith

down_once :
    (low high : Option ℕ) (n : ℤ) (k : ℕ)
    → AtLeast low n
    → AtMost high n
    → at_most high (at_least low (at_least low (n +ℤ minus k) +ℤ negsuc 0))
      ≡ at_least low (n +ℤ minus (suc k))
unfolding ◌+ℤ◌
down_once none none (pos n) zero a b = ground arith
down_once none none (negsuc n) zero a b = ground arith
down_once none none (pos n) (suc k) a b = ground arith
down_once none none (negsuc n) (suc k) a b = ground arith
down_once none (some h) (pos n) zero a b = ground arith
down_once none (some h) (negsuc n) zero a b = ground arith
down_once none (some h) (pos n) (suc k) a b = ground arith
down_once none (some h) (negsuc n) (suc k) a b = ground arith
down_once (some l) high (negsuc n) k a b = absurd (omega arith)
down_once (some l) none (pos n) zero a b = ground arith
down_once (some l) none (pos n) (suc k) a b = ground arith
down_once (some l) (some h) (pos n) zero a b = ground arith
down_once (some l) (some h) (pos n) (suc k) a b = ground arith

start_up : (high : Option ℕ) (n : ℤ) → AtMost high n → at_most high (n +ℤ pos 0) ≡ n
unfolding ◌+ℤ◌
start_up none n b = ground arith
start_up (some h) n b = ground arith

start_down : (low : Option ℕ) (n : ℤ) → AtLeast low n → at_least low (n +ℤ minus 0) ≡ n
unfolding ◌+ℤ◌
start_down none n b = ground arith
start_down (some l) n b = ground arith

bump_lem :
    (delta n : ℤ) (row : Row) (value : Text)
    → parse_int value ≡ some n
    → bump delta row value ≡ show_int (at_most (max_of row) (at_least (min_of row) (n +ℤ delta)))
unfolding bump
bump_lem delta n row value h = rw h refl

press :
    (fractional : Fractional) (row : Row) (event : ControlEvent) (delta : ℤ) (p : Panel)
    → row.type ≡ integer
    → ((event ≡ increased) × (delta ≡ pos 1)) ⊎ ((event ≡ decreased) × (delta ≡ negsuc 0))
    → lookup row.key (use_control fractional false row event p).edits
      ≡ some (bump delta row (current p.edits row))
unfolding use_control on_change set_value
press fractional row event delta p t (inl (e, d)) =
    rw (e, d, t)
      (lookup-insert row.key row.key (bump (pos 1) row (current p.edits row)) p.edits
        ∙ rw (===_refl row.key) refl)
press fractional row event delta p t (inr (e, d)) =
    rw (e, d, t)
      (lookup-insert row.key row.key (bump (negsuc 0) row (current p.edits row)) p.edits
        ∙ rw (===_refl row.key) refl)

module _ (fractional : Fractional) (row : Row) (p : Panel) (n : ℤ) where
  reads :
      (q : Panel) (m : ℤ)
      → lookup row.key q.edits ≡ some (show_int m)
      → parse_int (current q.edits row) ≡ some m
  reads q m h = ap (λ o. parse_int (coalesce o row.value)) h ∙ parse_int-show_int m

  -- One more press, from a number that is read.
  more :
      (q : Panel) (event : ControlEvent) (delta m next : ℤ)
      → row.type ≡ integer
      → ((event ≡ increased) × (delta ≡ pos 1)) ⊎ ((event ≡ decreased) × (delta ≡ negsuc 0))
      → parse_int (current q.edits row) ≡ some m
      → at_most (max_of row) (at_least (min_of row) (m +ℤ delta)) ≡ next
      → (lookup row.key (use_control fractional false row event q).edits ≡ some (show_int next))
        × (parse_int (current (use_control fractional false row event q).edits row) ≡ some next)
  more q event delta m next t e h same =
      let staged =
        press fractional row event delta q t e
        ∙ ap some (bump_lem delta m row (current q.edits row) h)
        ∙ ap (λ x. some (show_int x)) same in
      (staged, reads (use_control fractional false row event q) next staged)

  up :
      (k : ℕ)
      → row.type ≡ integer
      → parse_int (current p.edits row) ≡ some n
      → AtLeast (min_of row) n
      → AtMost (max_of row) n
      → parse_int (current (presses fractional row increased k p).edits row)
        ≡ some (at_most (max_of row) (n +ℤ pos k))
  up zero t h a b = h ∙ ap some (sym (start_up (max_of row) n b))
  up (suc k) t h a b =
      (more (presses fractional row increased k p) increased (pos 1)
        (at_most (max_of row) (n +ℤ pos k)) (at_most (max_of row) (n +ℤ pos (suc k))) t
        (inl (refl, refl)) (up k t h a b) (up_once (min_of row) (max_of row) n k a b)).1

  down :
      (k : ℕ)
      → row.type ≡ integer
      → parse_int (current p.edits row) ≡ some n
      → AtLeast (min_of row) n
      → AtMost (max_of row) n
      → parse_int (current (presses fractional row decreased k p).edits row)
        ≡ some (at_least (min_of row) (n +ℤ minus k))
  down zero t h a b = h ∙ ap some (sym (start_down (min_of row) n a))
  down (suc k) t h a b =
      (more (presses fractional row decreased k p) decreased (negsuc 0)
        (at_least (min_of row) (n +ℤ minus k)) (at_least (min_of row) (n +ℤ minus (suc k))) t
        (inr (refl, refl)) (down k t h a b) (down_once (min_of row) (max_of row) n k a b)).1

  -- From a number within its bounds, presses of an integer option's upper button stage the number
  -- increased by as many, but no more than the maximum, and presses of the lower one the number
  -- decreased by as many, but no less than the minimum.
  pub presses_lem :
      (k : ℕ)
      → row.type ≡ integer
      → parse_int (current p.edits row) ≡ some n
      → AtLeast (min_of row) n
      → AtMost (max_of row) n
      → (lookup row.key (presses fractional row increased (suc k) p).edits
          ≡ some (show_int (at_most (max_of row) (n +ℤ pos (suc k)))))
        × (lookup row.key (presses fractional row decreased (suc k) p).edits
            ≡ some (show_int (at_least (min_of row) (n +ℤ negsuc k))))
  presses_lem k t h a b = (
    (more (presses fractional row increased k p) increased (pos 1)
        (at_most (max_of row) (n +ℤ pos k)) (at_most (max_of row) (n +ℤ pos (suc k))) t
        (inl (refl, refl)) (up k t h a b) (up_once (min_of row) (max_of row) n k a b)).0,
    (more (presses fractional row decreased k p) decreased (negsuc 0)
        (at_least (min_of row) (n +ℤ minus k)) (at_least (min_of row) (n +ℤ minus (suc k))) t
        (inr (refl, refl)) (down k t h a b) (down_once (min_of row) (max_of row) n k a b)).0,
  )

clamp_range :
    (low high : Option ℕ) (n : ℤ)
    → ((l h : ℕ) → low ≡ some l → high ≡ some h → l ≤ h)
    → AtLeast low (at_most high (at_least low n)) × AtMost high (at_most high (at_least low n))
clamp_range none none n c = (tt, tt)
clamp_range none (some h) n c = (tt, ground arith)
clamp_range (some l) none n c = (ground arith, tt)
clamp_range (some l) (some h) n c = let p : l ≤ h = c l h refl refl in ground arith

-- Whatever text stands in the field, one that is no number among them, a press of a button stages a
-- number within the bounds, where the minimum is no more than the maximum.
pub press_range :
    (fractional : Fractional) (row : Row) (event : ControlEvent) (p : Panel)
    → row.type ≡ integer
    → (event ≡ increased) ⊎ (event ≡ decreased)
    → ((l h : ℕ) → min_of row ≡ some l → max_of row ≡ some h → l ≤ h)
    → (n : ℤ) × (lookup row.key (use_control fractional false row event p).edits
        ≡ some (show_int n))
      × AtLeast (min_of row) n
      × AtMost (max_of row) n
press_range fractional row event p t (inl e) c =
    let n =
      at_most (max_of row)
        (at_least (min_of row) (coalesce (parse_int (current p.edits row)) (pos 0) +ℤ pos 1)) in
    let (a, b) =
      clamp_range (min_of row) (max_of row)
        (coalesce (parse_int (current p.edits row)) (pos 0) +ℤ pos 1) c in
    (n, press fractional row event (pos 1) p t (inl (e, refl)) ∙ (unfold bump in refl), a, b)
press_range fractional row event p t (inr e) c =
    let n =
      at_most (max_of row)
        (at_least (min_of row) (coalesce (parse_int (current p.edits row)) (pos 0) +ℤ negsuc 0)) in
    let (a, b) =
      clamp_range (min_of row) (max_of row)
        (coalesce (parse_int (current p.edits row)) (pos 0) +ℤ negsuc 0) c in
    (n, press fractional row event (negsuc 0) p t (inr (e, refl)) ∙ (unfold bump in refl), a, b)
