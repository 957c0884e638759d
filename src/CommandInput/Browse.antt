-- ===== src/CommandInput/Browse.antt =====
-- Stepping through the history and back.
use rcon_ui.Base.{
  ℕ, zero, suc, ◌+◌, ◌-◌, ◌≤◌, ◌≡◌, refl, ap, ◌∙◌, ◌≢◌, inl, inr, Option, none, some, List, [], ◌∷◌,
  arith, ◌==◌, ==_iff, Bool-cases, length, get_elem?, get_elem?_of_lt,
}
use rcon_ui.Text.{Text}
use rcon_ui.CommandInput.{Input, arrow_up, arrow_down, down_from}

-- `n` presses of the up arrow.
abbrev pub press_up : List Text → ℕ → Input → Input
press_up history zero s = s
press_up history (suc n) s = press_up history n (arrow_up history s)

-- `n` presses of the down arrow; none where one of them throws.
abbrev pub press_down : List Text → ℕ → Input → Option Input
press_down history zero s = some s
press_down history (suc n) s = elim (arrow_down history s) [
  | none ↦ none
  | some s' ↦ press_down history n s'
]

-- The prompt has the draft in hand, shown on a fresh line or kept aside, and its cursor is in the
-- history.
pub record Holds (history : List Text) (draft : Text) (s : Input) : Type 0 where
  pub fresh : s.cursor ≡ 0 → s.value ≡ draft
  pub kept : s.cursor ≢ 0 → s.draft ≡ draft
  pub within : s.cursor ≤ length history

arrow_up-Holds :
    (history : List Text) (draft : Text) (s : Input)
    → Holds history draft s
    → Holds history draft (arrow_up history s) × ((arrow_up history s).cursor ≤ suc s.cursor)
unfolding arrow_up
arrow_up-Holds [] draft s v = (v, omega arith)
arrow_up-Holds (h ∷ hs) draft s v = (
  record {
    fresh = λ e. absurd (omega arith);
    kept = λ ne. elim (Bool-cases (s.cursor == 0)) [
      | inl z ↦ rw z (v.fresh ((==_iff s.cursor 0).0 z))
      | inr p ↦ rw p (v.kept (ground arith))
    ];
    within = omega arith;
  },
  omega arith,
)

press_up-Holds :
    (history : List Text) (draft : Text) (n : ℕ) (s : Input)
    → Holds history draft s
    → Holds history draft (press_up history n s) × ((press_up history n s).cursor ≤ s.cursor + n)
press_up-Holds history draft zero s v = (v, omega arith)
press_up-Holds history draft (suc n) s v =
    let (v', up) = arrow_up-Holds history draft s v in
    let (v'', far) = press_up-Holds history draft n (arrow_up history s) v' in (v'', omega arith)

-- A press of the down arrow does not throw while the cursor is in the history, and goes one step
-- towards the draft.
down_from-Holds :
    (history : List Text) (draft : Text) (c : ℕ) (s : Input)
    → s.cursor ≡ c
    → Holds history draft s
    → (s' : Input) × (down_from history c s ≡ some s')
      × Holds history draft s'
      × (s'.cursor ≡ c - 1)
down_from-Holds history draft zero s e v = (s, refl, v, omega arith)
down_from-Holds history draft (suc zero) s e v = (
  record s { value = s.draft; cursor = 0 },
  refl,
  record { fresh = λ _. v.kept (omega arith); kept = λ ne. absurd (ne refl); within = omega arith },
  omega arith,
)
down_from-Holds history draft (suc (suc n)) s e v =
    let (line, found) = get_elem?_of_lt history n (omega (arith, v.within)) in
    (
      record s { value = line; cursor = suc n },
      ground (arith, found),
      record {
        fresh = λ z. absurd (omega arith);
        kept = λ ne. v.kept (omega arith);
        within = omega (arith, v.within);
      },
      omega arith,
    )

press_down-Holds :
    (history : List Text) (draft : Text) (m : ℕ) (s : Input)
    → s.cursor ≤ m
    → Holds history draft s
    → (r : Input) × (press_down history m s ≡ some r) × (r.value ≡ draft) × (r.cursor ≡ 0)
unfolding arrow_down
press_down-Holds history draft zero s h v = (s, refl, v.fresh (omega arith), omega arith)
press_down-Holds history draft (suc m) s h v =
    let (s', step, v', lower) = down_from-Holds history draft s.cursor s refl v in
    let (r, rest, shown, home) = press_down-Holds history draft m s' (omega arith) v' in
    (r, ground (arith, step, rest), shown, home)

-- Exploring the history never loses the line being typed: after any number of presses of the up
-- arrow on a fresh line, at least as many of the down arrow bring the line back, none throwing.
pub press_down-press_up :
    (history : List Text) (s : Input) (n m : ℕ)
    → s.cursor ≡ 0
    → n ≤ m
    → (r : Input) × (press_down history m (press_up history n s) ≡ some r)
      × (r.value ≡ s.value)
      × (r.cursor ≡ 0)
press_down-press_up history s n m z h =
    let v : Holds history s.value s = record {
      fresh = λ _. refl;
      kept = λ ne. absurd (ne z);
      within = omega arith;
    } in
    let (v', far) = press_up-Holds history s.value n s v in
    press_down-Holds history s.value m (press_up history n s) (omega arith) v'

get_elem?-none : (xs : List Text) (i : ℕ) → length xs ≤ i → get_elem? xs i ≡ none
get_elem?-none [] i h = refl
get_elem?-none (x ∷ xs) zero h = absurd (omega arith)
get_elem?-none (x ∷ xs) (suc i) h = get_elem?-none xs i (omega arith)

-- Where the history has become shorter than where the cursor stands, the down arrow throws.
pub arrow_down_throws :
    (history : List Text) (s : Input) (n : ℕ)
    → s.cursor ≡ suc (suc n)
    → length history ≤ n
    → arrow_down history s ≡ none
unfolding arrow_down
arrow_down_throws history s n e h =
    ap (λ c. down_from history c s) e ∙ ground (arith, get_elem?-none history n h)
