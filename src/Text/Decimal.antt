-- ===== src/Text/Decimal.antt =====
-- `parseInt(s, 10)` and `String(n)` of an integer. JavaScript's numbers are exact up to 2 ^ 53, and
-- these are the integers.
use rcon_ui.Base.{
  ℕ, zero, suc, ◌+◌, ◌-◌, ◌*◌, ◌/◌, ◌%◌, ◌≤◌, ◌<◌, ◌≡◌, refl, ap, ◌∙◌, inl, inr, Bool, true, false,
  ◌&&◌, Option, none, some, [], ◌∷◌, ◌++◌, arith, ltb, leb, ◌==◌, if◌then◌else◌, ltb→lt, Bool-cases,
  length, length-append, All, All-append,
}
use rcon_ui.Base.Int.{ℤ, pos, negsuc}
use rcon_ui.Text.{Text}
use rcon_ui.Text.Trim.{is_space, trim_start}

abbrev pub is_digit : ℕ → Bool
is_digit c = leb b'0' c && leb c b'9'

-- The longest prefix of digits.
abbrev pub digits_from : ℕ → Text → ℕ
digits_from n [] = n
digits_from n (c ∷ s) =
    let rest = digits_from (n * 10 + (c - b'0')) s in if is_digit c then rest else n

-- None for NaN: there is no digit.
abbrev pub unsigned : Text → Option ℕ
unsigned [] = none
unsigned (c ∷ s) = if is_digit c then some (digits_from 0 (c ∷ s)) else none

abbrev pub negated : Option ℕ → Option ℤ
negated none = none
negated (some zero) = some (pos 0)
negated (some (suc n)) = some (negsuc n)

abbrev pub positive : Option ℕ → Option ℤ
positive none = none
positive (some n) = some (pos n)

abbrev pub signed : Text → Option ℤ
signed [] = none
signed (c ∷ s) =
    if c == b'-'
    then negated (unsigned s)
    else if c == b'+'
    then positive (unsigned s)
    else positive (unsigned (c ∷ s))

unfoldable pub parse_int : Text → Option ℤ
unfolding trim_start is_space
parse_int s = signed (trim_start s)

-- The digits of a number below 10 ^ fuel; a number itself is fuel enough.
abbrev pub digits : ℕ → ℕ → Text
digits zero n = []
digits (suc fuel) n =
    let front = digits fuel (n / 10) in
    if ltb n 10 then (b'0' + n) ∷ [] else front ++ (b'0' + n % 10) ∷ []

abbrev pub show_nat : ℕ → Text
show_nat n = digits (suc n) n

unfoldable pub show_int : ℤ → Text
show_int (pos n) = show_nat n
show_int (negsuc n) = b'-' ∷ show_nat (suc n)

abbrev IsDigit : ℕ → Type 0
IsDigit c = is_digit c ≡ true

digits-IsDigit : (fuel n : ℕ) → All IsDigit (digits fuel n)
digits-IsDigit zero n = tt
digits-IsDigit (suc fuel) n = elim (Bool-cases (ltb n 10)) [
  | inl b ↦ rw b (ground arith, tt)
  | inr b ↦ rw b (
      All-append IsDigit (digits fuel (n / 10)) ((b'0' + n % 10) ∷ [])
        (digits-IsDigit fuel (n / 10)) (ground arith, tt))
]

length-digits : (fuel n : ℕ) → 1 ≤ length (digits (suc fuel) n)
length-digits fuel n = elim (Bool-cases (ltb n 10)) [
  | inl b ↦ rw b (omega arith)
  | inr b ↦ rw b (omega (arith, length-append (digits fuel (n / 10)) ((b'0' + n % 10) ∷ [])))
]

digits_from-append :
    (m : ℕ) (s t : Text) → All IsDigit s → digits_from m (s ++ t) ≡ digits_from (digits_from m s) t
digits_from-append m [] t h = refl
digits_from-append m (c ∷ s) t (p, h) = rw p (digits_from-append (m * 10 + (c - b'0')) s t h)

digits_from_one : (m d : ℕ) → d < 10 → digits_from m ((b'0' + d) ∷ []) ≡ m * 10 + d
digits_from_one m d h = ground arith

digits_from-digits : (fuel n : ℕ) → n < fuel → digits_from 0 (digits fuel n) ≡ n
digits_from-digits zero n h = absurd (omega arith)
digits_from-digits (suc fuel) n h = elim (Bool-cases (ltb n 10)) [
  | inl b ↦ rw b (digits_from_one 0 n (ltb→lt n 10 b) ∙ omega arith)
  | inr b ↦
      let big : 10 ≤ n = ground arith in
      rw b (
        digits_from-append 0 (digits fuel (n / 10)) ((b'0' + n % 10) ∷ [])
          (digits-IsDigit fuel (n / 10))
        ∙ ap (λ m. digits_from m ((b'0' + n % 10) ∷ []))
            (digits_from-digits fuel (n / 10) (omega arith))
        ∙ digits_from_one (n / 10) (n % 10) (omega arith)
        ∙ omega arith)
]

unsigned_digits : (s : Text) → All IsDigit s → 1 ≤ length s → unsigned s ≡ some (digits_from 0 s)
unsigned_digits [] h l = absurd (omega arith)
unsigned_digits (c ∷ s) (p, h) l = rw p refl

unsigned-show_nat : (n : ℕ) → unsigned (show_nat n) ≡ some n
unsigned-show_nat n =
    unsigned_digits (show_nat n) (digits-IsDigit (suc n) n) (length-digits n n)
    ∙ ap some (digits_from-digits (suc n) n (omega arith))

signed_digits : (s : Text) → All IsDigit s → signed s ≡ positive (unsigned s)
signed_digits [] h = refl
signed_digits (c ∷ s) (p, h) =
    let no_minus : (c == b'-') ≡ false = ground arith in
    let no_plus : (c == b'+') ≡ false = ground arith in rw no_minus (rw no_plus refl)

trim_start_digits : (s : Text) → All IsDigit s → trim_start s ≡ s
unfolding trim_start is_space
trim_start_digits [] h = refl
trim_start_digits (c ∷ s) (p, h) = ground arith

-- Every integer that is written is read back.
pub parse_int-show_int : (n : ℤ) → parse_int (show_int n) ≡ some n
unfolding parse_int show_int
parse_int-show_int (pos n) =
    ap signed (trim_start_digits (show_nat n) (digits-IsDigit (suc n) n))
    ∙ signed_digits (show_nat n) (digits-IsDigit (suc n) n)
    ∙ ap positive (unsigned-show_nat n)
parse_int-show_int (negsuc n) = ap negated (unsigned-show_nat (suc n))
