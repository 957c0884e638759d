-- ===== src/Rcon/Utf8/Laws.antt =====
-- What decodeBody yields.
use rcon_ui.Base.{
  ℕ, ◌+◌, ◌*◌, ◌/◌, ◌%◌, ◌≤◌, ◌<◌, ◌≡◌, refl, sym, ◌∙◌, inl, inr, true, false, some, List, [], ◌∷◌,
  ◌++◌, arith, ltb, Bool-cases, length, length-append, All,
}
use rcon_ui.Rcon.Utf8.{followers, scan, valid_utf8, write_rune, latin1, decode_body}

abbrev pub IsByte : ℕ → Type 0
IsByte b = b < 256

leads_alone : (c : ℕ) → ltb c 0x80 ≡ true → followers c ≡ some []
leads_alone c e = ground arith

leads_one :
    (c : ℕ) → ltb c 0x80 ≡ false → IsByte c → followers (0xc0 + c / 64) ≡ some ((0x80, 0xbf) ∷ [])
leads_one c e h = ground arith

scan_lead :
    (b : ℕ) (qs : List (ℕ × ℕ)) (s : List ℕ) → followers b ≡ some qs → scan [] (b ∷ s) ≡ scan qs s
unfolding scan
scan_lead b qs s e = rw (e, scan)

scan_follower :
    (b : ℕ) (s : List ℕ) → 0x80 ≤ b → b ≤ 0xbf → scan ((0x80, 0xbf) ∷ []) (b ∷ s) ≡ scan [] s
unfolding scan
scan_follower b s l h = ground arith

scan-write_rune : (c : ℕ) (s : List ℕ) → IsByte c → scan [] (write_rune c ++ s) ≡ scan [] s
scan-write_rune c s h = elim (Bool-cases (ltb c 0x80)) [
  | inl e ↦ rw e (scan_lead c [] s (leads_alone c e))
  | inr e ↦ rw e (
      scan_lead (0xc0 + c / 64) ((0x80, 0xbf) ∷ []) ((0x80 + c % 64) ∷ s) (leads_one c e h)
      ∙ scan_follower (0x80 + c % 64) s (omega arith) (omega arith))
]

scan-latin1 : (s : List ℕ) → All IsByte s → scan [] (latin1 s) ≡ true
unfolding latin1
scan-latin1 [] h = unfold scan in refl
scan-latin1 (c ∷ s) (p, h) = scan-write_rune c (latin1 s) p ∙ scan-latin1 s h

-- Whatever bytes a server sends, the body is valid UTF-8, and a body that is valid is unchanged.
pub decode_body-valid :
    (b : List ℕ)
    → All IsByte b
    → (valid_utf8 (decode_body b) ≡ true) × (valid_utf8 b ≡ true → decode_body b ≡ b)
unfolding decode_body
decode_body-valid b h = elim (Bool-cases (valid_utf8 b)) [
  | inl v ↦ rw v (v, λ e. refl)
  | inr n ↦ rw n (unfold valid_utf8 in scan-latin1 b h, λ e. cc)
]

length-latin1 : (s : List ℕ) → (length s ≤ length (latin1 s)) × (length (latin1 s) ≤ 2 * length s)
unfolding latin1
length-latin1 [] = omega arith
length-latin1 (c ∷ s) = elim (Bool-cases (ltb c 0x80)) [
  | inl e ↦ rw e (omega (arith, length-latin1 s))
  | inr e ↦ rw e (omega (arith, length-latin1 s))
]

pub length-decode_body :
    (b : List ℕ) → (length b ≤ length (decode_body b)) × (length (decode_body b) ≤ 2 * length b)
unfolding decode_body
length-decode_body b = elim (Bool-cases (valid_utf8 b)) [
  | inl v ↦ rw v (omega arith)
  | inr n ↦ rw n (length-latin1 b)
]

-- Text that is not UTF-8 has a byte above ASCII, which takes two bytes when it is read as Latin-1.
latin1-longer : (s : List ℕ) → scan [] s ≡ false → length s < length (latin1 s)
unfolding latin1
latin1-longer [] h = absurd (unfold scan in cc)
latin1-longer (c ∷ s) h = elim (Bool-cases (ltb c 0x80)) [
  | inl e ↦ rw e (omega (arith, latin1-longer s (sym (scan_lead c [] s (leads_alone c e)) ∙ h)))
  | inr e ↦ rw e (omega (arith, length-latin1 s))
]

-- Valid text that is cut into two bodies in the middle of a character, so that the first is not
-- valid, comes back as a longer text than it was.
pub decode_body_split :
    (a b : List ℕ)
    → valid_utf8 (a ++ b) ≡ true
    → valid_utf8 a ≡ false
    → (decode_body (a ++ b) ≡ a ++ b)
      × (length (decode_body (a ++ b)) < length (decode_body a ++ decode_body b))
unfolding decode_body
decode_body_split a b whole cut =
    let kept : decode_body (a ++ b) ≡ a ++ b = rw whole refl in
    let longer : length a < length (decode_body a) = rw cut (latin1-longer a cut) in
    (
      kept,
      rw kept (
          omega (
            arith,
            longer,
            length-append a b,
            length-append (decode_body a) (decode_body b),
            length-decode_body b,
          )),
    )
