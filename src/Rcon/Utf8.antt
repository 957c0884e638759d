-- ===== src/Rcon/Utf8.antt =====
-- decodeBody of internal/rcon/source/packet.go. `utf8.Valid` is that of Go's library: the lead byte
-- decides how many bytes follow and the range of each.
pub mod Laws
use rcon_ui.Base.{
  ℕ, ◌+◌, ◌/◌, ◌%◌, Bool, true, false, ◌&&◌, Option, none, some, List, [], ◌∷◌, ◌++◌, ltb, leb,
  if◌then◌else◌,
}

-- The bytes that a lead byte asks for, each by its least and its greatest value; none if it leads
-- nothing.
abbrev pub followers : ℕ → Option (List (ℕ × ℕ))
followers b =
    if ltb b 0x80
    then some []
    else if ltb b 0xc2
    then none
    else if ltb b 0xe0
    then some ((0x80, 0xbf) ∷ [])
    else if ltb b 0xe1
    then some ((0xa0, 0xbf) ∷ (0x80, 0xbf) ∷ [])
    else if ltb b 0xed
    then some ((0x80, 0xbf) ∷ (0x80, 0xbf) ∷ [])
    else if ltb b 0xee
    then some ((0x80, 0x9f) ∷ (0x80, 0xbf) ∷ [])
    else if ltb b 0xf0
    then some ((0x80, 0xbf) ∷ (0x80, 0xbf) ∷ [])
    else if ltb b 0xf1
    then some ((0x90, 0xbf) ∷ (0x80, 0xbf) ∷ (0x80, 0xbf) ∷ [])
    else if ltb b 0xf4
    then some ((0x80, 0xbf) ∷ (0x80, 0xbf) ∷ (0x80, 0xbf) ∷ [])
    else if ltb b 0xf5
    then some ((0x80, 0x8f) ∷ (0x80, 0xbf) ∷ (0x80, 0xbf) ∷ [])
    else none

-- The bytes that are still asked for, and the text.
unfoldable pub scan : List (ℕ × ℕ) → List ℕ → Bool
scan [] [] = true
scan (q ∷ qs) [] = false
scan ((lo, hi) ∷ qs) (b ∷ s) = leb lo b && (leb b hi && scan qs s)
scan [] (b ∷ s) = elim (followers b) [ none ↦ false | some qs ↦ scan qs s ]

unfoldable pub valid_utf8 : List ℕ → Bool
unfolding scan
valid_utf8 s = scan [] s

-- `WriteRune(rune(c))` of a byte.
abbrev pub write_rune : ℕ → List ℕ
write_rune c = if ltb c 0x80 then c ∷ [] else (0xc0 + c / 64) ∷ ((0x80 + c % 64) ∷ [])

unfoldable pub latin1 : List ℕ → List ℕ
latin1 [] = []
latin1 (c ∷ s) = write_rune c ++ latin1 s

unfoldable pub decode_body : List ℕ → List ℕ
unfolding valid_utf8 latin1
decode_body b = if valid_utf8 b then b else latin1 b
