-- ===== src/Rcon/Packet/Roundtrip.antt =====
-- A packet that is written is read back.
use rcon_ui.Base.{
  ℕ, ◌+◌, ◌-◌, ◌*◌, ◌%◌, ◌^◌, ◌≤◌, ◌<◌, ◌≡◌, refl, sym, ap, ◌∙◌, true, false, List, [], ◌∷◌, ◌++◌,
  arith, ltb, leb, length, take, drop, length-append,
}
use rcon_ui.Base.Int.{ℤ, pos, negsuc, ◌≤ℤ◌}
use rcon_ui.Rcon.Utf8.{valid_utf8, decode_body}
use rcon_ui.Rcon.Packet.{
  Reader, Ending, Packet, got, to_uint32, to_int32, put_uint32, get_uint32, encode, read_full,
  trim_nuls, of_payload, read_payload, decode_packet, max_packet_size, header_size, max_body_size,
}

abbrev pub IsInt32 : ℤ → Type 0
IsInt32 n = (negsuc (2 ^ 31 - 1) ≤ℤ n) × (n ≤ℤ pos (2 ^ 31 - 1))

to_int32-to_uint32 : (n : ℤ) → IsInt32 n → to_int32 (to_uint32 n) ≡ n
unfolding to_int32 to_uint32
to_int32-to_uint32 (pos n) h = ground arith
to_int32-to_uint32 (negsuc n) h = ground arith

to_uint32-lt : (n : ℤ) → to_uint32 n < 2 ^ 32
unfolding to_uint32
to_uint32-lt (pos n) = omega arith
to_uint32-lt (negsuc n) = omega arith

get_uint32-put_uint32 : (u : ℕ) (s : List ℕ) → u < 2 ^ 32 → get_uint32 (put_uint32 u ++ s) ≡ u
unfolding put_uint32
get_uint32-put_uint32 u s h = omega arith

-- A body that ends in no NUL comes back without the two that are written after it.
trim_nuls-pad : (s : List ℕ) → trim_nuls (s ++ 0 ∷ 0 ∷ []) ≡ trim_nuls s
unfolding trim_nuls
trim_nuls-pad [] = refl
trim_nuls-pad (b ∷ s) = rw (trim_nuls-pad s) refl

abbrev fields : Packet → List ℕ
fields p = put_uint32 (to_uint32 p.id) ++ (put_uint32 (to_uint32 p.typ) ++ (p.body ++ 0 ∷ 0 ∷ []))

-- What a sender must see to: fields in the range of int32, and a body of UTF-8 that ends in no NUL
-- and fits the reader's limit.
pub record IsSendable (p : Packet) : Type 0 where
  pub id_range : IsInt32 p.id
  pub typ_range : IsInt32 p.typ
  pub trimmed : trim_nuls p.body ≡ p.body
  pub text : valid_utf8 p.body ≡ true
  pub fits : length p.body ≤ max_body_size * 2

drop-put_uint32 : (u : ℕ) (s : List ℕ) → drop 4 (put_uint32 u ++ s) ≡ s
unfolding put_uint32
drop-put_uint32 u s = refl

drop-put_put : (u v : ℕ) (s : List ℕ) → drop 8 (put_uint32 u ++ (put_uint32 v ++ s)) ≡ s
unfolding put_uint32
drop-put_put u v s = refl

length-put_uint32 : (u : ℕ) (s : List ℕ) → length (put_uint32 u ++ s) ≡ length s + 4
unfolding put_uint32
length-put_uint32 u s = omega arith

append-put_uint32 : (u : ℕ) (s t : List ℕ) → (put_uint32 u ++ s) ++ t ≡ put_uint32 u ++ (s ++ t)
unfolding put_uint32
append-put_uint32 u s t = refl

decode_body_text : (s : List ℕ) → valid_utf8 s ≡ true → decode_body s ≡ s
unfolding decode_body
decode_body_text s v = rw v refl

-- What any packet must be for the reader to take it: fields that are four bytes each, and a body within
-- the limit, of whatever bytes.
pub record IsFramed (p : Packet) : Type 0 where
  pub id_range : IsInt32 p.id
  pub typ_range : IsInt32 p.typ
  pub fits : length p.body ≤ max_body_size * 2

-- The packet as the reader hands it on: without the NULs at its end, and with a body that is no UTF-8
-- read as Latin-1.
abbrev pub cleaned : Packet → Packet
cleaned p = record p { body = decode_body (trim_nuls p.body) }

of_payload-fields : (p : Packet) → IsFramed p → of_payload (fields p) ≡ cleaned p
unfolding of_payload
of_payload-fields p v =
    let a = to_uint32 p.id in
    let b = to_uint32 p.typ in
    let rest = p.body ++ 0 ∷ 0 ∷ [] in
    let q_id : to_int32 (get_uint32 (fields p)) ≡ p.id =
      ap to_int32 (get_uint32-put_uint32 a (put_uint32 b ++ rest) (to_uint32-lt p.id))
      ∙ to_int32-to_uint32 p.id v.id_range in
    let q_typ : to_int32 (get_uint32 (drop 4 (fields p))) ≡ p.typ =
      ap (λ s. to_int32 (get_uint32 s)) (drop-put_uint32 a (put_uint32 b ++ rest))
      ∙ ap to_int32 (get_uint32-put_uint32 b rest (to_uint32-lt p.typ))
      ∙ to_int32-to_uint32 p.typ v.typ_range in
    let q_body : decode_body (trim_nuls (drop 8 (fields p))) ≡ decode_body (trim_nuls p.body) =
      ap (λ s. decode_body (trim_nuls s)) (drop-put_put a b rest)
      ∙ ap decode_body (trim_nuls-pad p.body) in
    λ i. record { id = q_id i; typ = q_typ i; body = q_body i }

length-fields : (p : Packet) → length (fields p) ≡ header_size + length p.body
length-fields p = omega (
  arith,
  length-put_uint32 (to_uint32 p.id) (put_uint32 (to_uint32 p.typ) ++ (p.body ++ 0 ∷ 0 ∷ [])),
  length-put_uint32 (to_uint32 p.typ) (p.body ++ 0 ∷ 0 ∷ []),
  length-append p.body (0 ∷ 0 ∷ []),
)

pub length-encode : (p : Packet) → length (encode p) ≡ 4 + (header_size + length p.body)
unfolding encode
length-encode p =
    omega (
      arith,
      length-put_uint32 ((header_size + length p.body) % 2 ^ 32) (fields p),
      length-fields p,
    )

take_append {ℓ} : {A : Type ℓ} (xs ys : List A) → take (length xs) (xs ++ ys) ≡ xs
take_append [] ys = refl
take_append (x ∷ xs) ys = ap (λ l. x ∷ l) (take_append xs ys)

drop_append {ℓ} : {A : Type ℓ} (xs ys : List A) → drop (length xs) (xs ++ ys) ≡ ys
drop_append [] ys = refl
drop_append (x ∷ xs) ys = drop_append xs ys

pub read_full-append :
    (n : ℕ) (xs ys : List ℕ) (e : Ending)
    → n ≡ length xs
    → read_full n (record { bytes = xs ++ ys; ending = e })
      ≡ got xs (record { bytes = ys; ending = e })
unfolding read_full
read_full-append n xs ys e h =
    let enough : leb (length xs) (length (xs ++ ys)) ≡ true = ground (arith, length-append xs ys) in
    rw h (rw enough (rw (take_append xs ys) (rw (drop_append xs ys) refl)))

no_less : (n : ℕ) → ltb (header_size + n) header_size ≡ false
no_less n = ground arith

no_more : (n : ℕ) → n ≤ max_body_size * 2 → ltb max_packet_size (header_size + n) ≡ false
no_more n h = ground arith

four : (u : ℕ) → 4 ≡ length (put_uint32 u)
unfolding put_uint32
four u = refl

read_payload-fields :
    (p : Packet) (rest : List ℕ) (e : Ending)
    → IsFramed p
    → read_payload
        (pos (header_size + length p.body))
        (record { bytes = fields p ++ rest; ending = e })
      ≡ got (cleaned p) (record { bytes = rest; ending = e })
unfolding read_payload
read_payload-fields p rest e v =
    let long : ltb (header_size + length p.body) header_size ≡ false = no_less (length p.body) in
    let short : ltb max_packet_size (header_size + length p.body) ≡ false =
      no_more (length p.body) v.fits in
    rw long (
      rw short (
        rw
          (read_full-append (header_size + length p.body) (fields p) rest e (sym (length-fields p)))
          (rw (of_payload-fields p v) refl)))

prefix_lem : (n : ℕ) → n < 2 ^ 31 → to_int32 (get_uint32 (put_uint32 (n % 2 ^ 32))) ≡ pos n
unfolding to_int32 put_uint32
prefix_lem n h = ground arith

decode_packet_prefix :
    (r : Reader) (prefix : List ℕ) (r' : Reader)
    → read_full 4 r ≡ got prefix r'
    → decode_packet r ≡ read_payload (to_int32 (get_uint32 prefix)) r'
unfolding decode_packet
decode_packet_prefix r prefix r' h = rw (h, decode_packet) refl

pub decode_packet-framed :
    (p : Packet) (rest : List ℕ) (e : Ending)
    → IsFramed p
    → decode_packet (record { bytes = encode p ++ rest; ending = e })
      ≡ got (cleaned p) (record { bytes = rest; ending = e })
unfolding encode
decode_packet-framed p rest e v =
    let size = header_size + length p.body in
    let small : size < 2 ^ 31 = omega (arith, v.fits) in
    let after : Reader = record { bytes = fields p ++ rest; ending = e } in
    ap (λ s. decode_packet (record { bytes = s; ending = e }))
      (append-put_uint32 (size % 2 ^ 32) (fields p) rest)
    ∙ decode_packet_prefix
        (record { bytes = put_uint32 (size % 2 ^ 32) ++ (fields p ++ rest); ending = e })
        (put_uint32 (size % 2 ^ 32)) after
        (read_full-append 4 (put_uint32 (size % 2 ^ 32)) (fields p ++ rest) e
          (four (size % 2 ^ 32)))
    ∙ ap (λ n. read_payload n after) (prefix_lem size small)
    ∙ read_payload-fields p rest e v

sendable-IsFramed : (p : Packet) → IsSendable p → IsFramed p
sendable-IsFramed p v = record { id_range = v.id_range; typ_range = v.typ_range; fits = v.fits }

cleaned_lem : (p : Packet) → IsSendable p → cleaned p ≡ p
cleaned_lem p v =
    ap (λ b. record p { body = b }) (ap decode_body v.trimmed ∙ decode_body_text p.body v.text)

-- A packet that can be sent is read back whole from the bytes that are written for it, and the reader
-- stands at the byte after them, whatever follows and however the stream ends.
pub decode_packet-encode :
    (p : Packet) (rest : List ℕ) (e : Ending)
    → IsSendable p
    → decode_packet (record { bytes = encode p ++ rest; ending = e })
      ≡ got p (record { bytes = rest; ending = e })
decode_packet-encode p rest e v =
    decode_packet-framed p rest e (sendable-IsFramed p v)
    ∙ ap (λ q. got q (record { bytes = rest; ending = e })) (cleaned_lem p v)
