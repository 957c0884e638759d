-- ===== src/Rcon/Packet/Bounds.antt =====
-- How much a packet takes of the stream, and what is known of one that was read.
use rcon_ui.Base.{
  ℕ, zero, suc, ◌+◌, ◌-◌, ◌*◌, ◌^◌, ◌≤◌, ◌<◌, ◌≡◌, refl, sym, ap, ◌∙◌, ◌⊎◌, inl, inr, true, List,
  [], ◌∷◌, arith, ltb, leb, leb→le, Bool-cases, length, take, drop, length-drop, length-take, All,
  All-drop,
}
use rcon_ui.Base.Int.{ℤ, pos, negsuc}
use rcon_ui.Rcon.Utf8.{valid_utf8}
use rcon_ui.Rcon.Utf8.Laws.{IsByte, decode_body-valid, length-decode_body}
use rcon_ui.Rcon.Packet.{
  get_uint32, to_int32, after_prefix, decode_packet, ReadError, packet_of, Packet, Reader, Read,
  got, error, read_full, trim_nuls, of_payload, read_payload, max_packet_size, header_size,
}

pub read_full_got :
    (n : ℕ) (r : Reader) (xs : List ℕ) (r' : Reader)
    → read_full n r ≡ got xs r'
    → (n ≤ length r.bytes) × (xs ≡ take n r.bytes) × (r' ≡ record r { bytes = drop n r.bytes })
unfolding read_full
read_full_got n r xs r' h = elim (Bool-cases (leb n (length r.bytes))) [
  | inl e ↦ (leb→le n (length r.bytes) e, ground arith, ground arith)
  | inr e ↦ ground arith
]

length-trim_nuls : (s : List ℕ) → length (trim_nuls s) ≤ length s
unfolding trim_nuls
length-trim_nuls [] = omega arith
length-trim_nuls (b ∷ s) = ground (arith, length-trim_nuls s)

All-trim_nuls : (s : List ℕ) → All IsByte s → All IsByte (trim_nuls s)
unfolding trim_nuls
All-trim_nuls [] h = tt
All-trim_nuls (b ∷ s) (p, h) = ground (arith, All-trim_nuls s h)

All-take : (n : ℕ) (s : List ℕ) → All IsByte s → All IsByte (take n s)
All-take zero s h = tt
All-take (suc n) [] h = tt
All-take (suc n) (b ∷ s) (p, h) = (p, All-take n s h)

-- A payload gives a body of UTF-8, at most twice as long as what it holds after the two numbers.
of_payload_lem :
    (payload : List ℕ)
    → All IsByte payload
    → (valid_utf8 (of_payload payload).body ≡ true)
      × (length (of_payload payload).body ≤ 2 * (length payload - 8))
unfolding of_payload
of_payload_lem payload h =
    let rest = drop 8 payload in
    let bytes = All-trim_nuls rest (All-drop IsByte 8 payload h) in
    (
      (decode_body-valid (trim_nuls rest) bytes).0,
      omega (
        arith,
        length-decode_body (trim_nuls rest),
        length-trim_nuls rest,
        length-drop 8 payload,
      ),
    )

-- What reading a packet of a size takes from the stream.
pub record IsRead (size : ℕ) (r : Reader) (p : Packet) (r' : Reader) : Type 0 where
  pub long : header_size ≤ size
  pub short : size ≤ max_packet_size
  pub there : size ≤ length r.bytes
  pub packet : p ≡ of_payload (take size r.bytes)
  pub left : r' ≡ record r { bytes = drop size r.bytes }

no_packet : (e : ReadError) (p : Packet) (r : Reader) → error e ≡ got p r → ⊥
no_packet e p r h = cc

packet_of_got :
    (res : Read (List ℕ)) (p : Packet) (r' : Reader)
    → packet_of res ≡ got p r'
    → (xs : List ℕ) × (res ≡ got xs r') × (p ≡ of_payload xs)
packet_of_got (error e) p r' h = cc
packet_of_got (got xs r) p r' h = (xs, cc, cc)

read_payload_got :
    (n : ℤ) (r : Reader) (p : Packet) (r' : Reader)
    → read_payload n r ≡ got p r'
    → (size : ℕ) × (n ≡ pos size) × IsRead size r p r'
unfolding read_payload
read_payload_got (negsuc n) r p r' h = cc
read_payload_got (pos size) r p r' h = elim (Bool-cases (ltb size header_size)) [
  | inl e ↦ absurd (no_packet _ p r' (rw e at h))
  | inr e ↦ elim (Bool-cases (ltb max_packet_size size)) [
    | inl f ↦ absurd (no_packet _ p r' (rw f at (rw e at h)))
    | inr f ↦
        let (xs, q, body) = packet_of_got (read_full size r) p r' (rw f at (rw e at h)) in
        let (there, part, left) = read_full_got size r xs r' q in
        (
          size,
          refl,
          record {
            long = ground arith;
            short = ground arith;
            there = there;
            packet = body ∙ ap of_payload part;
            left = left;
          },
        )
  ]
]

after_prefix_got :
    (res : Read (List ℕ)) (p : Packet) (r' : Reader)
    → after_prefix res ≡ got p r'
    → (prefix : List ℕ) × (r : Reader) × (res ≡ got prefix r)
      × (read_payload (to_int32 (get_uint32 prefix)) r ≡ got p r')
after_prefix_got (error e) p r' h = absurd (no_packet e p r' h)
after_prefix_got (got prefix r) p r' h = (prefix, r, refl, h)

-- Reading a packet shortens the stream.
pub decode_packet_shorter :
    (r : Reader) (p : Packet) (r' : Reader)
    → decode_packet r ≡ got p r'
    → length r'.bytes < length r.bytes
unfolding decode_packet
decode_packet_shorter r p r' h =
    let (prefix, s, first, then_read) = after_prefix_got (read_full 4 r) p r' h in
    let (four, part, left) = read_full_got 4 r prefix s first in
    let (size, same, v) = read_payload_got (to_int32 (get_uint32 prefix)) s p r' then_read in
    omega (
      arith,
      four,
      v.long,
      v.there,
      length-drop 4 r.bytes,
      length-drop size s.bytes,
      ap (λ (x : Reader). length x.bytes) left,
      ap (λ (x : Reader). length x.bytes) v.left,
    )

pub Read-cases {ℓ} :
    {A : Type ℓ} (res : Read A)
    → ((e : ReadError) × (res ≡ error e)) ⊎ ((a : A) × (r : Reader) × (res ≡ got a r))
Read-cases (error e) = inl (e, refl)
Read-cases (got a r) = inr (a, r, refl)

not_pos : (m n : ℕ) → negsuc m ≡ pos n → ⊥
not_pos m n h = cc

to_int32-pos : (u n : ℕ) → to_int32 u ≡ pos n → u ≡ n
unfolding to_int32
to_int32-pos u n h = elim (Bool-cases (ltb u (2 ^ 31))) [
  | inl e ↦ cc (rw e at h)
  | inr e ↦ absurd (not_pos _ n (rw e at h))
]

-- The bytes of a length prefix, and the number that they are, the lowest byte first.
split_four :
    (bytes : List ℕ) (size : ℕ)
    → 4 ≤ length bytes
    → get_uint32 (take 4 bytes) ≡ size
    → (a b c d : ℕ) × (rest : List ℕ) × (bytes ≡ a ∷ b ∷ c ∷ d ∷ rest)
      × (size ≡ a + 256 * (b + 256 * (c + 256 * d)))
split_four (a ∷ b ∷ c ∷ d ∷ rest) size h q = (a, b, c, d, rest, refl, omega arith)
split_four [] size h q = absurd (omega (arith, h))
split_four (a ∷ []) size h q = absurd (omega (arith, h))
split_four (a ∷ b ∷ []) size h q = absurd (omega (arith, h))
split_four (a ∷ b ∷ c ∷ []) size h q = absurd (omega (arith, h))

-- Whatever bytes a peer sends, a packet that is read takes the four bytes of the length and as many
-- as they say, the lowest byte first, between 10 and 8202; the reader stands at the next byte; and
-- the body is valid UTF-8 of at most twice the bytes that came for it.
pub decode_packet_got :
    (r : Reader) (p : Packet) (r' : Reader)
    → All IsByte r.bytes
    → decode_packet r ≡ got p r'
    → (size : ℕ) × (header_size ≤ size)
      × (size ≤ max_packet_size)
      × ((a b c d : ℕ) × (rest : List ℕ) × (r.bytes ≡ a ∷ b ∷ c ∷ d ∷ rest)
          × (size ≡ a + 256 * (b + 256 * (c + 256 * d))))
      × (size + 4 ≤ length r.bytes)
      × (r' ≡ record r { bytes = drop size (drop 4 r.bytes) })
      × (valid_utf8 p.body ≡ true)
      × (length p.body ≤ 2 * (size - 8))
unfolding decode_packet
decode_packet_got r p r' bytes h =
    let (prefix, s, first, then_read) = after_prefix_got (read_full 4 r) p r' h in
    let (four, part, left) = read_full_got 4 r prefix s first in
    let (size, same, v) = read_payload_got (to_int32 (get_uint32 prefix)) s p r' then_read in
    let rest : s.bytes ≡ drop 4 r.bytes = ap (λ (x : Reader). x.bytes) left in
    let payload = take size s.bytes in
    let clean : All IsByte payload =
      All-take size s.bytes (rw rest (All-drop IsByte 4 r.bytes bytes)) in
    let (text, room) = of_payload_lem payload clean in
    (
      size,
      v.long,
      v.short,
      split_four r.bytes size four
          (ap get_uint32 (sym part) ∙ to_int32-pos (get_uint32 prefix) size same),
      omega (arith, v.there, length-drop 4 r.bytes, ap length rest),
      v.left ∙ rw left refl,
      rw v.packet text,
      rw v.packet (omega (arith, room, length-take size s.bytes)),
    )
