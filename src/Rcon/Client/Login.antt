-- ===== src/Rcon/Client/Login.antt =====
-- The handshake.
use rcon_ui.Base.{
  ℕ, zero, suc, ◌+◌, ◌<◌, ◌≡◌, refl, ap, ◌∙◌, ◌↔◌, true, false, Option, none, some, List, [], ◌∷◌,
  ◌++◌, append_assoc, arith, length, length-append, All,
}
use rcon_ui.Base.Int.{ℤ, pos, negsuc}
use rcon_ui.Rcon.Packet.{
  Packet, Reader, Ending, closed, encode, decode_packet, type_auth, type_auth_response,
  auth_failed_id,
}
use rcon_ui.Rcon.Packet.Roundtrip.{IsSendable, decode_packet-encode}
use rcon_ui.Rcon.Client.{
  Client, Failure, auth_failed, ◌==ℤ◌, judge, verdict, settled, after_auth, authenticate,
  next_request_id,
}
use rcon_ui.Rcon.Client.Exchange.{encode_all, length-encode_all, write_ok, ==ℤ_refl}

-- Packets of other types are passed over.
verdict-noise :
    (noise : List Packet) (rounds : ℕ) (id : ℤ) (tail : List ℕ) (e : Ending)
    (out : Option (Option Failure × Reader))
    → length noise < rounds
    → All IsSendable noise
    → All (λ (p : Packet). (p.typ ==ℤ type_auth_response) ≡ false) noise
    → ((k : ℕ) → verdict (suc k) id (record { bytes = tail; ending = e }) ≡ out)
    → verdict rounds id (record { bytes = encode_all noise ++ tail; ending = e }) ≡ out
unfolding verdict encode_all
verdict-noise noise zero id tail e out h sent other last = elim h [ ]
verdict-noise [] (suc rounds) id tail e out h sent other last = last rounds
verdict-noise (p ∷ ps) (suc rounds) id tail e out h (ok, sent) (no_p, other) last =
    rw (append_assoc (encode p) (encode_all ps) tail) (
      rw (decode_packet-encode p (encode_all ps ++ tail) e ok, verdict)
        (rw no_p (verdict-noise ps rounds id tail e out (omega arith) sent other last)))

verdict_last :
    (id : ℤ) (last : Packet) (rest : List ℕ) (e : Ending) (k : ℕ)
    → IsSendable last
    → last.typ ≡ type_auth_response
    → verdict (suc k) id (record { bytes = encode last ++ rest; ending = e })
      ≡ some (judge id last.id, record { bytes = rest; ending = e })
unfolding verdict
verdict_last id last rest e k ok t =
    let same : (last.typ ==ℤ type_auth_response) ≡ true =
      ap (λ n. n ==ℤ type_auth_response) t ∙ ==ℤ_refl type_auth_response in
    rw (decode_packet-encode last rest e ok, verdict) (rw same refl)

-- Fewer bytes than a length takes, and the connection closed.
verdict_closed :
    (id : ℤ) (tail : List ℕ) (k : ℕ)
    → length tail < 4
    → verdict (suc k) id (record { bytes = tail; ending = closed })
      ≡ some (some auth_failed, record { bytes = tail; ending = closed })
unfolding verdict decode_packet
verdict_closed id [] k h = refl
verdict_closed id (a ∷ []) k h = refl
verdict_closed id (a ∷ (b ∷ [])) k h = refl
verdict_closed id (a ∷ (b ∷ (c ∷ []))) k h = refl
verdict_closed id (a ∷ (b ∷ (c ∷ (d ∷ tail)))) k h = absurd (omega arith)

judge_lem :
    (n : ℕ) (answered : ℤ)
    → ((judge (pos n) answered ≡ none) ↔ (answered ≡ pos n))
      × ((judge (pos n) answered ≡ some auth_failed) ↔ (answered ≡ auth_failed_id))
unfolding judge ◌==ℤ◌
judge_lem n (pos m) =
    (((λ h. ground arith), (λ h. ground arith)), ((λ h. ground arith), (λ h. ground arith)))
judge_lem n (negsuc m) =
    (((λ h. ground arith), (λ h. ground arith)), ((λ h. ground arith), (λ h. ground arith)))

-- A handshake whose writes succeed, with a server that sends any packets of other types and then an
-- auth response: that packet's id alone decides. The password is accepted exactly if it is the id of
-- the request, and refused exactly if it is -1; what follows the response is left in the stream.
pub authenticate-answers :
    (password : List ℕ) (c : Client) (noise : List Packet) (last : Packet) (rest : List ℕ)
    (e : Ending)
    → c.writes ≡ []
    → c.reader ≡ record { bytes = encode_all noise ++ (encode last ++ rest); ending = e }
    → All IsSendable noise
    → All (λ (p : Packet). (p.typ ==ℤ type_auth_response) ≡ false) noise
    → IsSendable last
    → last.typ ≡ type_auth_response
    → (outcome : Option Failure) × (c' : Client) × (authenticate none password c
        ≡ some (outcome, c'))
      × (c'.reader ≡ record { bytes = rest; ending = e })
      × ((outcome ≡ none) ↔ (last.id ≡ pos (next_request_id c.next_id)))
      × ((outcome ≡ some auth_failed) ↔ (last.id ≡ auth_failed_id))
unfolding authenticate
authenticate-answers password c noise last rest e writes here sent other ok t =
    let n = next_request_id c.next_id in
    let p : Packet = record { id = pos n; typ = type_auth; body = password } in
    let c1 : Client = record c { next_id = n; written = c.written ++ encode p } in
    let r : Reader = record { bytes = rest; ending = e } in
    let enough : length noise < length c.reader.bytes + 1 = omega (
      arith,
      length-encode_all noise,
      length-append (encode_all noise) (encode last ++ rest),
      ap (λ (r : Reader). length r.bytes) here,
    ) in
    let read : verdict (length c.reader.bytes + 1) (pos n) c.reader
        ≡ some (judge (pos n) last.id, r) =
      ap (verdict (length c.reader.bytes + 1) (pos n)) here
      ∙ verdict-noise noise (length c.reader.bytes + 1) (pos n) (encode last ++ rest) e
          (some (judge (pos n) last.id, r)) enough sent other
          (λ k. verdict_last (pos n) last rest e k ok t) in
    (
      judge (pos n) last.id,
      record c1 { reader = r },
      ap (after_auth (pos n)) (write_ok p (record c { next_id = n }) writes) ∙ ap (settled c1) read,
      refl,
      (judge_lem n last.id).0,
      (judge_lem n last.id).1,
    )

-- A server that closes the connection instead of answering counts as one that refuses the password.
pub authenticate-closed :
    (password : List ℕ) (c : Client) (noise : List Packet) (tail : List ℕ)
    → c.writes ≡ []
    → c.reader ≡ record { bytes = encode_all noise ++ tail; ending = closed }
    → All IsSendable noise
    → All (λ (p : Packet). (p.typ ==ℤ type_auth_response) ≡ false) noise
    → length tail < 4
    → (c' : Client) × (authenticate none password c ≡ some (some auth_failed, c'))
unfolding authenticate
authenticate-closed password c noise tail writes here sent other short =
    let n = next_request_id c.next_id in
    let p : Packet = record { id = pos n; typ = type_auth; body = password } in
    let c1 : Client = record c { next_id = n; written = c.written ++ encode p } in
    let r : Reader = record { bytes = tail; ending = closed } in
    let enough : length noise < length c.reader.bytes + 1 = omega (
      arith,
      length-encode_all noise,
      length-append (encode_all noise) tail,
      ap (λ (r : Reader). length r.bytes) here,
    ) in
    let read : verdict (length c.reader.bytes + 1) (pos n) c.reader ≡ some (some auth_failed, r) =
      ap (verdict (length c.reader.bytes + 1) (pos n)) here
      ∙ verdict-noise noise (length c.reader.bytes + 1) (pos n) tail closed
          (some (some auth_failed, r)) enough sent other
          (λ k. verdict_closed (pos n) tail k short) in
    (
      record c1 { reader = r },
      ap (after_auth (pos n)) (write_ok p (record c { next_id = n }) writes) ∙ ap (settled c1) read,
    )
