-- ===== src/Rcon/Client/Exchange.antt =====
-- An exchange with a server: it always ends, and its answer is what the server sent for the command.
use rcon_ui.Rcon.Client.{
  finished, guarded, next_write, whole, answer, type_exec_command, type_response_value,
  next_request_id, write, after_sentinel, after_command, exchange, Client, execute, Packet, encode,
  read_reply, ◌==ℤ◌, collect,
}
use rcon_ui.Rcon.Utf8.{decode_body}
use rcon_ui.Rcon.Packet.{trim_nuls, Ending, Reader}
use rcon_ui.Rcon.Packet.Roundtrip.{cleaned, IsFramed, decode_packet-framed, length-encode}
use rcon_ui.Base.{
  ℕ, zero, suc, ◌+◌, ◌≤◌, ◌<◌, ◌≡◌, refl, ap, ◌∙◌, Bool, true, false, none, some, List, [], ◌∷◌,
  ◌++◌, append-nil, append_assoc, arith, if◌then◌else◌, length, length-append, All,
}
use rcon_ui.Base.Int.{negsuc, pos, ℤ}

unfoldable pub encode_all : List Packet → List ℕ
encode_all [] = []
encode_all (p ∷ ps) = encode p ++ encode_all ps

-- The bodies of the packets that answer a command, one after the other, each without the NULs at its
-- end, and read as Latin-1 if it is no UTF-8.
abbrev pub response : ℤ → List Packet → List ℕ
response cmd_id [] = []
response cmd_id (p ∷ ps) =
    (if p.id ==ℤ cmd_id then decode_body (trim_nuls p.body) else []) ++ response cmd_id ps

pub length-encode_all : (ps : List Packet) → length ps ≤ length (encode_all ps)
unfolding encode_all
length-encode_all [] = omega arith
length-encode_all (p ∷ ps) =
    omega (arith, length-encode_all ps, length-encode p, length-append (encode p) (encode_all ps))

response_step :
    (b : Bool) (text body tail : List ℕ)
    → (if b then text ++ body else text) ++ tail ≡ text ++ ((if b then body else []) ++ tail)
response_step true text body tail = append_assoc text body tail
response_step false text body tail = refl

collect-answers :
    (rounds : ℕ) (cmd_id sentinel_id : ℤ) (text : List ℕ) (answers : List Packet) (last : Packet)
    (rest : List ℕ) (e : Ending)
    → length answers < rounds
    → All IsFramed answers
    → All (λ (p : Packet). (p.id ==ℤ sentinel_id) ≡ false) answers
    → IsFramed last
    → (last.id ==ℤ sentinel_id) ≡ true
    → collect rounds cmd_id sentinel_id text
        (record { bytes = encode_all answers ++ (encode last ++ rest); ending = e })
      ≡ some (whole (text ++ response cmd_id answers) (record { bytes = rest; ending = e }))
unfolding collect encode_all
collect-answers zero cmd_id sentinel_id text answers last rest e h sent other ok same = elim h [ ]
collect-answers (suc rounds) cmd_id sentinel_id text [] last rest e h sent other ok same =
    rw (decode_packet-framed last rest e ok, collect) (rw same (rw (append-nil text) refl))
collect-answers (suc rounds) cmd_id sentinel_id text (p ∷ ps) last rest e h (ok_p, sent)
      (no_p, other) ok same =
    rw (append_assoc (encode p) (encode_all ps) (encode last ++ rest)) (
      rw (decode_packet-framed p (encode_all ps ++ (encode last ++ rest)) e ok_p, collect)
        (rw no_p (
          collect-answers rounds cmd_id sentinel_id
            (if p.id ==ℤ cmd_id then text ++ (cleaned p).body else text) ps last rest e
            (omega arith) sent other ok same
          ∙ ap (λ t. some (whole t (record { bytes = rest; ending = e })))
              (response_step (p.id ==ℤ cmd_id) text (cleaned p).body (response cmd_id ps)))))

pub write_ok :
    (p : Packet) (c : Client)
    → c.writes ≡ []
    → write p c ≡ (none, record c { written = c.written ++ encode p })
unfolding write
write_ok p c h = ap (λ ws. next_write ws p c) h

execute-exchange :
    (cmd : List ℕ) (c : Client) → c.broken ≡ none → execute none cmd c ≡ exchange cmd c
unfolding execute
execute-exchange cmd c h = ap (λ b. guarded b none cmd c) h

read_reply_whole :
    (cmd_id sentinel_id : ℤ) (c : Client) (text : List ℕ) (r : Reader)
    → collect (length c.reader.bytes + 1) cmd_id sentinel_id [] c.reader ≡ some (whole text r)
    → read_reply cmd_id sentinel_id c ≡ some (answer text, record c { reader = r })
unfolding read_reply
read_reply_whole cmd_id sentinel_id c text r h = ap (finished c) h

pub ==ℤ_refl : (n : ℤ) → (n ==ℤ n) ≡ true
unfolding ◌==ℤ◌
==ℤ_refl (pos n) = ground arith
==ℤ_refl (negsuc n) = ground arith

-- An exchange on a client that is not broken, whose writes succeed, with a server that sends any
-- packets within the size limit, of whatever bytes and with whatever ids but the sentinel's, each
-- ended by two NULs, and then echoes the sentinel, with any body: the answer is the bodies of the
-- packets for the command, in order, each without the NULs at its end and read as Latin-1 if it is
-- no UTF-8; what follows the echo is left in the stream, and the client has written the command and the
-- sentinel and is not broken.
pub execute-answers :
    (cmd : List ℕ) (c : Client) (answers : List Packet) (last : Packet) (rest : List ℕ) (e : Ending)
    → c.broken ≡ none
    → c.writes ≡ []
    → c.reader ≡ record { bytes = encode_all answers ++ (encode last ++ rest); ending = e }
    → All IsFramed answers
    → All
        (λ (p : Packet). (p.id ==ℤ pos (next_request_id (next_request_id c.next_id))) ≡ false)
        answers
    → IsFramed last
    → last.id ≡ pos (next_request_id (next_request_id c.next_id))
    → execute none cmd c
      ≡ some (
        answer (response (pos (next_request_id c.next_id)) answers),
        record c {
          next_id = next_request_id (next_request_id c.next_id);
          reader = record { bytes = rest; ending = e };
          written =
              (c.written
                ++ encode (record {
                  id = pos (next_request_id c.next_id);
                  typ = type_exec_command;
                  body = cmd;
                }))
              ++ encode (record {
                id = pos (next_request_id (next_request_id c.next_id));
                typ = type_response_value;
                body = [];
              });
        },
      )
unfolding exchange
execute-answers cmd c answers last rest e alive writes here sent other ok same =
    let a = next_request_id c.next_id in
    let b = next_request_id a in
    let p1 : Packet = record { id = pos a; typ = type_exec_command; body = cmd } in
    let p2 : Packet = record { id = pos b; typ = type_response_value; body = [] } in
    let c1 : Client = record c { next_id = b; written = c.written ++ encode p1 } in
    let c2 : Client = record c1 { written = c1.written ++ encode p2 } in
    let enough : length answers < length c.reader.bytes + 1 = omega (
      arith,
      length-encode_all answers,
      length-append (encode_all answers) (encode last ++ rest),
      ap (λ (r : Reader). length r.bytes) here,
    ) in
    let read : collect (length c.reader.bytes + 1) (pos a) (pos b) [] c.reader
        ≡ some (whole (response (pos a) answers) (record { bytes = rest; ending = e })) =
      ap (collect (length c.reader.bytes + 1) (pos a) (pos b) []) here
      ∙ collect-answers (length c.reader.bytes + 1) (pos a) (pos b) [] answers last rest e enough
          sent other ok (ap (λ n. n ==ℤ pos b) same ∙ ==ℤ_refl (pos b)) in
    execute-exchange cmd c alive
    ∙ ap (after_command (pos a) (pos b)) (write_ok p1 (record c { next_id = b }) writes)
    ∙ ap (after_sentinel (pos a) (pos b)) (write_ok p2 c1 writes)
    ∙ read_reply_whole (pos a) (pos b) c2 (response (pos a) answers)
        (record { bytes = rest; ending = e }) read
