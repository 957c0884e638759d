-- ===== src/Tests/Rcon.antt =====
-- The daemon's RCON client: packets, and exchanges with a server that sends a few of them.
use rcon_ui.Base.{
  ℕ, ◌+◌, ◌-◌, ◌*◌, ◌≤◌, ◌≡◌, refl, ◌⊎◌, true, Option, none, some, List, [], ◌∷◌, ◌++◌, arith,
  length, drop,
}
use rcon_ui.Base.Int.{ℤ, pos, negsuc}
use rcon_ui.Text.{Text, codes}
use rcon_ui.Rcon.Utf8.{valid_utf8}
use rcon_ui.Rcon.Packet.{
  Packet, Reader, got, closed, encode, decode_packet, header_size, max_packet_size,
  type_response_value, type_exec_command, type_auth, type_auth_response, auth_failed_id, ReadError,
  eof,
}
use rcon_ui.Rcon.Packet.Roundtrip.{IsFramed, IsSendable, decode_packet-encode}
use rcon_ui.Rcon.Packet.Bounds.{decode_packet_got}
use rcon_ui.Rcon.Client.{
  Client, Failure, no_deadline, send_command, auth_failed, answer, failure, max_int32,
  next_request_id, execute, authenticate,
}
use rcon_ui.Rcon.Client.Exchange.{encode_all, response, execute-answers}
use rcon_ui.Rcon.Client.Broken.{execute_failure}

abbrev packet : ℤ → ℤ → Text → Packet
packet id typ body = record { id = id; typ = typ; body = body }

abbrev ok : Packet
ok = packet (pos 6) type_response_value (codes "ok")

-- The packet that Valve's servers send after the echo of the sentinel, here of the command before.
abbrev stale : Packet
stale = packet (pos 1) type_response_value (0 ∷ 1 ∷ 0 ∷ 0 ∷ [])

-- An answer in Latin-1.
abbrev latin : Packet
latin = packet (pos 6) type_response_value (codes "caf" ++ 233 ∷ [])

abbrev echo : Packet
echo = packet (pos 7) type_response_value []

abbrev refused : Packet
refused = packet (negsuc 0) type_auth_response []

ok-IsSendable : IsSendable ok
unfolding rcon_ui.Rcon.Packet.trim_nuls valid_utf8
ok-IsSendable = record {
  id_range = (omega arith, omega arith);
  typ_range = (omega arith, omega arith);
  trimmed = refl;
  text = refl;
  fits = omega arith;
}

ok-IsFramed : IsFramed ok
ok-IsFramed = record {
  id_range = (omega arith, omega arith);
  typ_range = (omega arith, omega arith);
  fits = omega arith;
}

stale-IsFramed : IsFramed stale
stale-IsFramed = record {
  id_range = (omega arith, omega arith);
  typ_range = (omega arith, omega arith);
  fits = omega arith;
}

latin-IsFramed : IsFramed latin
latin-IsFramed = record {
  id_range = (omega arith, omega arith);
  typ_range = (omega arith, omega arith);
  fits = omega arith;
}

echo-IsFramed : IsFramed echo
echo-IsFramed = record {
  id_range = (omega arith, omega arith);
  typ_range = (omega arith, omega arith);
  fits = omega arith;
}

refused-IsSendable : IsSendable refused
unfolding rcon_ui.Rcon.Packet.trim_nuls valid_utf8
refused-IsSendable = record {
  id_range = (omega arith, omega arith);
  typ_range = (omega arith, omega arith);
  trimmed = refl;
  text = refl;
  fits = omega arith;
}

abbrev reader : List ℕ → Reader
reader bytes = record { bytes = bytes; ending = closed }

encode_test :
    encode (packet (pos 1) (pos 2) (codes "hi"))
    ≡ 12 ∷ 0 ∷ 0 ∷ 0 ∷ 1 ∷ 0 ∷ 0 ∷ 0 ∷ 2 ∷ 0 ∷ 0 ∷ 0 ∷ 104 ∷ 105 ∷ 0 ∷ 0 ∷ []
unfolding encode
encode_test = refl

decode_packet-encode_example :
    decode_packet (reader (encode refused ++ codes "rest")) ≡ got refused (reader (codes "rest"))
decode_packet-encode_example = decode_packet-encode refused (codes "rest") closed refused-IsSendable

-- The bytes of `ok`, and two more.
abbrev ok_bytes : List ℕ
ok_bytes = 12 ∷ 0 ∷ 0 ∷ 0 ∷ 6 ∷ 0 ∷ 0 ∷ 0 ∷ 0 ∷ 0 ∷ 0 ∷ 0 ∷ 111 ∷ 107 ∷ 0 ∷ 0 ∷ 9 ∷ 9 ∷ []

read_ok : decode_packet (reader ok_bytes) ≡ got ok (reader (9 ∷ 9 ∷ []))
unfolding decode_packet
read_ok = refl

decode_packet_got_example :
    (size : ℕ) × (header_size ≤ size)
    × (size ≤ max_packet_size)
    × ((a b c d : ℕ) × (rest : List ℕ) × (ok_bytes ≡ a ∷ b ∷ c ∷ d ∷ rest)
        × (size ≡ a + 256 * (b + 256 * (c + 256 * d))))
    × (size + 4 ≤ length ok_bytes)
    × (reader (9 ∷ 9 ∷ []) ≡ reader (drop size (drop 4 ok_bytes)))
    × (valid_utf8 ok.body ≡ true)
    × (length ok.body ≤ 2 * (size - 8))
decode_packet_got_example =
    decode_packet_got (reader ok_bytes) ok (reader (9 ∷ 9 ∷ []))
      ((
        omega arith,
        (
          omega arith,
          (
            omega arith,
            (
              omega arith,
              (
                omega arith,
                (
                  omega arith,
                  (
                    omega arith,
                    (
                      omega arith,
                      (
                        omega arith,
                        (
                          omega arith,
                          (
                            omega arith,
                            (
                              omega arith,
                              (
                                omega arith,
                                (
                                  omega arith,
                                  (omega arith, (omega arith, (omega arith, (omega arith, tt)))),
                                ),
                              ),
                            ),
                          ),
                        ),
                      ),
                    ),
                  ),
                ),
              ),
            ),
          ),
        ),
      ))
      read_ok

abbrev client : List ℕ → Client
client bytes = record {
  next_id = 5;
  broken = none;
  reader = reader bytes;
  writes = [];
  written = [];
}

execute-answers_example :
    execute none
      (codes "players")
      (client (encode_all (stale ∷ ok ∷ latin ∷ []) ++ (encode echo ++ [])))
    ≡ some (
      answer (response (pos 6) (stale ∷ ok ∷ latin ∷ [])),
      record (client []) {
        next_id = 7;
        written =
            ([] ++ encode (packet (pos 6) type_exec_command (codes "players")))
            ++ encode (packet (pos 7) type_response_value []);
      },
    )
unfolding rcon_ui.Rcon.Client.◌==ℤ◌ next_request_id
execute-answers_example =
    execute-answers (codes "players")
      (client (encode_all (stale ∷ ok ∷ latin ∷ []) ++ (encode echo ++ [])))
      (stale ∷ ok ∷ latin ∷ []) echo [] closed refl refl refl
      (stale-IsFramed, (ok-IsFramed, (latin-IsFramed, tt))) (refl, (refl, (refl, tt))) echo-IsFramed
      refl

response_test : response (pos 6) (stale ∷ ok ∷ latin ∷ []) ≡ codes "okcaf" ++ 195 ∷ 169 ∷ []
unfolding rcon_ui.Rcon.Client.◌==ℤ◌ rcon_ui.Rcon.Utf8.decode_body rcon_ui.Rcon.Packet.trim_nuls
response_test = refl

abbrev no_pipe : Client
no_pipe = record (client []) { writes = some (codes "EPIPE") ∷ [] }

abbrev piped : Client
piped = record (client []) { next_id = 7; broken = some (send_command (codes "EPIPE")) }

fails : execute none (codes "save") no_pipe ≡ some (failure (send_command (codes "EPIPE")), piped)
unfolding execute
fails = refl

execute_failure_example :
    ((piped ≡ no_pipe)
      × (no_pipe.broken ≡ none)
      × ((m : Text) × (none ≡ some m) × (send_command (codes "EPIPE") ≡ no_deadline m)))
    ⊎ ((later : Option Text) (next : List ℕ)
        → execute later next piped ≡ some (failure (send_command (codes "EPIPE")), piped))
execute_failure_example =
    execute_failure none (codes "save") (send_command (codes "EPIPE")) no_pipe piped fails
