-- ===== src/Rcon/Client.antt =====
-- internal/rcon/source/client.go: a connection to a game server. Its socket is the reader of what the
-- peer has sent, and, for each write to come, none if it succeeds or the message of its failure (past
-- the end of that list writes succeed). A deadline that cannot be set is an argument too; one that
-- passes is a failing stream. The mutex makes each exchange one step.
pub mod Ids
pub mod Total
pub mod Exchange
pub mod Broken
pub mod Login
use rcon_ui.Base.{
  ℕ, zero, suc, ◌+◌, ◌-◌, ◌^◌, Bool, true, false, Option, none, some, List, [], ◌∷◌, ◌++◌, ◌==◌,
  if◌then◌else◌, length,
}
use rcon_ui.Base.Int.{ℤ, pos, negsuc}
use rcon_ui.Text.{Text}
use rcon_ui.Rcon.Packet.{
  Packet, Reader, ReadError, got, error, eof, unexpected_eof, encode, decode_packet,
  type_response_value, type_exec_command, type_auth, type_auth_response, auth_failed_id,
}

-- What an exchange fails with.
pub data Failure : Type 0 where
  no_deadline : Text → Failure
  send_command send_sentinel send_auth : Text → Failure
  read_response read_auth : ReadError → Failure
  auth_failed : Failure
  auth_id : ℤ → Failure

pub record Client : Type 0 where
  pub next_id : ℕ
  pub broken : Option Failure
  pub reader : Reader
  pub writes : List (Option Text)
  pub written : List ℕ

abbrev pub max_int32 : ℕ
max_int32 = 2 ^ 31 - 1

-- The id handed out is the new counter.
unfoldable pub next_request_id : ℕ → ℕ
next_request_id n = (if n == max_int32 then 0 else n) + 1

abbrev pub written_with : Option Text → Packet → Client → Client
written_with none p c = record c { written = c.written ++ encode p }
written_with (some message) p c = c

-- The failure, if there is one, and the client after the write.
abbrev pub next_write : List (Option Text) → Packet → Client → Option Text × Client
next_write [] p c = (none, written_with none p c)
next_write (w ∷ ws) p c = (w, written_with w p (record c { writes = ws }))

unfoldable pub write : Packet → Client → Option Text × Client
write p c = next_write c.writes p c

infix 50 ◌==ℤ◌
unfoldable pub ◌==ℤ◌ : ℤ → ℤ → Bool
pos a ==ℤ pos b = a == b
negsuc a ==ℤ negsuc b = a == b
a ==ℤ b = false

pub data Collected : Type 0 where
  whole : List ℕ → Reader → Collected
  lost : ReadError → Collected

-- The loop that reads until the sentinel is echoed; none if the rounds run out.
unfoldable pub collect : ℕ → ℤ → ℤ → List ℕ → Reader → Option Collected
unfolding decode_packet ◌==ℤ◌
collect zero cmd_id sentinel_id text r = none
collect (suc rounds) cmd_id sentinel_id text r = elim (decode_packet r) [
  | error e ↦ some (lost e)
  | got p r' ↦ elim (p.id ==ℤ sentinel_id) [
    | true ↦ some (whole text r')
    | false ↦
        collect rounds cmd_id sentinel_id (if p.id ==ℤ cmd_id then text ++ p.body else text) r'
  ]
]

pub data Reply : Type 0 where
  answer : List ℕ → Reply
  failure : Failure → Reply

-- `fail`: the first failure is kept.
abbrev pub first_failure : Option Failure → Failure → Failure
first_failure none e = e
first_failure (some first) e = first

abbrev pub fail : Failure → Client → Reply × Client
fail e c = (failure e, record c { broken = some (first_failure c.broken e) })

abbrev pub finish : Client → Collected → Reply × Client
finish c (whole text r) = (answer text, record c { reader = r })
finish c (lost e) = fail (read_response e) c

abbrev pub finished : Client → Option Collected → Option (Reply × Client)
finished c none = none
finished c (some result) = some (finish c result)

-- Each packet takes a byte of the stream at least, so the bytes there are bound the rounds.
unfoldable pub read_reply : ℤ → ℤ → Client → Option (Reply × Client)
unfolding collect
read_reply cmd_id sentinel_id c =
    finished c (collect (length c.reader.bytes + 1) cmd_id sentinel_id [] c.reader)

-- After the sentinel, and after the command, is written.
abbrev pub after_sentinel : ℤ → ℤ → Option Text × Client → Option (Reply × Client)
after_sentinel cmd_id sentinel_id (some message, c) = some (fail (send_sentinel message) c)
after_sentinel cmd_id sentinel_id (none, c) = read_reply cmd_id sentinel_id c

abbrev pub after_command : ℤ → ℤ → Option Text × Client → Option (Reply × Client)
after_command cmd_id sentinel_id (some message, c) = some (fail (send_command message) c)
after_command cmd_id sentinel_id (none, c) =
    after_sentinel cmd_id sentinel_id
      (write (record { id = sentinel_id; typ = type_response_value; body = [] }) c)

-- The command, the sentinel, and the answer.
unfoldable pub exchange : List ℕ → Client → Option (Reply × Client)
unfolding write next_request_id
exchange cmd c =
    let cmd_id = next_request_id c.next_id in
    let sentinel_id = next_request_id cmd_id in
    after_command (pos cmd_id) (pos sentinel_id) (
      write (record { id = pos cmd_id; typ = type_exec_command; body = cmd })
        (record c { next_id = sentinel_id }))

-- A broken client refuses; then the deadline is set.
abbrev pub guarded : Option Failure → Option Text → List ℕ → Client → Option (Reply × Client)
guarded (some e) deadline cmd c = some (failure e, c)
guarded none (some message) cmd c = some (failure (no_deadline message), c)
guarded none none cmd c = exchange cmd c

unfoldable pub execute : Option Text → List ℕ → Client → Option (Reply × Client)
unfolding exchange
execute deadline cmd c = guarded c.broken deadline cmd c

-- The verdict of an auth response, none if the password is accepted.
unfoldable pub judge : ℤ → ℤ → Option Failure
unfolding ◌==ℤ◌
judge id answered =
    if answered ==ℤ auth_failed_id
    then some auth_failed
    else if answered ==ℤ id
    then none
    else some (auth_id answered)

abbrev pub auth_error : ReadError → Failure
auth_error eof = auth_failed
auth_error unexpected_eof = auth_failed
auth_error e = read_auth e

-- The loop that waits for an auth response; none if the rounds run out.
unfoldable pub verdict : ℕ → ℤ → Reader → Option (Option Failure × Reader)
unfolding decode_packet ◌==ℤ◌ judge
verdict zero id r = none
verdict (suc rounds) id r = elim (decode_packet r) [
  | error e ↦ some (some (auth_error e), r)
  | got p r' ↦ elim (p.typ ==ℤ type_auth_response) [
    | true ↦ some (judge id p.id, r')
    | false ↦ verdict rounds id r'
  ]
]

abbrev pub settled : Client → Option (Option Failure × Reader) → Option (Option Failure × Client)
settled c none = none
settled c (some (outcome, r)) = some (outcome, record c { reader = r })

abbrev pub after_auth : ℤ → Option Text × Client → Option (Option Failure × Client)
after_auth id (some message, c) = some (some (send_auth message), c)
after_auth id (none, c) = settled c (verdict (length c.reader.bytes + 1) id c.reader)

abbrev pub login : Option Text → List ℕ → Client → Option (Option Failure × Client)
login (some message) password c = some (some (no_deadline message), c)
login none password c =
    let id = next_request_id c.next_id in
    after_auth (pos id)
      (write (record { id = pos id; typ = type_auth; body = password }) (record c { next_id = id }))

unfoldable pub authenticate : Option Text → List ℕ → Client → Option (Option Failure × Client)
unfolding write next_request_id
authenticate deadline password c = login deadline password c
