-- ===== src/Rcon/Client/Total.antt =====
-- The loops of a handshake and of an exchange end.
use rcon_ui.Base.{
  ℕ, zero, suc, ◌+◌, ◌<◌, ◌≡◌, refl, inl, inr, true, Option, none, some, List, [], ◌++◌, arith,
  if◌then◌else◌, Bool-cases, is_some, length,
}
use rcon_ui.Base.Int.{ℤ, pos}
use rcon_ui.Text.{Text}
use rcon_ui.Rcon.Packet.{
  Reader, decode_packet, type_exec_command, type_response_value, type_auth, type_auth_response,
}
use rcon_ui.Rcon.Packet.Bounds.{decode_packet_shorter, Read-cases}
use rcon_ui.Rcon.Client.{
  Client, Failure, next_request_id, write, ◌==ℤ◌, collect, read_reply, after_sentinel,
  after_command, exchange, guarded, execute, verdict, settled, after_auth, login, authenticate,
}

collect_total :
    (rounds : ℕ) (cmd_id sentinel_id : ℤ) (text : List ℕ) (r : Reader)
    → length r.bytes < rounds
    → is_some (collect rounds cmd_id sentinel_id text r) ≡ true
unfolding collect
collect_total zero cmd_id sentinel_id text r h = elim h [ ]
collect_total (suc rounds) cmd_id sentinel_id text r h = elim (Read-cases (decode_packet r)) [
  | inl (e, q) ↦ rw (q, collect) refl
  | inr (p, r', q) ↦ elim (Bool-cases (p.id ==ℤ sentinel_id)) [
    | inl same ↦ rw (q, collect) (rw same refl)
    | inr other ↦
        rw (q, collect)
          (rw other (
            collect_total rounds cmd_id sentinel_id
              (if p.id ==ℤ cmd_id then text ++ p.body else text) r'
              (omega (arith, decode_packet_shorter r p r' q))))
  ]
]

read_reply_total :
    (cmd_id sentinel_id : ℤ) (c : Client) → is_some (read_reply cmd_id sentinel_id c) ≡ true
unfolding read_reply
read_reply_total cmd_id sentinel_id c =
    let t =
      collect_total (length c.reader.bytes + 1) cmd_id sentinel_id [] c.reader (omega arith) in
    ground (arith, t)

after_sentinel_total :
    (cmd_id sentinel_id : ℤ) (w : Option Text × Client)
    → is_some (after_sentinel cmd_id sentinel_id w) ≡ true
after_sentinel_total cmd_id sentinel_id (some message, c) = refl
after_sentinel_total cmd_id sentinel_id (none, c) = read_reply_total cmd_id sentinel_id c

after_command_total :
    (cmd_id sentinel_id : ℤ) (w : Option Text × Client)
    → is_some (after_command cmd_id sentinel_id w) ≡ true
after_command_total cmd_id sentinel_id (some message, c) = refl
after_command_total cmd_id sentinel_id (none, c) =
    after_sentinel_total cmd_id sentinel_id
      (write (record { id = sentinel_id; typ = type_response_value; body = [] }) c)

exchange_total : (cmd : List ℕ) (c : Client) → is_some (exchange cmd c) ≡ true
unfolding exchange
exchange_total cmd c =
    let cmd_id = next_request_id c.next_id in
    let sentinel_id = next_request_id cmd_id in
    after_command_total (pos cmd_id) (pos sentinel_id) (
      write (record { id = pos cmd_id; typ = type_exec_command; body = cmd })
        (record c { next_id = sentinel_id }))

guarded_total :
    (b : Option Failure) (deadline : Option Text) (cmd : List ℕ) (c : Client)
    → is_some (guarded b deadline cmd c) ≡ true
guarded_total (some e) deadline cmd c = refl
guarded_total none (some message) cmd c = refl
guarded_total none none cmd c = exchange_total cmd c

execute_total :
    (deadline : Option Text) (cmd : List ℕ) (c : Client) → is_some (execute deadline cmd c) ≡ true
unfolding execute
execute_total deadline cmd c = guarded_total c.broken deadline cmd c

verdict_total :
    (rounds : ℕ) (id : ℤ) (r : Reader)
    → length r.bytes < rounds
    → is_some (verdict rounds id r) ≡ true
unfolding verdict
verdict_total zero id r h = elim h [ ]
verdict_total (suc rounds) id r h = elim (Read-cases (decode_packet r)) [
  | inl (e, q) ↦ rw (q, verdict) refl
  | inr (p, r', q) ↦ elim (Bool-cases (p.typ ==ℤ type_auth_response)) [
    | inl same ↦ rw (q, verdict) (rw same refl)
    | inr other ↦
        rw (q, verdict)
          (rw other (verdict_total rounds id r' (omega (arith, decode_packet_shorter r p r' q))))
  ]
]

settled_total :
    (c : Client) (o : Option (Option Failure × Reader))
    → is_some o ≡ true
    → is_some (settled c o) ≡ true
settled_total c none h = h
settled_total c (some (outcome, r)) h = refl

after_auth_total : (id : ℤ) (w : Option Text × Client) → is_some (after_auth id w) ≡ true
after_auth_total id (some message, c) = refl
after_auth_total id (none, c) =
    settled_total c (verdict (length c.reader.bytes + 1) id c.reader)
      (verdict_total (length c.reader.bytes + 1) id c.reader (omega arith))

login_total :
    (deadline : Option Text) (password : List ℕ) (c : Client)
    → is_some (login deadline password c) ≡ true
login_total (some message) password c = refl
login_total none password c =
    let id = next_request_id c.next_id in
    after_auth_total (pos id)
      (write (record { id = pos id; typ = type_auth; body = password }) (record c { next_id = id }))

authenticate_total :
    (deadline : Option Text) (password : List ℕ) (c : Client)
    → is_some (authenticate deadline password c) ≡ true
unfolding authenticate
authenticate_total deadline password c = login_total deadline password c

-- Whatever bytes a server sends, and whether the writes and the deadline fail or not, a handshake and
-- an exchange end: the rounds of the loops that read packets never run out.
client_total :
    (deadline : Option Text) (text : List ℕ) (c : Client)
    → (is_some (authenticate deadline text c) ≡ true) × (is_some (execute deadline text c) ≡ true)
client_total deadline text c = (authenticate_total deadline text c, execute_total deadline text c)
