-- ===== src/Rcon/Packet.antt =====
-- internal/rcon/source/packet.go: the packets of the protocol and their bytes. The fields of a packet
-- are Go's int32, integers here; the reader is what the peer has sent so far and how it then ends.
pub mod Bounds
pub mod Roundtrip
use rcon_ui.Base.{
  ℕ, ◌+◌, ◌-◌, ◌*◌, ◌/◌, ◌%◌, ◌^◌, ◌&&◌, List, [], ◌∷◌, ◌++◌, ltb, leb, ◌==◌, if◌then◌else◌, length,
  take, drop,
}
use rcon_ui.Base.Int.{ℤ, pos, negsuc}
use rcon_ui.Text.{Text, is_empty}
use rcon_ui.Rcon.Utf8.{decode_body}

abbrev pub type_response_value : ℤ
type_response_value = pos 0

abbrev pub type_exec_command : ℤ
type_exec_command = pos 2

abbrev pub type_auth_response : ℤ
type_auth_response = pos 2

abbrev pub type_auth : ℤ
type_auth = pos 3

abbrev pub header_size : ℕ
header_size = 10

abbrev pub max_body_size : ℕ
max_body_size = 4096

abbrev pub max_packet_size : ℕ
max_packet_size = header_size + max_body_size * 2

abbrev pub auth_failed_id : ℤ
auth_failed_id = negsuc 0

pub record Packet : Type 0 where
  pub id : ℤ
  pub typ : ℤ
  pub body : List ℕ

-- `uint32(n)` and `int32(u)` of Go, by the two's complement.
unfoldable pub to_uint32 : ℤ → ℕ
to_uint32 (pos n) = n % 2 ^ 32
to_uint32 (negsuc n) = 2 ^ 32 - 1 - n % 2 ^ 32

unfoldable pub to_int32 : ℕ → ℤ
to_int32 u = if ltb u (2 ^ 31) then pos u else negsuc (2 ^ 32 - 1 - u)

-- `binary.LittleEndian.AppendUint32`, and `Uint32` of the first four bytes.
unfoldable pub put_uint32 : ℕ → List ℕ
put_uint32 u = u % 256 ∷ (u / 256 % 256 ∷ (u / 2 ^ 16 % 256 ∷ (u / 2 ^ 24 % 256 ∷ [])))

abbrev pub get_uint32 : List ℕ → ℕ
get_uint32 (a ∷ b ∷ c ∷ d ∷ s) = a + b * 256 + c * 2 ^ 16 + d * 2 ^ 24
get_uint32 _ = 0

unfoldable pub encode : Packet → List ℕ
unfolding to_uint32 put_uint32
encode p =
    let size = header_size + length p.body in
    put_uint32 (size % 2 ^ 32)
    ++ (put_uint32 (to_uint32 p.id) ++ (put_uint32 (to_uint32 p.typ) ++ (p.body ++ 0 ∷ 0 ∷ [])))

-- Why a read ends: the peer closed the connection, in the middle of what was asked for or not, or the
-- connection failed; or the packet's length is refused.
pub data ReadError : Type 0 where
  eof unexpected_eof : ReadError
  failed : Text → ReadError
  short_packet too_long : ℤ → ReadError

-- How the stream ends after the bytes that it still holds.
pub data Ending : Type 0 where
  closed : Ending
  failing : Text → Ending

pub record Reader : Type 0 where
  pub bytes : List ℕ
  pub ending : Ending

pub data Read {ℓ} (A : Type ℓ) : Type ℓ where
  got : A → Reader → Read A
  error : ReadError → Read A

-- `io.ReadFull` of a positive number of bytes.
abbrev pub end_error : Ending → List ℕ → ReadError
end_error (failing message) rest = failed message
end_error closed rest = if is_empty rest then eof else unexpected_eof

unfoldable pub read_full : ℕ → Reader → Read (List ℕ)
read_full n r =
    if leb n (length r.bytes)
    then got (take n r.bytes) (record r { bytes = drop n r.bytes })
    else error (end_error r.ending r.bytes)

-- `bytes.TrimRight(b, "\x00")`
unfoldable pub trim_nuls : List ℕ → List ℕ
trim_nuls [] = []
trim_nuls (b ∷ s) = let rest = trim_nuls s in if is_empty rest && (b == 0) then [] else b ∷ rest

-- The packet in a payload of at least the header's size.
unfoldable pub of_payload : List ℕ → Packet
unfolding to_int32 trim_nuls decode_body
of_payload payload = record {
  id = to_int32 (get_uint32 payload);
  typ = to_int32 (get_uint32 (drop 4 payload));
  body = decode_body (trim_nuls (drop 8 payload));
}

abbrev pub packet_of : Read (List ℕ) → Read Packet
packet_of (error e) = error e
packet_of (got payload r) = got (of_payload payload) r

-- After the length prefix.
unfoldable pub read_payload : ℤ → Reader → Read Packet
unfolding of_payload read_full
read_payload (negsuc n) r = error (short_packet (negsuc n))
read_payload (pos size) r =
    if ltb size header_size
    then error (short_packet (pos size))
    else if ltb max_packet_size size
    then error (too_long (pos size))
    else packet_of (read_full size r)

abbrev pub after_prefix : Read (List ℕ) → Read Packet
after_prefix (error e) = error e
after_prefix (got prefix r) = read_payload (to_int32 (get_uint32 prefix)) r

unfoldable pub decode_packet : Reader → Read Packet
unfolding read_full read_payload to_int32
decode_packet r = after_prefix (read_full 4 r)
