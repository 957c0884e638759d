-- ===== src/Rcon.antt =====
-- internal/rcon/source: the Valve Source RCON dialect of the daemon, from the bytes on the wire to an
-- exchange with a server. A Go string is the list of its bytes.
pub mod Utf8
pub mod Packet
pub mod Client
