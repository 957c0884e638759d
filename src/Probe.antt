-- ===== src/Probe.antt =====
-- internal/discovery: what the daemon asks a server after a connection, and the report that it makes
-- of the answers. A text is the list of its code points; a server's answer is well-formed UTF-8.
pub mod White
pub mod Pattern
pub mod Filter
pub mod Zomboid
pub mod Minecraft
pub mod Discover
pub mod Consistent
pub mod Sent
pub mod Generic
pub mod Dump
