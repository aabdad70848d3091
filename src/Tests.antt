-- ===== src/Tests.antt =====
-- The theorems at concrete inputs, with concrete crates, transports and providers.
pub mod Crates
pub mod Pdu
pub mod Bind
pub mod Handshake
pub mod Client
pub mod Gssapi
pub mod Ntlm
pub mod Pipe
pub mod Debug
pub mod Duplex
pub mod Channel
pub mod Endings
