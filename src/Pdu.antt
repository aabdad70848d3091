-- ===== src/Pdu.antt =====
-- src/pdu.rs: the connection-oriented PDUs of MS-RPCE.
pub mod Kind
pub mod Header
pub mod Trailer
pub mod Bodies
pub mod Packet
