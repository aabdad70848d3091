-- ===== src/Providers/Gssapi.antt =====
-- The Kerberos provider of src/auth.rs over the GSSAPI C library.
pub mod Library
pub mod Context
pub mod Provider
pub mod Owns
pub mod Released
pub mod Leaks
pub mod Outcomes
