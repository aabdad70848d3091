-- ===== src/Providers.antt =====
-- The authentication providers of src/auth.rs that the features `gssapi` and `ntlm-sspi` build.
pub mod Calls
pub mod Gssapi
pub mod Ntlm
