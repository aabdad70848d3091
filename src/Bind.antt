-- ===== src/Bind.antt =====
-- src/bind.rs: presentation contexts, bind acknowledgements and what a client accepts.
pub mod Context
pub mod Ack
