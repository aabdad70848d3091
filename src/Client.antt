-- ===== src/Client.antt =====
-- src/client.rs: binding and calling over an abstract transport, with an optional authentication
-- provider.
pub mod Packets
pub mod Authenticated
pub mod Send
pub mod Response
pub mod Receive
pub mod Call
pub mod Bind
pub mod Conversation
pub mod Simulation
