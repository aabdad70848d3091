-- ===== src/Lib.antt =====
-- msrpce-dcerpc: a verification library for the DCE/RPC client in Rust (the crate in src/).
--
-- The program encodes and decodes connection-oriented RPC PDUs, binds to an interface over an abstract
-- transport, and sends calls in fragments and puts their responses together. The client
-- (src/client.rs) builds packets (src/pdu.rs) whose bodies carry presentation contexts (src/bind.rs)
-- of syntax identifiers (src/syntax.rs); it hands their bytes to a transport (src/transport.rs) and asks
-- an optional provider (src/auth.rs) for tokens. Errors are values of src/error.rs.
--
-- Files and code:
--   * Base: helpers. Base/Text is texts, Base/Results is Rust's `Result` with `panic` for a call that does
--     not return and `diverge` for a loop out of rounds; Base/Words is `to_le_bytes` and its kin, Base/Bits
--     the Boolean operations on them; Base/Lists and Base/Tests are lists and Boolean tests over the native
--     numbers.
--   * Error, Error/Kinds: `Error` and the reasons it carries. Auth, Auth/Codes, Auth/Wire: levels, types
--     and mechanisms with their wire values, and `trait RpcAuthProvider` as a record of functions over
--     the type of the provider's state. Transport: `trait RpcTransport` likewise, and actions, which give
--     the state back after an error too.
--   * Crates: what the code takes from the crates msrpce_ndr and uuid, as records of operations and of
--     the documented behaviour that the code relies on.
--   * Pdu/Kind, Pdu/Header, Pdu/Trailer, Pdu/Bodies, Pdu/Packet: `PduType`, `PduHeader`,
--     `SecurityTrailer`, `BindPdu`, `RequestPdu`, `ResponsePdu`, `FaultPdu` and `PduPacket` of src/pdu.rs.
--     Below each stand RoundTrip and, where decoding indexes its input, Total; Pdu/Packet has Layout and
--     Reencode for what a decoded fragment looks like, and FromBody for packets made from a body.
--   * Syntax: src/syntax.rs, with Syntax/Version for versions. Bind/Context and Bind/Ack: src/bind.rs.
--   * Client/Packets, Client/Send, Client/Response, Client/Receive, Client/Call, Client/Bind: the methods
--     of `RpcClient` and the functions beside them, one definition for each and a helper for each loop
--     and branch. Client/Send/Chunks is the specification of fragmentation, Client/Send/Step,
--     Client/Send/Loop and Client/Send/Refines relate the code to it, and Client/Send/Peer is the peer's view.
--     Client/Receive/Queue is the transport of examples/in_memory_bind_call.rs, which delivers given PDUs.
--     Client/Send/Total, Client/Receive/Total, Client/Call/Total and Client/Bind/Total say that the methods
--     come back to their caller; Client/Call/Session is a sequence of calls, and
--     Client/Conversation a bind and a call over one channel with the peer's reading of both.
--     Client/Simulation compares the client over two transports.
--   * Transport/Ends: postconditions of actions that return, and their rules. Transport/Simulation: one
--     transport in the place of another. Transport/Finite and Auth/Answering: what the theorems on
--     termination assume of a transport and of a provider.
--   * Providers/Ntlm: `NtlmRpcAuthProvider` of src/auth.rs over the crate sspi, a record of its calls.
--     Providers/Ntlm/Protocol is the specification of a handshake in these calls, and Providers/Ntlm/Leg
--     and Providers/Ntlm/Handshake relate `next_token`, `init_context` and `step` to it.
--     Providers/Gssapi/Context and Providers/Gssapi/Provider: `GssapiClientContext` with its `Drop`, and
--     `GssapiKerberosRpcAuthProvider`, over Providers/Gssapi/Library, the calls of the C library with its
--     live objects: handles are numbers, 0 is null, and a release has a law for live objects alone.
--   * NcacnNp: sending and receiving on a named pipe in src/ncacn_np.rs; NcacnNp/Endpoint its endpoints,
--     NcacnNp/StdIo the adapter over `Read + Write`; NcacnNp/Framing reads a stream, and NcacnNp/Finite a
--     stream that ends. NcacnNp/Simulation compares a pipe with a queue of PDUs, and
--     NcacnNp/Conversation is a bind and a call over a pipe.
--   * Examples/InMemory: the acknowledgement and the main function of examples/in_memory_bind_call.rs;
--     Examples/InMemory/Run is the run of main, whatever the crates do beyond what they document.
--   * Debug: src/debug.rs. Error/Display: the text of errors.
--   * Tests: the theorems at concrete inputs, with concrete crates, transports, a GSSAPI
--     library of two slots for each kind of object, and providers.
--
-- Numbers: integers of a fixed width are natural numbers with their wrap-around written out, and
-- predicates such as IsU16 say what the types say. Byte strings are lists of numbers. A cast `as u8`
-- is a remainder. `COMMON_HEADER_LEN + body.len() as u16` wraps, as it does where overflow is not checked.
--
-- Loops: loops over counts and lists are structural. The alignment of a bind acknowledgement takes three
-- rounds at most, and the loop of the example that writes the padding ends in the fourth. The sending
-- loop gets one round more than the stub has bytes, which is enough, since each round sends a byte or
-- more. The receiving loop gets its rounds from the caller, since a peer may
-- send fragments forever; theorems on it hold for any number of rounds beyond the fragments.
--
-- Not modelled: what goes to stderr under environment variables, which changes no state. Of the GSSAPI calls the
-- arguments that the code gives as constants or null pointers are left out, and so are the outputs that
-- it does not read. A text is the list of its code points where the code looks at characters, and a
-- `String` where it is only passed on.
pub mod Base
pub mod Error
pub mod Auth
pub mod Providers
pub mod Crates
pub mod Pdu
pub mod Syntax
pub mod Bind
pub mod Transport
pub mod Client
pub mod NcacnNp
pub mod Debug
pub mod Examples
pub mod Tests
