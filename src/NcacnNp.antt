-- ===== src/NcacnNp.antt =====
-- The transport over a named pipe of src/ncacn_np.rs, less its debug output.
pub mod Endpoint
pub mod Framing
pub mod StdIo
pub mod Finite
pub mod Simulation
pub mod Conversation
use msrpce_dcerpc.Base.{ℕ, ◌-◌, Bytes, ◌++◌, ltb, fail_if, ok}
use msrpce_dcerpc.Crates.{NdrCrate}
use msrpce_dcerpc.Error.{Result, invalid_pdu}
use msrpce_dcerpc.Transport.{RpcTransport, Action, lift, ◌>>=◌, ◌>>◌}
use msrpce_dcerpc.Pdu.Header.{decode_header, common_header_len}

-- `trait NamedPipe`, over the type of the pipe's state; `read_exact` fills a buffer of the given size.
pub record NamedPipe (S : Type 0) : Type 0 where
  pub read_exact : ℕ → S → Result Bytes × S
  pub write_all : Bytes → S → Result (Unit {0}) × S

module _ {S : Type 0} ⦃n : NdrCrate⦄ ⦃p : NamedPipe S⦄ where
  -- `NcacnNpTransport::send_pdu`
  unfoldable pub pipe_send_pdu : Bytes → Action S (Unit {0})
  pipe_send_pdu bytes = p.write_all bytes

  -- `NcacnNpTransport::recv_pdu`: the header says how much follows it.
  unfoldable pub pipe_recv_pdu : Action S Bytes
  pipe_recv_pdu = do
    header_bytes ← p.read_exact common_header_len
    header ← lift (decode_header header_bytes)
    lift (
        fail_if (ltb header.frag_length common_header_len)
          (invalid_pdu "fragment length is smaller than common header"))
    rest ← p.read_exact (header.frag_length - common_header_len)
    lift (ok (header_bytes ++ rest))

  -- `impl RpcTransport for NcacnNpTransport<P>`
  abbrev pub pipe_transport : RpcTransport S
  pipe_transport = record { send_pdu = pipe_send_pdu; recv_pdu = pipe_recv_pdu }
