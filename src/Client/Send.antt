-- ===== src/Client/Send.antt =====
-- `send_request_fragments` of src/client.rs.
pub mod Chunks
pub mod Step
pub mod Loop
pub mod Refines
pub mod Peer
pub mod Total
use msrpce_dcerpc.Base.{ℕ, zero, suc, ◌+◌, ◌-◌, ◌%◌, min, Bytes, length, ok, err, diverge, bit_or}
use msrpce_dcerpc.Base.{ltb, ◌==◌, fail_if, slice, Bool, true, false, [], ◌∷◌, List, if◌then◌else◌}
use msrpce_dcerpc.Crates.{NdrCrate, UuidCrate}
use msrpce_dcerpc.Error.{Result, invalid_pdu}
use msrpce_dcerpc.Auth.{AuthProvider}
use msrpce_dcerpc.Transport.{RpcTransport, Action, lift, ◌>>=◌, ◌>>◌}
use msrpce_dcerpc.Pdu.Header.{common_header_len, pfc_first_frag, pfc_last_frag}
use msrpce_dcerpc.Pdu.Packet.{encode_packet, checked_sub}
use msrpce_dcerpc.Client.Packets.{RpcClient, request_fragment, request_packet, request_header_len}

-- The flags of the fragment from `offset` to `end` of `total` bytes.
unfoldable pub fragment_flags : ℕ → ℕ → ℕ → ℕ
fragment_flags offset end total =
    let first : ℕ = if offset == 0 then bit_or 0 pfc_first_frag else 0 in
    if end == total then bit_or first pfc_last_frag else first

module _ {T P : Type 0} (Uuid : Type 0) ⦃n : NdrCrate⦄ ⦃u : UuidCrate Uuid⦄ ⦃a : AuthProvider P⦄
    ⦃tr : RpcTransport T⦄ where
  -- `self.transport.send_pdu(bytes)`
  unfoldable pub send_bytes : Bytes → Action (RpcClient T P) (Unit {0})
  send_bytes bytes c = let (r, t) = tr.send_pdu bytes c.transport in (r, record c { transport = t })

  -- One fragment: `request_fragment`, `request_packet`, `encode` and `send_pdu`.
  unfoldable pub send_fragment : ℕ → ℕ → ℕ → ℕ → Bytes → Action (RpcClient T P) (Unit {0})
  unfolding send_bytes
  send_fragment call_id opnum alloc_hint flags stub_data c =
      (do
        packet ←
            lift
              (request_packet c call_id flags (request_fragment Uuid c opnum alloc_hint stub_data))
        bytes ← lift (encode_packet packet)
        send_bytes bytes)
        c

  -- `while offset < request_stub.len()`, by the rounds that are left.
  unfoldable pub send_loop : ℕ → ℕ → ℕ → Bytes → ℕ → ℕ → Action (RpcClient T P) (Unit {0})
  send_loop zero call_id opnum request_stub max_stub_per_frag offset = lift diverge
  send_loop (suc rounds) call_id opnum request_stub max_stub_per_frag offset =
      elim (ltb offset (length request_stub)) [
        | false ↦ lift (ok tt)
        | true ↦ do
          let end = min (offset + max_stub_per_frag) (length request_stub)
          stub_data ← lift (slice request_stub offset end)
          send_fragment call_id opnum (length request_stub % 4294967296)
              (fragment_flags offset end (length request_stub)) stub_data
          send_loop rounds call_id opnum request_stub max_stub_per_frag end
      ]

  -- What follows the two checks of the size.
  unfoldable pub send_stub : ℕ → ℕ → Bytes → ℕ → Action (RpcClient T P) (Unit {0})
  send_stub call_id opnum [] max_stub_per_frag = do
    send_fragment call_id opnum 0 (bit_or pfc_first_frag pfc_last_frag) []
    lift (ok tt)
  send_stub call_id opnum (b ∷ bs) max_stub_per_frag =
      send_loop (suc (length (b ∷ bs))) call_id opnum (b ∷ bs) max_stub_per_frag 0

  -- `RpcClient::send_request_fragments`; every round sends a byte at least, so one round more than
  -- the stub has bytes is enough.
  unfoldable pub send_request_fragments : ℕ → ℕ → Bytes → Action (RpcClient T P) (Unit {0})
  send_request_fragments call_id opnum request_stub c =
      (do
        max_stub_per_frag ← lift (
            checked_sub c.max_xmit_frag (common_header_len + request_header_len)
              "max transmit fragment is too small")
        lift (fail_if (max_stub_per_frag == 0) (invalid_pdu "max transmit fragment is too small"))
        send_stub call_id opnum request_stub max_stub_per_frag)
        c
