-- ===== src/Client/Send/Refines.antt =====
-- `send_request_fragments` sends the fragments of its specification, in order, until a send fails.
use msrpce_dcerpc.Base.{ℕ, suc, ◌+◌, ◌-◌, ◌%◌, ◌≤◌, ◌<◌, min, Bytes, length, take, drop, IsU16}
use msrpce_dcerpc.Base.{ok, err, ◌≡◌, refl, arith, true, [], ◌∷◌, some}
use msrpce_dcerpc.Base.{slice_in}
use msrpce_dcerpc.Crates.{NdrCrate, UuidCrate}
use msrpce_dcerpc.Error.{Error, invalid_pdu}
use msrpce_dcerpc.Auth.{AuthProvider}
use msrpce_dcerpc.Transport.{RpcTransport, lift}
use msrpce_dcerpc.Pdu.Packet.{PduPacket, from_request_with_flags}
use msrpce_dcerpc.Pdu.Packet.RoundTrip.{wire}
use msrpce_dcerpc.Client.Packets.{
  RpcClient, request_fragment, request_packet, with_supported_level, IsSupported, is_above_connect,
  supported_level_refused,
}
use msrpce_dcerpc.Client.Send.{
  fragment_flags, send_fragment, send_loop, send_stub, send_request_fragments,
}
use msrpce_dcerpc.Client.Send.Chunks.{fragments, fragments_nil}
use msrpce_dcerpc.Client.Send.Step.{
  send_all, fragment_packet, fragment_wires, embed, fragment_step, embed_bind,
}
use msrpce_dcerpc.Client.Send.Loop.{loop_lem}

module _ {T P : Type 0} (Uuid : Type 0) ⦃n : NdrCrate⦄ ⦃u : UuidCrate Uuid⦄ ⦃a : AuthProvider P⦄
    ⦃tr : RpcTransport T⦄ where
  -- The empty stub goes out as one fragment.
  send_empty :
      (c : RpcClient T P) (call_id opnum max : ℕ)
      → IsSupported c.auth_provider
      → send_stub Uuid call_id opnum [] max c
        ≡ embed Uuid c
            (send_all (fragment_wires Uuid c call_id opnum 0 (fragments max [])) c.transport)
  unfolding send_stub send_all
  send_empty c call_id opnum max sup = rw (fragments_nil max) (
      embed_bind Uuid c c.transport (send_fragment Uuid call_id opnum 0 0x03 [])
        (tr.send_pdu
          (wire (fragment_packet Uuid c call_id opnum 0 (record { flags = 0x03; piece = [] }))))
        (lift (ok tt)) (lift (ok tt)) c
        (fragment_step Uuid c c.transport call_id opnum 0 (record { flags = 0x03; piece = [] }) sup
          (omega arith))
        (λ s. refl))

  send_stub_lem :
      (c : RpcClient T P) (call_id opnum max : ℕ) (stub : Bytes)
      → IsSupported c.auth_provider
      → 0 < max
      → max + 24 < 65536
      → send_stub Uuid call_id opnum stub max c
        ≡ embed Uuid c (
            send_all
              (fragment_wires Uuid c call_id opnum (length stub) (fragments max stub))
              c.transport)
  unfolding send_stub fragments
  send_stub_lem c call_id opnum max [] sup pos small = send_empty c call_id opnum max sup
  send_stub_lem c call_id opnum max (b ∷ bs) sup pos small =
      loop_lem Uuid c call_id opnum max (b ∷ bs) sup pos small (suc (length (b ∷ bs))) 0 c.transport
        (omega arith) (omega arith)

  -- `send_request_fragments` hands the transport the fragments of the stub, in order, until a send
  -- fails, and the outcome is that of the transport: for a supported level and a greatest fragment
  -- of at most 65535 bytes that has room for a byte after the 24 bytes of the headers.
  pub send_request_fragments_lem :
      (c : RpcClient T P) (call_id opnum : ℕ) (stub : Bytes)
      → IsSupported c.auth_provider
      → 24 < c.max_xmit_frag
      → IsU16 c.max_xmit_frag
      → send_request_fragments Uuid call_id opnum stub c
        ≡ embed Uuid c (
            send_all
              (fragment_wires Uuid c call_id opnum
                (length stub)
                (fragments (c.max_xmit_frag - 24) stub))
              c.transport)
  unfolding send_request_fragments
  send_request_fragments_lem c call_id opnum stub sup room small =
      ground (arith, send_stub_lem c call_id opnum (c.max_xmit_frag - 24) stub sup)

  -- With no room for a byte nothing is sent.
  pub send_request_fragments_small :
      (c : RpcClient T P) (call_id opnum : ℕ) (stub : Bytes)
      → c.max_xmit_frag ≤ 24
      → send_request_fragments Uuid call_id opnum stub c
        ≡ (err (invalid_pdu "max transmit fragment is too small"), c)
  unfolding send_request_fragments
  send_request_fragments_small c call_id opnum stub h = ground arith

  module _ (c : RpcClient T P) (p : P) (held : c.auth_provider ≡ some p)
      (above : is_above_connect (a.auth_level p) ≡ true) where
    unsupported_fragment :
        (call_id opnum hint flags : ℕ) (piece : Bytes)
        → send_fragment Uuid call_id opnum hint flags piece c
          ≡ (err (supported_level_refused {A = PduPacket} (a.auth_level p) above).0, c)
    unfolding send_fragment request_packet with_supported_level
    unsupported_fragment call_id opnum hint flags piece =
        let (e, f) = supported_level_refused {A = PduPacket} (a.auth_level p) above in
        ground (
          arith,
          held,
          f (from_request_with_flags call_id flags (request_fragment Uuid c opnum hint piece)),
        )

    unsupported_stub :
        (call_id opnum max : ℕ) (stub : Bytes)
        → 0 < max
        → send_stub Uuid call_id opnum stub max c
          ≡ (err (supported_level_refused {A = PduPacket} (a.auth_level p) above).0, c)
    unfolding send_stub send_loop
    unsupported_stub call_id opnum max [] pos =
        ground (arith, unsupported_fragment call_id opnum 0 0x03 [])
    unsupported_stub call_id opnum max (b ∷ bs) pos = ground (
      arith,
      slice_in {E = Error} (b ∷ bs) 0 (min (0 + max) (length (b ∷ bs))) (omega arith) (omega arith),
      unsupported_fragment call_id opnum (length (b ∷ bs) % 4294967296)
          (fragment_flags 0 (min (0 + max) (length (b ∷ bs))) (length (b ∷ bs)))
          (take (min (0 + max) (length (b ∷ bs)) - 0) (drop 0 (b ∷ bs))),
    )

    -- With a provider whose level is above `Connect` a request is refused, whatever its stub, and
    -- nothing is sent: the client and its transport are as they were. The greatest fragment has
    -- room for a byte.
    pub send_request_fragments_refused :
        (call_id opnum : ℕ) (stub : Bytes)
        → 24 < c.max_xmit_frag
        → (e : Error) × (send_request_fragments Uuid call_id opnum stub c ≡ (err e, c))
    unfolding send_request_fragments
    send_request_fragments_refused call_id opnum stub room = (
      (supported_level_refused {A = PduPacket} (a.auth_level p) above).0,
      ground (arith, unsupported_stub call_id opnum (c.max_xmit_frag - 24) stub (omega arith)),
    )
