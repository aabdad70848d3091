-- ===== src/Client/Bind/Exchange.antt =====
-- A handshake without a provider over a channel that delivers an acknowledgement.
use msrpce_dcerpc.Base.{
  ℕ, ◌+◌, ◌<◌, Bytes, length, IsU8, List, [], ◌∷◌, ◌++◌, ok, ◌≡◌, refl, arith, none,
}
use msrpce_dcerpc.Crates.{NdrCrate, UuidCrate, little}
use msrpce_dcerpc.Auth.{AuthProvider}
use msrpce_dcerpc.Pdu.Kind
use msrpce_dcerpc.Pdu.Header.{new_header}
use msrpce_dcerpc.Pdu.Bodies.{BindPdu, encode_bind}
use msrpce_dcerpc.Pdu.Packet.{
  PduPacket, new_packet, stamp, from_body_with_flags, fragment_length, trailer_room,
}
use msrpce_dcerpc.Pdu.Packet.RoundTrip.{IsWirePacket, wire, decode_packet-encode_packet}
use msrpce_dcerpc.Pdu.Packet.FromBody.{received, decode_packet-from_body_with_flags}
use msrpce_dcerpc.Bind.Context.{PresentationContext, bind_with_contexts}
use msrpce_dcerpc.Bind.Ack.{BindAckPdu, AcceptedContext}
use msrpce_dcerpc.Bind.Ack.Accept.{Accepts, accepted_context_iff}
use msrpce_dcerpc.Bind.Ack.RoundTrip.{IsWireAck, wire_ack, decode_bind_ack-wire_ack}
use msrpce_dcerpc.Client.Packets.{RpcClient, default_max_xmit_frag}
use msrpce_dcerpc.Client.Receive.Queue.{Queue, queue_transport}
use msrpce_dcerpc.Client.Bind.{
  start_auth, bind_packet, finish_auth, bound, accept_bind, take_bind_response, await_bind_response,
  bind_contexts_inner, bind_with_contexts_inner, bind_call_id,
}

-- The packet of a bind without a provider.
abbrev pub plain_bind : ⦃n : NdrCrate⦄ → BindPdu → PduPacket
plain_bind b = new_packet (new_header Kind.bind 0x03 bind_call_id) (encode_bind b) []

module _ ⦃n : NdrCrate⦄ where
  pub plain_bind-IsWirePacket :
      (b : BindPdu) → length (encode_bind b) + 16 < 65536 → IsWirePacket (plain_bind b)
  unfolding new_packet new_header fragment_length trailer_room
  plain_bind-IsWirePacket b fits = record {
    head = record {
      version = refl;
      minor = omega arith;
      flags = omega arith;
      drep = n.windows_default-IsArray4;
      frag = omega arith;
      auth = omega arith;
      call = omega arith;
      order = little;
      known = n.windows_default-little;
    };
    paired = tt;
    fits = omega arith;
  }

  -- What the server sends.
  abbrev pub ack_bytes :
      {Uuid : Type 0} ⦃u : UuidCrate Uuid⦄ → BindAckPdu Uuid → Bytes → ℕ → ℕ → ℕ → ℕ → Bytes
  ack_bytes ack pad r0 r1 r2 flags =
      wire (from_body_with_flags Kind.bind_ack bind_call_id flags (wire_ack ack pad r0 r1 r2))

-- The client after the handshake.
abbrev pub bound_client :
    {P Uuid : Type 0} → BindAckPdu Uuid → AcceptedContext Uuid → Queue → RpcClient Queue P
bound_client ack accepted q = record {
  transport = q;
  context_id = accepted.context_id;
  call_id = 2;
  max_xmit_frag = ack.max_xmit_frag;
  auth_provider = none;
}

module _ {P Uuid : Type 0} ⦃n : NdrCrate⦄ ⦃u : UuidCrate Uuid⦄ ⦃a : AuthProvider P⦄
    (x : PresentationContext Uuid) (xs : List (PresentationContext Uuid)) (ack : BindAckPdu Uuid)
    (pad : Bytes) (r0 r1 r2 flags : ℕ) (accepted : AcceptedContext Uuid) (wa : IsWireAck ack pad)
    (small : IsU8 flags) (fits : length (wire_ack ack pad r0 r1 r2) + 16 < 65536)
    (chosen : Accepts ack.results (x ∷ xs) 0 accepted) where
  accept :
      (q : Queue)
      → accept_bind {P = P}
          (received Kind.bind_ack bind_call_id flags (wire_ack ack pad r0 r1 r2))
          (x ∷ xs)
          none
          q
        ≡ (ok (bound_client ack accepted q), q)
  unfolding accept_bind bound finish_auth from_body_with_flags
  accept q =
      rw
        (
          decode_bind_ack-wire_ack ack pad r0 r1 r2 wa,
          (accepted_context_iff ack (x ∷ xs) accepted).1 chosen,
        )
        refl

  await :
      (rest sent : List Bytes)
      → await_bind_response {P = P}
          (x ∷ xs)
          none
          (record { incoming = ack_bytes ack pad r0 r1 r2 flags ∷ rest; sent = sent })
        ≡ (
          ok (bound_client ack accepted (record { incoming = rest; sent = sent })),
          record { incoming = rest; sent = sent },
        )
  unfolding await_bind_response take_bind_response from_body_with_flags stamp new_header
  await rest sent =
      rw
        (decode_packet-from_body_with_flags Kind.bind_ack bind_call_id flags
          (wire_ack ack pad r0 r1 r2) (omega arith) small fits)
        (accept (record { incoming = rest; sent = sent }))

  -- A bind without a provider, of one context at least, over a channel that delivers an
  -- acknowledgement of it in which some proposed context is accepted: one PDU goes out, the
  -- encoded bind, and the client comes back bound to the first accepted context, with the fragment
  -- size of the acknowledgement. The bind and the acknowledgement each fit a fragment.
  pub bind_with_contexts_inner-accepted :
      (b : BindPdu) (rest sent : List Bytes)
      → bind_with_contexts default_max_xmit_frag default_max_xmit_frag 0 (x ∷ xs) ≡ ok b
      → length (encode_bind b) + 16 < 65536
      → bind_with_contexts_inner {P = P}
          (x ∷ xs)
          none
          (record { incoming = ack_bytes ack pad r0 r1 r2 flags ∷ rest; sent = sent })
        ≡ (
          ok (
              bound_client {P = P} ack accepted
                (record { incoming = rest; sent = sent ++ (wire (plain_bind b) ∷ []) })),
          record { incoming = rest; sent = sent ++ (wire (plain_bind b) ∷ []) },
        )
  unfolding bind_with_contexts_inner bind_contexts_inner start_auth bind_packet
  bind_with_contexts_inner-accepted b rest sent made room =
      rw (made, (decode_packet-encode_packet (plain_bind b) (plain_bind-IsWirePacket b room)).0)
        (await rest (sent ++ (wire (plain_bind b) ∷ [])))
