-- ===== src/Client/Bind/Handshake.antt =====
-- What a successful handshake has seen, and what it makes of it.
use msrpce_dcerpc.Base.{Bytes, ok, err, ◌≡◌, refl, arith, List, [], ◌∷◌, Option, fail_if, ◌==◌, not}
use msrpce_dcerpc.Base.Text.{Text}
use msrpce_dcerpc.Crates.{NdrCrate, UuidCrate}
use msrpce_dcerpc.Error.{Result, invalid_pdu, bind_rejected}
use msrpce_dcerpc.Error
use msrpce_dcerpc.Auth.{AuthProvider}
use msrpce_dcerpc.Transport.{RpcTransport, lift, ◌>>=◌, >>=-eq-ok, lift-eq-ok}
use msrpce_dcerpc.Pdu.Kind
use msrpce_dcerpc.Pdu.Kind.{PduType}
use msrpce_dcerpc.Pdu.Bodies.{BindPdu, encode_bind}
use msrpce_dcerpc.Pdu.Packet.{PduPacket, encode_packet, decode_packet}
use msrpce_dcerpc.Bind.Context.{PresentationContext, bind_with_contexts}
use msrpce_dcerpc.Bind.Ack.{
  BindAckPdu, AcceptedContext, decode_bind_ack, decode_bind_nak, accepted_context,
}
use msrpce_dcerpc.Bind.Ack.Accept.{Accepts, accepted_context_iff}
use msrpce_dcerpc.Client.Packets.{RpcClient, default_max_xmit_frag}
use msrpce_dcerpc.Client.Bind.{
  start_auth, bind_packet, finish_auth, bound, accept_bind, take_bind_response, await_bind_response,
  bind_contexts_inner, bind_with_contexts_inner, bind_call_id,
}

module _ {T P Uuid : Type 0} ⦃n : NdrCrate⦄ ⦃u : UuidCrate Uuid⦄ ⦃a : AuthProvider P⦄
    ⦃tr : RpcTransport T⦄ where
  -- The client that a response binds, for the contexts proposed.
  pub record Bound (response : PduPacket) (proposed : List (PresentationContext Uuid))
      (c : RpcClient T P) (t : T) : Type 0 where
    pub kind : response.header.ptype ≡ Kind.bind_ack
    pub ack : BindAckPdu Uuid
    pub decoded : decode_bind_ack response.body ≡ ok ack
    pub accepted : AcceptedContext Uuid
    pub first : Accepts ack.results proposed 0 accepted
    pub context : c.context_id ≡ accepted.context_id
    pub limit : c.max_xmit_frag ≡ ack.max_xmit_frag
    pub call : c.call_id ≡ 2
    pub held : c.transport ≡ t

  bound-Bound :
      (response : PduPacket) (proposed : List (PresentationContext Uuid)) (c : RpcClient T P)
      → response.header.ptype ≡ Kind.bind_ack
      → (ack : BindAckPdu Uuid) → decode_bind_ack response.body ≡ ok ack
      → (accepted : AcceptedContext Uuid) → Accepts ack.results proposed 0 accepted
      → (provider : Option P) (s t' : T) → bound ack accepted provider s ≡ (ok c, t')
      → Bound response proposed c t'
  unfolding bound
  bound-Bound response proposed c k ack d accepted first provider s t' h = record {
    kind = k;
    ack = ack;
    decoded = d;
    accepted = accepted;
    first = first;
    context = ground arith;
    limit = ground arith;
    call = ground arith;
    held = ground arith;
  }

  accept_bind-Bound :
      (response : PduPacket) (proposed : List (PresentationContext Uuid))
      (auth : Option (P × Bytes)) (t t' : T) (c : RpcClient T P)
      → response.header.ptype ≡ Kind.bind_ack
      → accept_bind response proposed auth t ≡ (ok c, t')
      → Bound response proposed c t'
  unfolding accept_bind bound
  accept_bind-Bound response proposed auth t t' c k h =
      let (ack, e1, h1) =
        lift-eq-ok (decode_bind_ack response.body)
          (λ ack. lift (accepted_context ack proposed) >>= λ accepted.
            finish_auth auth response.auth_value >>= λ provider. bound ack accepted provider)
          t h in
      let (accepted, e2, h2) =
        lift-eq-ok (accepted_context ack proposed)
          (λ accepted.
            finish_auth auth response.auth_value >>= λ provider. bound ack accepted provider)
          t h1 in
      let (provider, s, e3, h3) =
        >>=-eq-ok (finish_auth auth response.auth_value) (λ provider. bound ack accepted provider) t
          h2 in
      bound-Bound response proposed c k ack e1 accepted
        ((accepted_context_iff ack proposed accepted).0 e2) provider s t' h3

  take_bind_response-Bound :
      (ptype : PduType) (response : PduPacket) (proposed : List (PresentationContext Uuid))
      (auth : Option (P × Bytes)) (t t' : T) (c : RpcClient T P)
      → response.header.ptype ≡ ptype
      → take_bind_response ptype response proposed auth t ≡ (ok c, t')
      → Bound response proposed c t'
  unfolding take_bind_response
  take_bind_response-Bound Kind.bind_ack response proposed auth t t' c k h =
      accept_bind-Bound response proposed auth t t' c k h
  take_bind_response-Bound Kind.bind_nak response proposed auth t t' c k h =
      let (reason, e, g) =
        lift-eq-ok (decode_bind_nak response.body) (λ reason. lift (err (bind_rejected reason))) t
          h in
      absurd (ground arith)
  take_bind_response-Bound _ response proposed auth t t' c k h = absurd (ground arith)

  -- The PDU that the transport delivered, and what it decodes to.
  pub record Answered (proposed : List (PresentationContext Uuid)) (c : RpcClient T P) (t : T)
      : Type 0 where
    pub before : T
    pub after : T
    pub bytes : Bytes
    pub received : tr.recv_pdu before ≡ (ok bytes, after)
    pub response : PduPacket
    pub read : decode_packet bytes ≡ ok response
    pub same_call : response.header.call_id ≡ 1
    pub binds : Bound response proposed c t

  await_bind_response-Answered :
      (proposed : List (PresentationContext Uuid)) (auth : Option (P × Bytes)) (t t' : T)
      (c : RpcClient T P)
      → await_bind_response proposed auth t ≡ (ok c, t')
      → Answered proposed c t'
  unfolding await_bind_response
  await_bind_response-Answered proposed auth t t' c h =
      let take =
        λ (response : PduPacket). take_bind_response response.header.ptype response proposed auth in
      let check = λ (response : PduPacket).
        fail_if {E = Error.Error} (not (response.header.call_id == bind_call_id))
          (invalid_pdu "bind response call id mismatch") in
      let (bytes, s, e1, h1) =
        >>=-eq-ok tr.recv_pdu
          (λ bytes.
            lift (decode_packet bytes) >>= λ response. lift (check response) >>= λ _. take response)
          t h in
      let (response, e2, h2) =
        lift-eq-ok (decode_packet bytes) (λ response. lift (check response) >>= λ _. take response)
          s h1 in
      let (_, e3, h3) = lift-eq-ok (check response) (λ _. take response) s h2 in
      record {
        before = t;
        after = s;
        bytes = bytes;
        received = e1;
        response = response;
        read = e2;
        same_call = ground arith;
        binds =
            take_bind_response-Bound response.header.ptype response proposed auth s t' c refl h3;
      }

  -- A bind that succeeds has received a bind acknowledgement with call id 1, and the client stands
  -- for the first context that the acknowledgement accepts: one that was proposed, in its place,
  -- with its id; the client has the fragment size of the acknowledgement, call id 2 and the
  -- transport. This holds for every transport and provider.
  pub bind_with_contexts_inner-Answered :
      (proposed : List (PresentationContext Uuid)) (auth : Option (Text × P)) (t t' : T)
      (c : RpcClient T P)
      → bind_with_contexts_inner proposed auth t ≡ (ok c, t')
      → Answered proposed c t'
  unfolding bind_with_contexts_inner bind_contexts_inner
  bind_with_contexts_inner-Answered [] auth t t' c h = absurd (ground arith)
  bind_with_contexts_inner-Answered (x ∷ xs) auth t t' c h =
      let cs = x ∷ xs in
      let tail = λ (started : Option (P × Bytes)).
        λ (bytes : Bytes). tr.send_pdu bytes >>= λ _. await_bind_response cs started in
      let encoded = λ (started : Option (P × Bytes)).
        λ (packet : PduPacket). lift (encode_packet packet) >>= λ bytes. tail started bytes in
      let made = λ (started : Option (P × Bytes)). λ (b : BindPdu).
        lift (bind_packet started (encode_bind b)) >>= λ packet. encoded started packet in
      let (started, e1, h1) =
        lift-eq-ok (start_auth auth)
          (λ started.
            lift (bind_with_contexts default_max_xmit_frag default_max_xmit_frag 0 cs) >>= λ b.
            made started b)
          t h in
      let (b, e2, h2) =
        lift-eq-ok (bind_with_contexts default_max_xmit_frag default_max_xmit_frag 0 cs)
          (λ b. made started b) t h1 in
      let (packet, e3, h3) =
        lift-eq-ok (bind_packet started (encode_bind b)) (λ packet. encoded started packet) t h2 in
      let (bytes, e4, h4) = lift-eq-ok (encode_packet packet) (λ bytes. tail started bytes) t h3 in
      let (_, s, e5, h5) =
        >>=-eq-ok (tr.send_pdu bytes) (λ _. await_bind_response cs started) t h4 in
      await_bind_response-Answered cs started s t' c h5
