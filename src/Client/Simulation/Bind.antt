-- ===== src/Client/Simulation/Bind.antt =====
-- A bind over a transport that simulates another.
use msrpce_dcerpc.Base.{refl, Bytes, [], ◌∷◌, List, ok, err, ◌==◌, not, fail_if, Option, none, some}
use msrpce_dcerpc.Base.Text.{Text}
use msrpce_dcerpc.Crates.{NdrCrate, UuidCrate}
use msrpce_dcerpc.Error.{invalid_pdu, bind_rejected}
use msrpce_dcerpc.Auth.{AuthProvider}
use msrpce_dcerpc.Transport.{RpcTransport, Action, lift, ◌>>=◌}
use msrpce_dcerpc.Transport.Simulation.{
  Agree, returned, failed, same, Same, Simulates, >>=-Agree, lift_then-Agree,
}
use msrpce_dcerpc.Pdu.Kind.{PduType}
use msrpce_dcerpc.Pdu.Kind
use msrpce_dcerpc.Pdu.Packet.{PduPacket, encode_packet, decode_packet}
use msrpce_dcerpc.Pdu.Bodies.{BindPdu, encode_bind}
use msrpce_dcerpc.Bind.Context.{PresentationContext, bind_with_contexts}
use msrpce_dcerpc.Bind.Ack.{
  BindAckPdu, AcceptedContext, decode_bind_ack, decode_bind_nak, accepted_context,
}
use msrpce_dcerpc.Client.Packets.{
  RpcClient, authenticated_packet, auth_pfc_flags, default_max_xmit_frag,
}
use msrpce_dcerpc.Client.Bind.{
  auth_result, bind_call_id, auth3_body, start_auth, bind_packet, send_auth3, continue_auth,
  finish_auth, bound, accept_bind, take_bind_response, await_bind_response, bind_contexts_inner,
  bind_with_contexts_inner,
}
use msrpce_dcerpc.Client.Simulation.{Paired}

-- The rest of a bind, from each of its steps on.
module _ {T P Uuid : Type 0} ⦃n : NdrCrate⦄ ⦃u : UuidCrate Uuid⦄ ⦃a : AuthProvider P⦄
    ⦃tr : RpcTransport T⦄ (proposed : List (PresentationContext Uuid))
    (auth : Option (P × Bytes)) where
  abbrev from_accepted :
      PduPacket → BindAckPdu Uuid → AcceptedContext Uuid → Action T (RpcClient T P)
  from_accepted response ack accepted =
      finish_auth auth response.auth_value >>= λ provider. bound ack accepted provider

  abbrev from_ack : PduPacket → BindAckPdu Uuid → Action T (RpcClient T P)
  from_ack response ack = lift (accepted_context ack proposed) >>= from_accepted response ack

  abbrev from_response : PduPacket → Action T (RpcClient T P)
  from_response response =
      lift (
        fail_if (not (response.header.call_id == bind_call_id))
          (invalid_pdu "bind response call id mismatch"))
      >>= λ _. take_bind_response response.header.ptype response proposed auth

  abbrev from_bytes : Bytes → Action T (RpcClient T P)
  from_bytes bytes = lift (decode_packet bytes) >>= from_response

  abbrev from_encoded : Bytes → Action T (RpcClient T P)
  from_encoded bytes = tr.send_pdu bytes >>= λ _. await_bind_response proposed auth

  abbrev from_packet : PduPacket → Action T (RpcClient T P)
  from_packet packet = lift (encode_packet packet) >>= from_encoded

  abbrev from_bind : BindPdu → Action T (RpcClient T P)
  from_bind b = lift (bind_packet auth (encode_bind b)) >>= from_packet

  abbrev from_auth : Action T (RpcClient T P)
  from_auth =
      lift (bind_with_contexts default_max_xmit_frag default_max_xmit_frag 0 proposed) >>= from_bind

module _ {T T' P : Type 0} (R : T → T' → Type 0) ⦃n : NdrCrate⦄ ⦃a : AuthProvider P⦄
    ⦃tr : RpcTransport T⦄ ⦃tr' : RpcTransport T'⦄ (sim : Simulates R tr tr') where
  abbrev Clients : RpcClient T P → RpcClient T' P → Type 0
  Clients c k = Paired R c k

  send_auth3-Agree :
      (p : P) (token : Bytes) (s : T) (t : T')
      → R s t
      → Agree Same R (send_auth3 p token s) (send_auth3 p token t)
  unfolding send_auth3
  send_auth3-Agree p [] s t r = returned refl r
  send_auth3-Agree p (b ∷ bs) s t r =
      lift_then-Agree R Same
        (authenticated_packet Kind.auth3 bind_call_id (auth_pfc_flags p) auth3_body p (b ∷ bs))
        (λ auth3. lift (encode_packet auth3) >>= tr.send_pdu)
        (λ auth3. lift (encode_packet auth3) >>= tr'.send_pdu) s t r
        (λ auth3.
          lift_then-Agree R Same (encode_packet auth3) tr.send_pdu tr'.send_pdu s t r
            (λ bytes. sim.sends bytes s t r))

  finish_auth-Agree :
      (provider : Option (P × Bytes)) (auth_value : Bytes) (s : T) (t : T')
      → R s t
      → Agree Same R (finish_auth provider auth_value s) (finish_auth provider auth_value t)
  unfolding finish_auth continue_auth
  finish_auth-Agree none auth_value s t r = returned refl r
  finish_auth-Agree (some (provider, token)) [] s t r = returned refl r
  finish_auth-Agree (some (provider, token)) (b ∷ bs) s t r =
      let provider' = (a.step (b ∷ bs) provider).1 in
      lift_then-Agree R Same (auth_result (a.step (b ∷ bs) provider).0)
        (λ token'. send_auth3 provider' token' >>= λ _. lift (ok (some provider')))
        (λ token'. send_auth3 provider' token' >>= λ _. lift (ok (some provider'))) s t r
        (λ token'.
          >>=-Agree R Same (send_auth3 provider' token') (send_auth3 provider' token')
            (λ _. lift (ok (some provider'))) (λ _. lift (ok (some provider'))) s t
            (send_auth3-Agree provider' token' s t r) (λ x s' t' v. returned refl v))

  module _ {Uuid : Type 0} ⦃u : UuidCrate Uuid⦄ where
    accept_bind-Agree :
        (p : PduPacket) (proposed : List (PresentationContext Uuid)) (auth : Option (P × Bytes))
        (s : T) (t : T')
        → R s t
        → Agree Clients R (accept_bind p proposed auth s) (accept_bind p proposed auth t)
    unfolding accept_bind bound
    accept_bind-Agree p proposed auth s t r =
        lift_then-Agree R Clients (decode_bind_ack p.body) (from_ack proposed auth p)
          (from_ack proposed auth p) s t r
          (λ ack.
            lift_then-Agree R Clients (accepted_context ack proposed)
              (from_accepted proposed auth p ack) (from_accepted proposed auth p ack) s t r
              (λ accepted.
                >>=-Agree R Clients (finish_auth auth p.auth_value) (finish_auth auth p.auth_value)
                  (λ provider. bound ack accepted provider)
                  (λ provider. bound ack accepted provider) s t
                  (finish_auth-Agree auth p.auth_value s t r)
                  (λ provider s' t' v.
                    returned
                      (record {
                        related = v;
                        same_context = refl;
                        same_call = refl;
                        same_limit = refl;
                        same_provider = refl;
                      })
                      v)))

    take_bind_response-Agree :
        (ptype : PduType) (p : PduPacket) (proposed : List (PresentationContext Uuid))
        (auth : Option (P × Bytes)) (s : T) (t : T')
        → R s t
        → Agree Clients R
            (take_bind_response ptype p proposed auth s)
            (take_bind_response ptype p proposed auth t)
    unfolding take_bind_response
    take_bind_response-Agree Kind.bind_ack p proposed auth s t r =
        accept_bind-Agree p proposed auth s t r
    take_bind_response-Agree Kind.bind_nak p proposed auth s t r =
        lift_then-Agree R Clients (decode_bind_nak p.body)
          (λ reason. lift (err (bind_rejected reason)))
          (λ reason. lift (err (bind_rejected reason))) s t r (λ reason. failed same r)
    take_bind_response-Agree _ p proposed auth s t r = failed same r

    await_bind_response-Agree :
        (proposed : List (PresentationContext Uuid)) (auth : Option (P × Bytes)) (s : T) (t : T')
        → R s t
        → Agree Clients R
            (await_bind_response proposed auth s)
            (await_bind_response proposed auth t)
    unfolding await_bind_response
    await_bind_response-Agree proposed auth s t r =
        >>=-Agree R Clients tr.recv_pdu tr'.recv_pdu (from_bytes proposed auth)
          (from_bytes proposed auth) s t (sim.receives s t r)
          (λ bytes s' t' v.
            lift_then-Agree R Clients (decode_packet bytes) (from_response proposed auth)
              (from_response proposed auth) s' t' v
              (λ p.
                lift_then-Agree R Clients
                  (fail_if (not (p.header.call_id == bind_call_id))
                    (invalid_pdu "bind response call id mismatch"))
                  (λ _. take_bind_response p.header.ptype p proposed auth)
                  (λ _. take_bind_response p.header.ptype p proposed auth) s' t' v
                  (λ x. take_bind_response-Agree p.header.ptype p proposed auth s' t' v)))

    -- A bind does the same over a transport that simulates another: both succeed, with clients that
    -- differ in their transports alone, or both fail with the same error, but for the text of a
    -- transport's error, and the transports are related again.
    pub bind_with_contexts_inner-Agree :
        (proposed : List (PresentationContext Uuid)) (auth : Option (Text × P)) (s : T) (t : T')
        → R s t
        → Agree Clients R
            (bind_with_contexts_inner proposed auth s)
            (bind_with_contexts_inner proposed auth t)
    unfolding bind_with_contexts_inner bind_contexts_inner
    bind_with_contexts_inner-Agree [] auth s t r = failed same r
    bind_with_contexts_inner-Agree (x ∷ xs) auth s t r =
        lift_then-Agree R Clients (start_auth auth) (from_auth (x ∷ xs)) (from_auth (x ∷ xs)) s t r
          (λ provider.
            lift_then-Agree R Clients
              (bind_with_contexts default_max_xmit_frag default_max_xmit_frag 0 (x ∷ xs))
              (from_bind (x ∷ xs) provider) (from_bind (x ∷ xs) provider) s t r
              (λ b.
                lift_then-Agree R Clients (bind_packet provider (encode_bind b))
                  (from_packet (x ∷ xs) provider) (from_packet (x ∷ xs) provider) s t r
                  (λ p.
                    lift_then-Agree R Clients (encode_packet p) (from_encoded (x ∷ xs) provider)
                      (from_encoded (x ∷ xs) provider) s t r
                      (λ bytes.
                        >>=-Agree R Clients (tr.send_pdu bytes) (tr'.send_pdu bytes)
                          (λ _. await_bind_response (x ∷ xs) provider)
                          (λ _. await_bind_response (x ∷ xs) provider) s t (sim.sends bytes s t r)
                          (λ y s' t' v. await_bind_response-Agree (x ∷ xs) provider s' t' v)))))
