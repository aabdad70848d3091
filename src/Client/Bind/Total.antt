-- ===== src/Client/Bind/Total.antt =====
-- A bind comes back to its caller, whatever the server and the provider answer.
use msrpce_dcerpc.Base.{
  ℕ, ◌≤◌, arith, Bytes, length, not, ◌==◌, ◌+◌, List, [], ◌∷◌, All, Option, none, some, ok, err,
  panic, diverge, Res, Returns, fail_if, fail_if-Returns, get_elem?, Option-cases, inl, inr,
}
use msrpce_dcerpc.Base.Text.{Text}
use msrpce_dcerpc.Crates.{NdrCrate, UuidCrate}
use msrpce_dcerpc.Error.{Error, invalid_pdu, bind_rejected}
use msrpce_dcerpc.Auth.{AuthProvider, RpcAuthError}
use msrpce_dcerpc.Auth.Answering.{IsAnswering}
use msrpce_dcerpc.Transport.{RpcTransport, lift, ◌>>=◌}
use msrpce_dcerpc.Transport.Ends.{
  Ends, returned, failed, >>=-Ends, lift-Ends, lift_then-Ends, Ends-Returns,
}
use msrpce_dcerpc.Pdu.Kind
use msrpce_dcerpc.Pdu.Kind.{PduType}
use msrpce_dcerpc.Pdu.Bodies.{BindPdu, encode_bind}
use msrpce_dcerpc.Pdu.Packet.{PduPacket, encode_packet, decode_packet}
use msrpce_dcerpc.Pdu.Packet.Total.{decode_packet-Returns}
use msrpce_dcerpc.Bind.Context.{
  PresentationContext, encode_context, encode_contexts, encode_context_list, bind_with_contexts,
}
use msrpce_dcerpc.Bind.Ack.{
  AcceptedContext, PresentationResult, decode_bind_ack, decode_bind_nak, accept_from,
  accepted_context, no_acceptance, note_rejection,
}
use msrpce_dcerpc.Bind.Ack.Total.{decode_bind_ack-Returns, decode_bind_nak-Returns}
use msrpce_dcerpc.Client.Packets.{default_max_xmit_frag, authenticated_packet, auth_pfc_flags}
use msrpce_dcerpc.Client.Send.Total.{encode_packet-Returns}
use msrpce_dcerpc.Client.Bind.{
  auth_result, start_auth, bind_packet, send_auth3, continue_auth, finish_auth, bound, accept_bind,
  take_bind_response, await_bind_response, bind_contexts_inner, bind_with_contexts_inner,
  bind_call_id, auth3_body,
}

auth_result-Returns : {A : Type 0} (r : Res RpcAuthError A) → Returns r → Returns (auth_result r)
auth_result-Returns (ok x) h = tt
auth_result-Returns (err e) h = tt
auth_result-Returns panic h = h
auth_result-Returns diverge h = h

module _ {Uuid : Type 0} ⦃u : UuidCrate Uuid⦄ where
  -- The contexts of a proposal that can be written.
  abbrev pub FitsCount : PresentationContext Uuid → Type 0
  FitsCount c = length c.transfer_syntaxes ≤ 255

  encode_contexts-Returns :
      (cs : List (PresentationContext Uuid)) → All FitsCount cs → Returns (encode_contexts cs)
  unfolding encode_contexts encode_context
  encode_contexts-Returns [] w = tt
  encode_contexts-Returns (c ∷ cs) w = ground (arith, encode_contexts-Returns cs w.1)

  bind_with_contexts-Returns :
      (x r g : ℕ) (cs : List (PresentationContext Uuid))
      → All FitsCount cs
      → Returns (bind_with_contexts x r g cs)
  unfolding bind_with_contexts encode_context_list
  bind_with_contexts-Returns x r g cs w = ground (arith, encode_contexts-Returns cs w)

no_acceptance-Returns : (A : Type 0) (first : Option Error) → Returns (no_acceptance {A = A} first)
unfolding no_acceptance
no_acceptance-Returns A none = tt
no_acceptance-Returns A (some e) = tt

accept_from-Returns :
    {Uuid : Type 0} (rs : List (PresentationResult Uuid))
    (proposed : List (PresentationContext Uuid)) (i : ℕ) (first : Option Error)
    → Returns (accept_from rs proposed i first)
unfolding accept_from
accept_from-Returns {Uuid} [] proposed i first = no_acceptance-Returns (AcceptedContext Uuid) first
accept_from-Returns (r ∷ rs) proposed i first = elim (Option-cases (get_elem? proposed i)) [
  | inl e ↦ ground arith
  | inr (c, e) ↦ ground (arith, accept_from-Returns rs proposed (i + 1) (note_rejection first c r))
]

module _ {P : Type 0} ⦃n : NdrCrate⦄ ⦃a : AuthProvider P⦄ where
  authenticated_packet-Returns :
      (ptype : PduType) (call_id flags : ℕ) (body : Bytes) (provider : P) (token : Bytes)
      → Returns (authenticated_packet ptype call_id flags body provider token)
  unfolding authenticated_packet
  authenticated_packet-Returns ptype call_id flags body provider token = ground arith

  bind_packet-Returns : (auth : Option (P × Bytes)) (body : Bytes) → Returns (bind_packet auth body)
  unfolding bind_packet
  bind_packet-Returns none body = tt
  bind_packet-Returns (some (provider, token)) body =
      authenticated_packet-Returns Kind.bind bind_call_id (auth_pfc_flags provider) body provider
        token

  module _ (answering : IsAnswering a) where
    start_auth-Returns : (auth : Option (Text × P)) → Returns (start_auth auth)
    unfolding start_auth
    start_auth-Returns none = tt
    start_auth-Returns (some (target, provider)) = ground (
      arith,
      auth_result-Returns (a.init_context target provider).0
          (answering.init_returns target provider),
    )

    module _ {T : Type 0} ⦃tr : RpcTransport T⦄
        (sends : (b : Bytes) (t : T) → Returns (tr.send_pdu b t).0)
        (receives : (t : T) → Returns (tr.recv_pdu t).0) where
      abbrev Any : T → Type 0
      Any t = Unit {0}

      send_auth3-Ends :
          (provider : P) (token : Bytes) (t : T) → Ends Any (send_auth3 provider token t)
      unfolding send_auth3
      send_auth3-Ends provider [] t = returned tt
      send_auth3-Ends provider (b ∷ bs) t =
          let packet =
            authenticated_packet Kind.auth3 bind_call_id (auth_pfc_flags provider) auth3_body
              provider (b ∷ bs) in
          lift_then-Ends Any packet (λ auth3. lift (encode_packet auth3) >>= tr.send_pdu) t
            (authenticated_packet-Returns Kind.auth3 bind_call_id (auth_pfc_flags provider)
              auth3_body provider (b ∷ bs))
            tt
            (λ auth3 e.
              lift_then-Ends Any (encode_packet auth3) tr.send_pdu t (encode_packet-Returns auth3)
                tt
                (λ bytes f.
                  lift-Ends Any (tr.send_pdu bytes t).0 (tr.send_pdu bytes t).1 (sends bytes t) tt))

      continue_auth-Ends :
          (provider : P) (value : Bytes) (t : T) → Ends Any (continue_auth provider value t)
      unfolding continue_auth
      continue_auth-Ends provider [] t = returned tt
      continue_auth-Ends provider (b ∷ bs) t =
          let (r, provider') = a.step (b ∷ bs) provider in
          lift_then-Ends Any (auth_result r)
            (λ token. send_auth3 provider' token >>= λ _. lift (ok (some provider'))) t
            (auth_result-Returns r (answering.step_returns (b ∷ bs) provider)) tt
            (λ token e.
              >>=-Ends Any Any (send_auth3 provider' token) (λ _. lift (ok (some provider'))) t
                (send_auth3-Ends provider' token t) (λ x f v. returned tt) (λ v. tt))

      finish_auth-Ends :
          (auth : Option (P × Bytes)) (value : Bytes) (t : T) → Ends Any (finish_auth auth value t)
      unfolding finish_auth
      finish_auth-Ends none value t = returned tt
      finish_auth-Ends (some (provider, token)) value t = continue_auth-Ends provider value t

      module _ {Uuid : Type 0} ⦃u : UuidCrate Uuid⦄
          (proposed : List (PresentationContext Uuid)) where
        accept_bind-Ends :
            (response : PduPacket) (auth : Option (P × Bytes)) (t : T)
            → Ends Any (accept_bind response proposed auth t)
        unfolding accept_bind bound accepted_context
        accept_bind-Ends response auth t =
            lift_then-Ends Any (decode_bind_ack response.body)
              (λ ack. lift (accepted_context ack proposed) >>= λ accepted.
                finish_auth auth response.auth_value >>= λ provider. bound ack accepted provider)
              t (decode_bind_ack-Returns Uuid response.body) tt
              (λ ack e.
                lift_then-Ends Any (accepted_context ack proposed)
                  (λ accepted. finish_auth auth response.auth_value >>= λ provider.
                    bound ack accepted provider)
                  t (accept_from-Returns ack.results proposed 0 none) tt
                  (λ accepted f.
                    >>=-Ends Any Any (finish_auth auth response.auth_value)
                      (λ provider. bound ack accepted provider) t
                      (finish_auth-Ends auth response.auth_value t) (λ provider g v. returned tt)
                      (λ v. tt)))

        take_bind_response-Ends :
            (ptype : PduType) (response : PduPacket) (auth : Option (P × Bytes)) (t : T)
            → Ends Any (take_bind_response ptype response proposed auth t)
        unfolding take_bind_response
        take_bind_response-Ends Kind.bind_ack response auth t = accept_bind-Ends response auth t
        take_bind_response-Ends Kind.bind_nak response auth t =
            lift_then-Ends Any (decode_bind_nak response.body)
              (λ reason. lift (err (bind_rejected reason))) t
              (decode_bind_nak-Returns response.body) tt (λ reason e. failed tt)
        take_bind_response-Ends _ response auth t = failed tt

        await_bind_response-Ends :
            (auth : Option (P × Bytes)) (t : T) → Ends Any (await_bind_response proposed auth t)
        unfolding await_bind_response
        await_bind_response-Ends auth t =
            >>=-Ends Any Any tr.recv_pdu
              (λ bytes. lift (decode_packet bytes) >>= λ response.
                lift (
                  fail_if (not (response.header.call_id == bind_call_id))
                    (invalid_pdu "bind response call id mismatch"))
                >>= λ _. take_bind_response response.header.ptype response proposed auth)
              t (lift-Ends Any (tr.recv_pdu t).0 (tr.recv_pdu t).1 (receives t) tt)
              (λ bytes e v.
                let s = (tr.recv_pdu t).1 in
                lift_then-Ends Any (decode_packet bytes)
                  (λ response.
                    lift (
                      fail_if (not (response.header.call_id == bind_call_id))
                        (invalid_pdu "bind response call id mismatch"))
                    >>= λ _. take_bind_response response.header.ptype response proposed auth)
                  s (decode_packet-Returns bytes) tt
                  (λ response f.
                    lift_then-Ends Any
                      (fail_if (not (response.header.call_id == bind_call_id))
                        (invalid_pdu "bind response call id mismatch"))
                      (λ _. take_bind_response response.header.ptype response proposed auth) s
                      (fail_if-Returns _ _) tt
                      (λ x g. take_bind_response-Ends response.header.ptype response auth s)))
              (λ v. tt)

        bind_contexts_inner-Ends :
            (auth : Option (Text × P)) (t : T)
            → All FitsCount proposed
            → Ends Any (bind_contexts_inner proposed auth t)
        unfolding bind_contexts_inner
        bind_contexts_inner-Ends auth t fits =
            let after_bytes = λ (held : Option (P × Bytes)) (bytes : Bytes).
              tr.send_pdu bytes >>= λ _. await_bind_response proposed held in
            let after_packet = λ (held : Option (P × Bytes)) (packet : PduPacket).
              lift (encode_packet packet) >>= after_bytes held in
            let after_body = λ (held : Option (P × Bytes)) (b : BindPdu).
              lift (bind_packet held (encode_bind b)) >>= after_packet held in
            let body = bind_with_contexts default_max_xmit_frag default_max_xmit_frag 0 proposed in
            lift_then-Ends Any (start_auth auth) (λ held. lift body >>= after_body held) t
              (start_auth-Returns auth) tt
              (λ held e0.
                lift_then-Ends Any body (after_body held) t
                  (bind_with_contexts-Returns default_max_xmit_frag default_max_xmit_frag 0 proposed
                    fits)
                  tt
                  (λ b e1.
                    lift_then-Ends Any (bind_packet held (encode_bind b)) (after_packet held) t
                      (bind_packet-Returns held (encode_bind b)) tt
                      (λ packet e2.
                        lift_then-Ends Any (encode_packet packet) (after_bytes held) t
                          (encode_packet-Returns packet) tt
                          (λ bytes e3.
                            >>=-Ends Any Any (tr.send_pdu bytes)
                              (λ _. await_bind_response proposed held) t
                              (lift-Ends Any (tr.send_pdu bytes t).0 (tr.send_pdu bytes t).1
                                (sends bytes t) tt)
                              (λ x e4 v. await_bind_response-Ends held (tr.send_pdu bytes t).1)
                              (λ v. tt)))))

module _ {T P Uuid : Type 0} ⦃n : NdrCrate⦄ ⦃u : UuidCrate Uuid⦄ ⦃a : AuthProvider P⦄
    ⦃tr : RpcTransport T⦄ where
  -- A bind comes back to its caller, with a client or with an error: for any proposal whose
  -- contexts have at most 255 transfer syntaxes each, with a provider or without, and whatever
  -- bytes the transport delivers, where no call of the transport and of the provider panics.
  pub bind_with_contexts_inner-Returns :
      (proposed : List (PresentationContext Uuid)) (auth : Option (Text × P)) (t : T)
      → IsAnswering a
      → ((b : Bytes) (s : T) → Returns (tr.send_pdu b s).0)
      → ((s : T) → Returns (tr.recv_pdu s).0)
      → All FitsCount proposed
      → Returns (bind_with_contexts_inner proposed auth t).0
  unfolding bind_with_contexts_inner
  bind_with_contexts_inner-Returns [] auth t answering sends receives fits = tt
  bind_with_contexts_inner-Returns (c ∷ cs) auth t answering sends receives fits =
      Ends-Returns (Any answering sends receives)
        (bind_contexts_inner-Ends answering sends receives (c ∷ cs) auth t fits)
