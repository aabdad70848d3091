-- ===== src/Client/Bind.antt =====
-- The bind handshake of src/client.rs, as actions on the transport.
pub mod Refused
pub mod Total
pub mod Handshake
pub mod Exchange
use msrpce_dcerpc.Base.{
  ℕ, Bytes, length, ok, err, panic, diverge, String, List, [], ◌∷◌, Option, none, some, bit_or,
}
use msrpce_dcerpc.Base.{fail_if, ◌==◌, not, Res, ◌+◌}
use msrpce_dcerpc.Base.Text.{Text}
use msrpce_dcerpc.Crates.{NdrCrate, UuidCrate}
use msrpce_dcerpc.Error.{Result, invalid_pdu, bind_rejected}
use msrpce_dcerpc.Auth.{AuthProvider, RpcAuthError, error_of_auth}
use msrpce_dcerpc.Transport.{RpcTransport, Action, lift, ◌>>=◌, ◌>>◌}
use msrpce_dcerpc.Syntax.{InterfaceId, interface_syntax_id, ndr32}
use msrpce_dcerpc.Pdu.Kind
use msrpce_dcerpc.Pdu.Kind.{PduType}
use msrpce_dcerpc.Pdu.Header.{new_header, pfc_first_frag, pfc_last_frag}
use msrpce_dcerpc.Pdu.Bodies.{BindPdu, encode_bind}
use msrpce_dcerpc.Pdu.Packet.{PduPacket, new_packet, encode_packet, decode_packet}
use msrpce_dcerpc.Bind.Context.{PresentationContext, new_context, bind_with_contexts}
use msrpce_dcerpc.Bind.Ack.{
  BindAckPdu, AcceptedContext, decode_bind_ack, decode_bind_nak, accepted_context,
}
use msrpce_dcerpc.Client.Packets.{
  RpcClient, default_max_xmit_frag, authenticated_packet, auth_pfc_flags,
}

-- A result of a provider, its error converted as `?` does.
abbrev pub auth_result : {A : Type 0} → Res RpcAuthError A → Result A
auth_result (ok a) = ok a
auth_result (err e) = err (error_of_auth e)
auth_result panic = panic
auth_result diverge = diverge

-- The call id of the handshake.
abbrev pub bind_call_id : ℕ
bind_call_id = 1

-- `b"    "`, the body of the third leg.
abbrev pub auth3_body : Bytes
auth3_body = 0x20 ∷ 0x20 ∷ 0x20 ∷ 0x20 ∷ []

module _ {P : Type 0} ⦃a : AuthProvider P⦄ where
  -- `provider.init_context(target)?`, under the option: the provider with its first token.
  unfoldable pub start_auth : Option (Text × P) → Result (Option (P × Bytes))
  start_auth none = ok none
  start_auth (some (target, provider)) =
      let (r, provider') = a.init_context target provider in
      elim (auth_result r) [
        | ok token ↦ ok (some (provider', token))
        | err e ↦ err e
        | panic ↦ panic
        | diverge ↦ diverge
      ]

  -- `bind_packet` of `bind_with_contexts_inner`.
  unfoldable pub bind_packet : ⦃n : NdrCrate⦄ → Option (P × Bytes) → Bytes → Result PduPacket
  bind_packet (some (provider, token)) bind_body =
      authenticated_packet Kind.bind bind_call_id (auth_pfc_flags provider) bind_body provider token
  bind_packet none bind_body = ok (
      new_packet (new_header Kind.bind (bit_or pfc_first_frag pfc_last_frag) bind_call_id) bind_body
        [])

  module _ {T : Type 0} ⦃n : NdrCrate⦄ ⦃tr : RpcTransport T⦄ where
    -- The third leg, where the provider has a token for it.
    unfoldable pub send_auth3 : P → Bytes → Action T (Unit {0})
    send_auth3 provider [] = lift (ok tt)
    send_auth3 provider (b ∷ bs) = do
      auth3 ← lift (
          authenticated_packet Kind.auth3 bind_call_id (auth_pfc_flags provider) auth3_body provider
            (b ∷ bs))
      bytes ← lift (encode_packet auth3)
      tr.send_pdu bytes

    -- `provider.step(response.auth_value())?` and the third leg.
    unfoldable pub continue_auth : P → Bytes → Action T (Option P)
    unfolding send_auth3
    continue_auth provider [] = lift (ok (some provider))
    continue_auth provider (b ∷ bs) =
        let (r, provider') = a.step (b ∷ bs) provider in
        do token ← lift (auth_result r); send_auth3 provider' token; lift (ok (some provider'))

    -- `if let Some((provider, _)) = auth_provider.as_mut() { … }`, with the provider that is left.
    unfoldable pub finish_auth : Option (P × Bytes) → Bytes → Action T (Option P)
    unfolding continue_auth
    finish_auth none auth_value = lift (ok none)
    finish_auth (some (provider, token)) auth_value = continue_auth provider auth_value

    module _ {Uuid : Type 0} ⦃u : UuidCrate Uuid⦄ where
      -- The client that a successful bind returns; it holds the transport.
      unfoldable pub bound :
          BindAckPdu Uuid → AcceptedContext Uuid → Option P → Action T (RpcClient T P)
      bound ack accepted provider t = (
        ok (record {
          transport = t;
          context_id = accepted.context_id;
          call_id = bind_call_id + 1;
          max_xmit_frag = ack.max_xmit_frag;
          auth_provider = provider;
        }),
        t,
      )

      -- The arm of `PduType::BindAck`.
      unfoldable pub accept_bind :
          PduPacket
          → List (PresentationContext Uuid)
          → Option (P × Bytes)
          → Action T (RpcClient T P)
      unfolding bound
      accept_bind response proposed auth_provider = do
        ack ← lift (decode_bind_ack response.body)
        accepted ← lift (accepted_context ack proposed)
        provider ← finish_auth auth_provider response.auth_value
        bound ack accepted provider

      -- `match response.header.ptype`
      unfoldable pub take_bind_response :
          PduType
          → PduPacket
          → List (PresentationContext Uuid)
          → Option (P × Bytes)
          → Action T (RpcClient T P)
      unfolding accept_bind
      take_bind_response Kind.bind_ack response proposed auth_provider =
          accept_bind response proposed auth_provider
      take_bind_response Kind.bind_nak response proposed auth_provider = do
        reason ← lift (decode_bind_nak response.body)
        lift (err (bind_rejected reason))
      take_bind_response _ response proposed auth_provider =
          lift (err (invalid_pdu "expected bind ack or bind nak PDU"))

      -- What follows the bind PDU.
      unfoldable pub await_bind_response :
          List (PresentationContext Uuid) → Option (P × Bytes) → Action T (RpcClient T P)
      await_bind_response proposed auth_provider = do
        bytes ← tr.recv_pdu
        response ← lift (decode_packet bytes)
        lift (
            fail_if (not (response.header.call_id == bind_call_id))
              (invalid_pdu "bind response call id mismatch"))
        take_bind_response response.header.ptype response proposed auth_provider

      -- `RpcClient::bind_with_contexts_inner`, once there is a context.
      unfoldable pub bind_contexts_inner :
          List (PresentationContext Uuid) → Option (Text × P) → Action T (RpcClient T P)
      bind_contexts_inner proposed auth = do
        auth_provider ← lift (start_auth auth)
        bind ← lift (bind_with_contexts default_max_xmit_frag default_max_xmit_frag 0 proposed)
        packet ← lift (bind_packet auth_provider (encode_bind bind))
        bytes ← lift (encode_packet packet)
        tr.send_pdu bytes
        await_bind_response proposed auth_provider

      -- `RpcClient::bind_with_contexts_inner`
      unfoldable pub bind_with_contexts_inner :
          List (PresentationContext Uuid) → Option (Text × P) → Action T (RpcClient T P)
      bind_with_contexts_inner [] auth =
          lift (err (invalid_pdu "bind requires at least one presentation context"))
      bind_with_contexts_inner (c ∷ cs) auth = bind_contexts_inner (c ∷ cs) auth

      -- `RpcClient::bind`; its proposal has no provider.
      unfoldable pub bind : InterfaceId Uuid → Action T (RpcClient T P)
      bind interface =
          bind_with_contexts_inner (new_context 0 (interface_syntax_id interface) (ndr32 ∷ []) ∷ [])
            none

      -- `RpcClient::bind_with_contexts`
      unfoldable pub bind_with_contexts_only :
          List (PresentationContext Uuid) → Action T (RpcClient T P)
      bind_with_contexts_only proposed = bind_with_contexts_inner proposed none

      -- `RpcClient::bind_with_auth_provider`
      unfoldable pub bind_with_auth_provider :
          List (PresentationContext Uuid) → Text → P → Action T (RpcClient T P)
      bind_with_auth_provider proposed target auth_provider =
          bind_with_contexts_inner proposed (some (target, auth_provider))
