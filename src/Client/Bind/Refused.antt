-- ===== src/Client/Bind/Refused.antt =====
-- Binds that end before anything is sent.
use msrpce_dcerpc.Base.{
  Bytes, ok, err, ◌≡◌, refl, ◌⊎◌, inl, inr, arith, List, ◌∷◌, true, length, ◌<◌, All,
}
use msrpce_dcerpc.Base.Text.{Text}
use msrpce_dcerpc.Crates.{NdrCrate, UuidCrate}
use msrpce_dcerpc.Error.{Result, invalid_pdu}
use msrpce_dcerpc.Error
use msrpce_dcerpc.Auth.{
  AuthProvider, AuthLevel, packet_integrity, packet_privacy, RpcAuthError, error_of_auth,
}
use msrpce_dcerpc.Transport.{RpcTransport}
use msrpce_dcerpc.Pdu.Bodies.{BindPdu}
use msrpce_dcerpc.Bind.Context.{PresentationContext, bind_with_contexts}
use msrpce_dcerpc.Bind.Context.RoundTrip.{IsWireContext, bind_contexts-bind_with_contexts}
use msrpce_dcerpc.Client.Packets.{default_max_xmit_frag, authenticated_packet, is_above_connect}
use msrpce_dcerpc.Client.Bind.{
  start_auth, bind_packet, bind_contexts_inner, bind_with_contexts_inner, bind_with_auth_provider,
}

above :
    (level : AuthLevel)
    → (level ≡ packet_integrity) ⊎ (level ≡ packet_privacy)
    → is_above_connect level ≡ true
unfolding is_above_connect
above level (inl e) = rw e refl
above level (inr e) = rw e refl

module _ {T P Uuid : Type 0} ⦃n : NdrCrate⦄ ⦃u : UuidCrate Uuid⦄ ⦃a : AuthProvider P⦄
    ⦃tr : RpcTransport T⦄ where
  above_connect :
      (x : PresentationContext Uuid) (xs : List (PresentationContext Uuid)) (target : Text)
      (provider provider' : P) (token : Bytes) (b : BindPdu) (t : T)
      → a.init_context target provider ≡ (ok token, provider')
      → is_above_connect (a.auth_level provider') ≡ true
      → bind_with_contexts default_max_xmit_frag default_max_xmit_frag 0 (x ∷ xs) ≡ ok b
      → bind_with_auth_provider (x ∷ xs) target provider t
        ≡ (err (Error.auth "RPC auth levels above Connect are not supported in v1"), t)
  unfolding bind_with_auth_provider bind_with_contexts_inner bind_contexts_inner start_auth
      bind_packet authenticated_packet
  above_connect x xs target provider provider' token b t e l d = ground arith

  -- A bind with a provider whose level is `PacketIntegrity` or `PacketPrivacy` once it has made its token,
  -- for one proposed context at least, 255 at most and each within its limits, is refused and the transport is not touched.
  pub bind_with_auth_provider_refused :
      (x : PresentationContext Uuid) (xs : List (PresentationContext Uuid)) (target : Text)
      (provider provider' : P) (token : Bytes) (t : T)
      → a.init_context target provider ≡ (ok token, provider')
      → (a.auth_level provider' ≡ packet_integrity) ⊎ (a.auth_level provider' ≡ packet_privacy)
      → All IsWireContext (x ∷ xs)
      → length (x ∷ xs) < 256
      → bind_with_auth_provider (x ∷ xs) target provider t
        ≡ (err (Error.auth "RPC auth levels above Connect are not supported in v1"), t)
  bind_with_auth_provider_refused x xs target provider provider' token t e l w few =
      let (b, made, _, _, _, _) =
        bind_contexts-bind_with_contexts default_max_xmit_frag default_max_xmit_frag 0 (x ∷ xs) w
          few in
      above_connect x xs target provider provider' token b t e (above (a.auth_level provider') l)
        made

  -- A provider that fails to make its first token ends the bind with its error, for one context or
  -- more, and the transport is not touched.
  pub bind_with_auth_provider_failed :
      (x : PresentationContext Uuid) (xs : List (PresentationContext Uuid)) (target : Text)
      (provider provider' : P) (t : T) (e : RpcAuthError)
      → a.init_context target provider ≡ (err e, provider')
      → bind_with_auth_provider (x ∷ xs) target provider t ≡ (err (error_of_auth e), t)
  unfolding bind_with_auth_provider bind_with_contexts_inner bind_contexts_inner start_auth
  bind_with_auth_provider_failed x xs target provider provider' t e h = ground arith
