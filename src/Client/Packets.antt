-- ===== src/Client/Packets.antt =====
-- The client's state, and the packets that it builds (src/client.rs).
use msrpce_dcerpc.Base.{ℕ, ◌+◌, ◌-◌, ◌%◌, max, ◌≡◌, refl, arith, Bytes, length, ok, err, bit_or}
use msrpce_dcerpc.Base.{Bool, true, false, Option, none, some, if◌then◌else◌}
use msrpce_dcerpc.Crates.{NdrCrate, UuidCrate}
use msrpce_dcerpc.Error.{Error, Result, auth}
use msrpce_dcerpc.Auth.{AuthProvider, AuthLevel, connect, packet_integrity, packet_privacy}
use msrpce_dcerpc.Pdu.Kind.{PduType}
use msrpce_dcerpc.Pdu.Header.{new_header, pfc_first_frag, pfc_last_frag}
use msrpce_dcerpc.Pdu.Trailer.{SecurityTrailer}
use msrpce_dcerpc.Pdu.Bodies.{RequestPdu}
use msrpce_dcerpc.Pdu.Packet.{PduPacket, with_security_trailer, from_request_with_flags}

abbrev pub request_header_len : ℕ
request_header_len = 8

abbrev pub default_max_xmit_frag : ℕ
default_max_xmit_frag = 4280

-- `struct RpcClient<T>`, with a provider of type `P` behind its `Box<dyn AuthProvider>`.
pub record RpcClient (T P : Type 0) : Type 0 where
  pub transport : T
  pub context_id : ℕ
  pub call_id : ℕ
  pub max_xmit_frag : ℕ
  pub auth_provider : Option P

-- `RpcClient::new_bound`
unfoldable pub new_bound : {T P : Type 0} → T → ℕ → RpcClient T P
new_bound transport context_id = record {
  transport = transport;
  context_id = context_id;
  call_id = 1;
  max_xmit_frag = default_max_xmit_frag;
  auth_provider = none;
}

-- `RpcClient::new_bound_with_auth`
unfoldable pub new_bound_with_auth : {T P : Type 0} → T → ℕ → P → RpcClient T P
new_bound_with_auth transport context_id provider = record {
  transport = transport;
  context_id = context_id;
  call_id = 1;
  max_xmit_frag = default_max_xmit_frag;
  auth_provider = some provider;
}

unfoldable pub with_max_xmit_frag : {T P : Type 0} → RpcClient T P → ℕ → RpcClient T P
with_max_xmit_frag c max_xmit_frag = record c { max_xmit_frag = max_xmit_frag }

-- `self.call_id.wrapping_add(1).max(1)`
unfoldable pub following_call_id : ℕ → ℕ
following_call_id call_id = max ((call_id + 1) % 4294967296) 1

-- `RpcClient::next_call_id`
unfoldable pub next_call_id : {T P : Type 0} → RpcClient T P → ℕ × RpcClient T P
unfolding following_call_id
next_call_id c = (c.call_id, record c { call_id = following_call_id c.call_id })

-- `((4 - (body_len % 4)) % 4) as u8`
unfoldable pub auth_padding_len : ℕ → ℕ
auth_padding_len body_len = (4 - body_len % 4) % 4

-- `RpcClient::request_fragment`
unfoldable pub request_fragment :
    {T P : Type 0} (Uuid : Type 0) → RpcClient T P → ℕ → ℕ → Bytes → RequestPdu Uuid
request_fragment Uuid c opnum alloc_hint stub_data = record {
  alloc_hint = alloc_hint;
  ctx_id = c.context_id;
  opnum = opnum;
  object = none;
  stub_data = stub_data;
}

-- The `match provider.auth_level()` of `request_packet` and of `verify_response_packet`.
unfoldable pub supported_level : {A : Type 0} → AuthLevel → A → Result A
supported_level AuthLevel.none a = ok a
supported_level connect a = ok a
supported_level packet_integrity a =
    err (auth "RPC auth level PacketIntegrity is not supported in v1")
supported_level packet_privacy a = err (auth "RPC auth level PacketPrivacy is not supported in v1")

-- `matches!(level, AuthLevel::PacketIntegrity | AuthLevel::PacketPrivacy)`
unfoldable pub is_above_connect : AuthLevel → Bool
is_above_connect AuthLevel.none = false
is_above_connect connect = false
is_above_connect packet_integrity = true
is_above_connect packet_privacy = true

module _ {P : Type 0} ⦃a : AuthProvider P⦄ where
  -- `let Some(provider) = … else { … }; match provider.auth_level() { … }`
  unfoldable pub with_supported_level : {A : Type 0} → Option P → A → Result A
  unfolding supported_level
  with_supported_level none x = ok x
  with_supported_level (some provider) x = supported_level (a.auth_level provider) x

  -- `security_trailer`
  unfoldable pub security_trailer : P → ℕ → SecurityTrailer
  security_trailer provider auth_pad_length = record {
    auth_type = a.auth_type provider;
    auth_level = a.auth_level provider;
    auth_pad_length = auth_pad_length;
    auth_reserved = 0;
    auth_context_id = a.auth_context_id provider;
  }

  -- `auth_pfc_flags`
  abbrev pub auth_pfc_flags : P → ℕ
  auth_pfc_flags provider = bit_or pfc_first_frag pfc_last_frag

  -- `authenticated_packet`
  unfoldable pub authenticated_packet :
      ⦃n : NdrCrate⦄ → PduType → ℕ → ℕ → Bytes → P → Bytes → Result PduPacket
  unfolding is_above_connect security_trailer
  authenticated_packet ptype call_id pfc_flags body provider auth_value =
      if is_above_connect (a.auth_level provider)
      then err (auth "RPC auth levels above Connect are not supported in v1")
      else ok (
          with_security_trailer (new_header ptype pfc_flags call_id) body
            (security_trailer provider (auth_padding_len (length body))) auth_value)

  -- `RpcClient::request_packet`
  unfoldable pub request_packet :
      {T Uuid : Type 0} ⦃n : NdrCrate⦄ ⦃u : UuidCrate Uuid⦄
      → RpcClient T P
      → ℕ
      → ℕ
      → RequestPdu Uuid
      → Result PduPacket
  unfolding with_supported_level
  request_packet c call_id pfc_flags request =
      with_supported_level c.auth_provider (from_request_with_flags call_id pfc_flags request)

  -- `RpcClient::verify_response_packet`
  unfoldable pub verify_response_packet : {T : Type 0} → RpcClient T P → Result (Unit {0})
  unfolding with_supported_level
  verify_response_packet c = with_supported_level c.auth_provider tt

  -- The provider's level is one that the client supports: there is no provider, or it asks for
  -- nothing above `Connect`.
  abbrev pub IsSupported : Option P → Type 0
  IsSupported none = Unit
  IsSupported (some provider) = is_above_connect (a.auth_level provider) ≡ false

  pub with_supported_level_ok :
      {A : Type 0} (provider : Option P) (x : A)
      → IsSupported provider
      → with_supported_level provider x ≡ ok x
  unfolding with_supported_level is_above_connect
  with_supported_level_ok none x h = refl
  with_supported_level_ok (some provider) x h = ground arith

-- A level above `Connect` is refused with an error that names it.
pub supported_level_refused :
    {A : Type 0} (l : AuthLevel)
    → is_above_connect l ≡ true
    → (e : Error) × ((x : A) → supported_level l x ≡ err e)
unfolding is_above_connect supported_level
supported_level_refused AuthLevel.none h = absurd (ground arith)
supported_level_refused connect h = absurd (ground arith)
supported_level_refused packet_integrity h = (_, λ x. refl)
supported_level_refused packet_privacy h = (_, λ x. refl)
