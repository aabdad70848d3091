-- ===== src/Pdu/Packet.antt =====
-- `struct PduPacket` of src/pdu.rs: header, body, security trailer and auth value as one fragment.
pub mod Total
pub mod RoundTrip
pub mod Layout
pub mod Reencode
pub mod FromBody
use msrpce_dcerpc.Base.{ℕ, ◌+◌, ◌-◌, ◌%◌, Bytes, length, replicate, ok, err, bit_or}
use msrpce_dcerpc.Base.{◌>>=◌, ◌>>◌, fail_if, slice, ltb, ◌==◌, not, ◌&&◌, [], ◌++◌}
use msrpce_dcerpc.Base.{Bool, true, false, Option, none, some, String, if◌then◌else◌}
use msrpce_dcerpc.Crates.{NdrCrate, UuidCrate}
use msrpce_dcerpc.Error.{Result, invalid_pdu}
use msrpce_dcerpc.Pdu.Kind
use msrpce_dcerpc.Pdu.Kind.{PduType}
use msrpce_dcerpc.Pdu.Header.{
  PduHeader, new_header, encode_header, decode_header, common_header_len, pfc_first_frag,
  pfc_last_frag, pfc_object_uuid,
}
use msrpce_dcerpc.Pdu.Trailer.{SecurityTrailer, trailer_len, encode_trailer, decode_trailer}
use msrpce_dcerpc.Pdu.Bodies.{BindPdu, encode_bind, RequestPdu, encode_request, ResponsePdu}
use msrpce_dcerpc.Pdu.Bodies.{encode_response, FaultPdu, encode_fault}

pub record PduPacket : Type 0 where
  pub header : PduHeader
  pub body : Bytes
  pub security_trailer : Option SecurityTrailer
  pub auth_value : Bytes

-- `PduPacket::new`
unfoldable pub new_packet : PduHeader → Bytes → Bytes → PduPacket
new_packet header body auth_value = record {
  header = header;
  body = body;
  security_trailer = none;
  auth_value = auth_value;
}

unfoldable pub with_security_trailer : PduHeader → Bytes → SecurityTrailer → Bytes → PduPacket
with_security_trailer header body security_trailer auth_value = record {
  header = header;
  body = body;
  security_trailer = some security_trailer;
  auth_value = auth_value;
}

abbrev pub u16_max : ℕ
u16_max = 65535

-- A sum of two `u16`s, which wraps where overflow is not checked.
abbrev pub add_u16 : ℕ → ℕ → ℕ
add_u16 a b = (a + b) % 65536

abbrev pub is_none : {A : Type 0} → Option A → Bool
is_none none = true
is_none (some a) = false

-- `request.object.map(|_| PFC_OBJECT_UUID).unwrap_or(0)`
abbrev pub object_flag : {A : Type 0} → Option A → ℕ
object_flag none = 0
object_flag (some object) = pfc_object_uuid

-- The bytes between body and auth value: zero padding, then the trailer.
unfoldable pub trailer_bytes : Option SecurityTrailer → Bytes
trailer_bytes none = []
trailer_bytes (some t) = replicate t.auth_pad_length 0 ++ encode_trailer t

-- `(padding_len, trailer_len)` of `PduPacket::encode`, added up.
unfoldable pub trailer_room : Option SecurityTrailer → ℕ
trailer_room none = 0
trailer_room (some t) = t.auth_pad_length + trailer_len

-- `frag_length` of `PduPacket::encode`.
unfoldable pub fragment_length : PduPacket → ℕ
unfolding trailer_room
fragment_length p =
    common_header_len + length p.body + trailer_room p.security_trailer + length p.auth_value

-- The header with the lengths that `PduPacket::encode` writes into it.
unfoldable pub stamp : PduPacket → PduHeader
unfolding fragment_length
stamp p = record p.header {
  frag_length = fragment_length p % 65536;
  auth_length = length p.auth_value % 65536;
}

-- `a.checked_sub(b).ok_or(Error::InvalidPdu(message))`
abbrev pub checked_sub : ℕ → ℕ → String → Result ℕ
checked_sub a b message = if ltb a b then err (invalid_pdu message) else ok (a - b)

-- Where the body ends, and the trailer: the `else` branch of `PduPacket::decode`, where there is an
-- auth value.
unfoldable pub find_trailer : Bytes → ℕ → ℕ → Result (ℕ × Option SecurityTrailer)
find_trailer bytes frag_length auth_length =
    let auth_start = frag_length - auth_length in
    do
      trailer_start ← checked_sub auth_start trailer_len "auth value requires security trailer"
      fail_if (ltb trailer_start common_header_len)
          (invalid_pdu "auth value requires security trailer")
      trailer ← decode_trailer (← slice bytes trailer_start auth_start)
      body_end ←
          checked_sub trailer_start trailer.auth_pad_length "auth padding exceeds fragment body"
      fail_if (ltb body_end common_header_len) (invalid_pdu "auth padding exceeds fragment body")
      ok (body_end, some trailer)

unfoldable pub split_body : Bytes → ℕ → ℕ → Result (ℕ × Option SecurityTrailer)
split_body bytes frag_length auth_length =
    if auth_length == 0 then ok (frag_length, none) else find_trailer bytes frag_length auth_length

module _ ⦃n : NdrCrate⦄ where
  -- `PduPacket::encode`
  unfoldable pub encode_packet : PduPacket → Result Bytes
  unfolding fragment_length stamp trailer_bytes
  encode_packet p = do
    fail_if (ltb u16_max (length p.auth_value)) (invalid_pdu "auth value is too large")
    fail_if (ltb 0 (length p.auth_value) && is_none p.security_trailer)
        (invalid_pdu "auth value requires security trailer")
    fail_if (ltb u16_max (fragment_length p)) (invalid_pdu "fragment is too large")
    ok (encode_header (stamp p) ++ (p.body ++ (trailer_bytes p.security_trailer ++ p.auth_value)))

  -- What `PduPacket::decode` does once it has the header.
  unfoldable pub decode_content : PduHeader → Bytes → Result PduPacket
  decode_content header bytes = do
    fail_if (ltb header.frag_length common_header_len)
        (invalid_pdu "fragment length is smaller than common header")
    fail_if (not (length bytes == header.frag_length))
        (invalid_pdu "fragment length does not match input length")
    fail_if (ltb (header.frag_length - common_header_len) header.auth_length)
        (invalid_pdu "auth length exceeds fragment body")
    (body_end, security_trailer) ← split_body bytes header.frag_length header.auth_length
    body ← slice bytes common_header_len body_end
    auth_value ← slice bytes (header.frag_length - header.auth_length) header.frag_length
    ok (record {
      header = header;
      body = body;
      security_trailer = security_trailer;
      auth_value = auth_value;
    })

  -- `PduPacket::decode`
  unfoldable pub decode_packet : Bytes → Result PduPacket
  decode_packet bytes = do header ← decode_header bytes; decode_content header bytes

  -- `PduPacket::from_body_with_flags`
  unfoldable pub from_body_with_flags : PduType → ℕ → ℕ → Bytes → PduPacket
  unfolding new_header
  from_body_with_flags ptype call_id pfc_flags body = record {
    header = record (new_header ptype pfc_flags call_id) {
      frag_length = add_u16 common_header_len (length body % 65536);
    };
    body = body;
    security_trailer = none;
    auth_value = [];
  }

  -- `PduPacket::from_body`
  unfoldable pub from_body : PduType → ℕ → Bytes → PduPacket
  unfolding from_body_with_flags
  from_body ptype call_id body =
      from_body_with_flags ptype call_id (bit_or pfc_first_frag pfc_last_frag) body

  unfoldable pub from_bind : ℕ → BindPdu → PduPacket
  unfolding from_body
  from_bind call_id p = from_body Kind.bind call_id (encode_bind p)

  unfoldable pub from_response_with_flags : ℕ → ℕ → ResponsePdu → PduPacket
  unfolding from_body_with_flags
  from_response_with_flags call_id pfc_flags p =
      from_body_with_flags Kind.response call_id pfc_flags (encode_response p)

  unfoldable pub from_response : ℕ → ResponsePdu → PduPacket
  unfolding from_response_with_flags
  from_response call_id p = from_response_with_flags call_id (bit_or pfc_first_frag pfc_last_frag) p

  unfoldable pub from_fault : ℕ → FaultPdu → PduPacket
  unfolding from_body
  from_fault call_id p = from_body Kind.fault call_id (encode_fault p)

  module _ {Uuid : Type 0} ⦃u : UuidCrate Uuid⦄ where
    -- `PduPacket::from_request_with_flags`
    unfoldable pub from_request_with_flags : ℕ → ℕ → RequestPdu Uuid → PduPacket
    unfolding new_header
    from_request_with_flags call_id pfc_flags p =
        let body = encode_request p in
        record {
          header =
              record (new_header Kind.request (bit_or pfc_flags (object_flag p.object)) call_id) {
                frag_length = add_u16 common_header_len (length body % 65536);
              };
          body = body;
          security_trailer = none;
          auth_value = [];
        }

    unfoldable pub from_request : ℕ → RequestPdu Uuid → PduPacket
    unfolding from_request_with_flags
    from_request call_id p = from_request_with_flags call_id (bit_or pfc_first_frag pfc_last_frag) p
