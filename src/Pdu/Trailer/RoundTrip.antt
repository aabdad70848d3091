-- ===== src/Pdu/Trailer/RoundTrip.antt =====
-- `SecurityTrailer::encode` and `SecurityTrailer::decode` are inverse to one another.
use native.Mathlib.Decide.{dec_lt}
use msrpce_dcerpc.Base.{ℕ, ◌<◌, Bytes, IsBytes, length, uncons8, ok, err, Returns, [], ◌∷◌}
use msrpce_dcerpc.Base.{◌≡◌, ◌++◌, refl, arith, lt→ltb, u32_le_bytes_round, u32_from_le_bytes_round}
use msrpce_dcerpc.Base.{u32_from_le_bytes-IsU32, append-nil}
use msrpce_dcerpc.Error.{invalid_pdu}
use msrpce_dcerpc.Auth.Wire.{
  auth_level_try_from-auth_level_code, auth_type_try_from-auth_type_code, auth_level_code_of_ok,
  auth_type_code_of_ok, auth_level_try_from-Returns, auth_type_try_from-Returns,
}
use msrpce_dcerpc.Pdu.Trailer.{SecurityTrailer, IsWireTrailer, encode_trailer, decode_trailer}

pub length-encode_trailer : (t : SecurityTrailer) → length (encode_trailer t) ≡ 8
unfolding encode_trailer
length-encode_trailer t = refl

pub decode_trailer-encode_trailer :
    (t : SecurityTrailer) → IsWireTrailer t → decode_trailer (encode_trailer t) ≡ ok t
unfolding decode_trailer encode_trailer
decode_trailer-encode_trailer t w = ground (
  arith,
  auth_type_try_from-auth_type_code t.auth_type,
  auth_level_try_from-auth_level_code t.auth_level,
  u32_le_bytes_round t.auth_context_id,
)

module _ (a0 a1 a2 a3 b0 b1 b2 b3 : ℕ) (t : Bytes) where
  abbrev eight : Bytes
  eight = a0 ∷ a1 ∷ a2 ∷ a3 ∷ b0 ∷ b1 ∷ b2 ∷ b3 ∷ t

  eight-Returns : Returns (decode_trailer eight)
  unfolding decode_trailer
  eight-Returns = ground (arith, auth_type_try_from-Returns a0, auth_level_try_from-Returns a1)

  eight_written :
      (r : SecurityTrailer)
      → IsBytes eight
      → decode_trailer eight ≡ ok r
      → IsWireTrailer r × (encode_trailer r ++ t ≡ eight)
  unfolding decode_trailer encode_trailer
  eight_written r bs d = (
    record {
      pad = ground arith;
      reserved = ground arith;
      context = ground (arith, u32_from_le_bytes-IsU32 b0 b1 b2 b3);
    },
    ground (
      arith,
      auth_type_code_of_ok a0 r.auth_type,
      auth_level_code_of_ok a1 r.auth_level,
      u32_from_le_bytes_round b0 b1 b2 b3,
    ),
  )

short_err :
    (bytes : Bytes)
    → length bytes < 8
    → decode_trailer bytes ≡ err (invalid_pdu "security trailer requires 8 bytes")
unfolding decode_trailer
short_err bytes h = rw (lt→ltb (length bytes) 8 h) refl

pub decode_trailer-Returns : (bytes : Bytes) → Returns (decode_trailer bytes)
decode_trailer-Returns bytes = elim (dec_lt (length bytes) 8) [
  | yes h ↦ rw (short_err bytes h) tt
  | no h ↦ uncons8 (λ bs. Returns (decode_trailer bs)) eight-Returns bytes (omega arith)
]

-- A trailer decoded from eight bytes is one that fits the wire, and it is written as those bytes.
pub encode_trailer-decode_trailer :
    (bytes : Bytes) (r : SecurityTrailer)
    → length bytes ≡ 8
    → IsBytes bytes
    → decode_trailer bytes ≡ ok r
    → IsWireTrailer r × (encode_trailer r ≡ bytes)
encode_trailer-decode_trailer bytes r l bs d =
    uncons8
      (λ ys.
        length ys ≡ 8
        → IsBytes ys
        → decode_trailer ys ≡ ok r
        → IsWireTrailer r × (encode_trailer r ≡ ys))
      (λ a0 a1 a2 a3 b0 b1 b2 b3 t l' bs' d'.
        exact a0 a1 a2 a3 b0 b1 b2 b3 t (omega arith)
          (eight_written a0 a1 a2 a3 b0 b1 b2 b3 t r bs' d'))
      bytes (omega arith) l bs d
  where
    exact :
        (a0 a1 a2 a3 b0 b1 b2 b3 : ℕ) (t : Bytes)
        → length t ≡ 0
        → IsWireTrailer r × (encode_trailer r ++ t ≡ eight a0 a1 a2 a3 b0 b1 b2 b3 t)
        → IsWireTrailer r × (encode_trailer r ≡ eight a0 a1 a2 a3 b0 b1 b2 b3 t)
    exact a0 a1 a2 a3 b0 b1 b2 b3 [] z h = (h.0, rw append-nil at (h.1))
    exact a0 a1 a2 a3 b0 b1 b2 b3 (x ∷ t) z h = absurd (omega arith)
