-- ===== src/Syntax/Version.antt =====
-- The version of an interface on the wire.
use msrpce_dcerpc.Base.{
  ℕ, ◌+◌, ◌*◌, Bytes, IsU16, u16_to_le_bytes, u32_to_le_bytes, ◌++◌, ok, ◌≡◌, ap, arith,
  bit_or_halfwords,
}
use msrpce_dcerpc.Crates.{UuidCrate}
use msrpce_dcerpc.Syntax.{
  InterfaceId, pack_version, version_u32, interface_syntax_id, encode_syntax, decode_syntax,
}
use msrpce_dcerpc.Syntax.RoundTrip.{decode_syntax-encode_syntax}

-- Both halves of a version are there.
pub pack_version_halves :
    (major minor : ℕ) → IsU16 major → pack_version major minor ≡ major + minor * 65536
unfolding pack_version
pack_version_halves major minor h = bit_or_halfwords major minor h

module _ {Uuid : Type 0} ⦃u : UuidCrate Uuid⦄ where
  -- An interface whose versions have 16 bits is named on the wire by its uuid, the major version and
  -- the minor version, each little-endian, and the peer reads this syntax identifier, whatever
  -- follows it.
  pub encode_syntax-interface_syntax_id :
      (i : InterfaceId Uuid) (rest : Bytes)
      → IsU16 i.major_version
      → IsU16 i.minor_version
      → (encode_syntax (interface_syntax_id i)
          ≡ u.to_bytes_le i.uuid
            ++ (u16_to_le_bytes i.major_version ++ u16_to_le_bytes i.minor_version))
        × (decode_syntax (encode_syntax (interface_syntax_id i) ++ rest)
            ≡ ok (interface_syntax_id i))
  unfolding encode_syntax interface_syntax_id version_u32
  encode_syntax-interface_syntax_id i rest h k =
      let v = pack_version_halves i.major_version i.minor_version h in
      (
        rw v (ap (λ t. u.to_bytes_le i.uuid ++ t) (four_bytes i.major_version i.minor_version h k)),
        decode_syntax-encode_syntax (interface_syntax_id i) rest (omega (arith, v)),
      )
    where
      four_bytes :
          (major minor : ℕ)
          → IsU16 major
          → IsU16 minor
          → u32_to_le_bytes (major + minor * 65536) ≡ u16_to_le_bytes major ++ u16_to_le_bytes minor
      four_bytes major minor h k = ground arith
