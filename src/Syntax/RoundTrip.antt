-- ===== src/Syntax/RoundTrip.antt =====
-- `SyntaxId::encode` and `SyntaxId::decode` are inverse to one another.
use native.Mathlib.Decide.{dec_lt}
use msrpce_dcerpc.Base.{ℕ, ◌<◌, ◌≤◌, Bytes, IsBytes, IsU32, length, drop, ok, err, Returns}
use msrpce_dcerpc.Base.{◌≡◌, refl, arith, lt→ltb, [], ◌∷◌, ◌++◌, uncons4, uncons16}
use msrpce_dcerpc.Base.{
  u32_le_bytes_round, u32_from_le_bytes, u32_from_le_bytes_round, u32_from_le_bytes-IsU32, ◌%◌, ◌/◌,
}
use msrpce_dcerpc.Base.{length-append, slice}
use msrpce_dcerpc.Crates.{UuidCrate}
use msrpce_dcerpc.Error.{invalid_pdu}
use msrpce_dcerpc.Syntax.{SyntaxId, encode_syntax, decode_syntax}

module _ {Uuid : Type 0} ⦃u : UuidCrate Uuid⦄ where
  pub length-encode_syntax : (s : SyntaxId Uuid) → length (encode_syntax s) ≡ 20
  unfolding encode_syntax
  length-encode_syntax s = omega (
    arith,
    u.length-to_bytes_le s.uuid,
    length-append (u.to_bytes_le s.uuid) (
        s.version % 256
        ∷ s.version / 256 % 256
        ∷ s.version / 65536 % 256
        ∷ s.version / 16777216 % 256
        ∷ []),
  )

  read_sixteen :
      (s : SyntaxId Uuid) (a0 a1 a2 a3 b0 b1 b2 b3 c0 c1 c2 c3 d0 d1 d2 d3 : ℕ) (t rest : Bytes)
      → IsU32 s.version
      → length t ≡ 0
      → u.to_bytes_le s.uuid
        ≡ a0 ∷ a1 ∷ a2 ∷ a3 ∷ b0 ∷ b1 ∷ b2 ∷ b3 ∷ c0 ∷ c1 ∷ c2 ∷ c3 ∷ d0 ∷ d1 ∷ d2 ∷ d3 ∷ t
      → decode_syntax (encode_syntax s ++ rest) ≡ ok s
  unfolding decode_syntax encode_syntax slice
  read_sixteen s a0 a1 a2 a3 b0 b1 b2 b3 c0 c1 c2 c3 d0 d1 d2 d3 [] rest w z e =
      ground (arith, e, u.from_bytes_le-to_bytes_le s.uuid, u32_le_bytes_round s.version)
  read_sixteen s a0 a1 a2 a3 b0 b1 b2 b3 c0 c1 c2 c3 d0 d1 d2 d3 (x ∷ t) rest w z e =
      absurd (omega arith)

  pub decode_syntax-encode_syntax :
      (s : SyntaxId Uuid) (rest : Bytes)
      → IsU32 s.version
      → decode_syntax (encode_syntax s ++ rest) ≡ ok s
  decode_syntax-encode_syntax s rest w =
      uncons16
        (λ bs.
          length bs ≡ 16
          → u.to_bytes_le s.uuid ≡ bs
          → decode_syntax (encode_syntax s ++ rest) ≡ ok s)
        (λ a0 a1 a2 a3 b0 b1 b2 b3 c0 c1 c2 c3 d0 d1 d2 d3 t h e.
          read_sixteen s a0 a1 a2 a3 b0 b1 b2 b3 c0 c1 c2 c3 d0 d1 d2 d3 t rest w (omega arith) e)
        (u.to_bytes_le s.uuid) (omega (arith, u.length-to_bytes_le s.uuid))
        (u.length-to_bytes_le s.uuid) refl

module _ (a0 a1 a2 a3 b0 b1 b2 b3 c0 c1 c2 c3 d0 d1 d2 d3 e0 e1 e2 e3 : ℕ) (t : Bytes) where
  abbrev front : Bytes
  front = a0 ∷ a1 ∷ a2 ∷ a3 ∷ b0 ∷ b1 ∷ b2 ∷ b3 ∷ c0 ∷ c1 ∷ c2 ∷ c3 ∷ d0 ∷ d1 ∷ d2 ∷ d3 ∷ []

  abbrev twenty : Bytes
  twenty = front ++ (e0 ∷ e1 ∷ e2 ∷ e3 ∷ t)

  module _ (Uuid : Type 0) ⦃u : UuidCrate Uuid⦄ where
    abbrev the_syntax : SyntaxId Uuid
    the_syntax = record { uuid = u.from_bytes_le front; version = u32_from_le_bytes e0 e1 e2 e3 }

    twenty_read : decode_syntax {Uuid = Uuid} twenty ≡ ok the_syntax
    unfolding decode_syntax slice
    twenty_read = ground arith

    twenty_written :
        IsBytes twenty → IsU32 the_syntax.version × (encode_syntax the_syntax ++ t ≡ twenty)
    unfolding encode_syntax
    twenty_written bs = (
      u32_from_le_bytes-IsU32 e0 e1 e2 e3 (omega arith) (omega arith) (omega arith) (omega arith),
      ground (
        arith,
        u.to_bytes_le-from_bytes_le front refl (omega arith),
        u32_from_le_bytes_round e0 e1 e2 e3,
      ),
    )

module _ {Uuid : Type 0} ⦃u : UuidCrate Uuid⦄ where
  syntax_short :
      (bytes : Bytes)
      → length bytes < 20
      → decode_syntax {Uuid = Uuid} bytes ≡ err (invalid_pdu "syntax identifier requires 20 bytes")
  unfolding decode_syntax
  syntax_short bytes h = rw (lt→ltb (length bytes) 20 h) refl

module _ (Uuid : Type 0) ⦃u : UuidCrate Uuid⦄ where
  -- Twenty bytes are always an identifier, which is written as those bytes.
  abbrev pub ReadsSyntax : Bytes → Type 0
  ReadsSyntax bytes =
      (s : SyntaxId Uuid) × (decode_syntax bytes ≡ ok s)
      × (IsBytes bytes → IsU32 s.version × (encode_syntax s ++ drop 20 bytes ≡ bytes))

  pub decode_syntax_ok : (bytes : Bytes) → 20 ≤ length bytes → ReadsSyntax bytes
  decode_syntax_ok bytes h =
      uncons16 (λ ys. 20 ≤ length ys → ReadsSyntax ys)
        (λ a0 a1 a2 a3 b0 b1 b2 b3 c0 c1 c2 c3 d0 d1 d2 d3 t k.
          uncons4
            (λ ys.
              ReadsSyntax (
                a0 ∷ a1 ∷ a2 ∷ a3 ∷ b0 ∷ b1 ∷ b2 ∷ b3 ∷ c0 ∷ c1 ∷ c2 ∷ c3 ∷ d0 ∷ d1 ∷ d2 ∷ d3 ∷ ys))
            (λ e0 e1 e2 e3 v. (
              the_syntax a0 a1 a2 a3 b0 b1 b2 b3 c0 c1 c2 c3 d0 d1 d2 d3 e0 e1 e2 e3 v Uuid,
              twenty_read a0 a1 a2 a3 b0 b1 b2 b3 c0 c1 c2 c3 d0 d1 d2 d3 e0 e1 e2 e3 v Uuid,
              twenty_written a0 a1 a2 a3 b0 b1 b2 b3 c0 c1 c2 c3 d0 d1 d2 d3 e0 e1 e2 e3 v Uuid,
            ))
            t (omega arith))
        bytes (omega arith) h

  pub decode_syntax-Returns : (bytes : Bytes) → Returns (decode_syntax {Uuid = Uuid} bytes)
  decode_syntax-Returns bytes = elim (dec_lt (length bytes) 20) [
    | yes h ↦ rw (syntax_short {Uuid = Uuid} bytes h) tt
    | no h ↦ let (s, e, w) = decode_syntax_ok bytes (omega arith) in rw e tt
  ]
