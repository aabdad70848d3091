-- ===== src/Bind/Context/RoundTrip.antt =====
-- A presentation context list is read back as it was written, within the limits of its counts.
use msrpce_dcerpc.Base.{ℕ, ◌+◌, ◌*◌, ◌%◌, ◌/◌, ◌<◌, Bytes, IsU16, IsU32, length, All}
use msrpce_dcerpc.Base.{ok, ◌≡◌, refl, arith, List, [], ◌∷◌, ◌++◌, append_assoc, append-nil}
use msrpce_dcerpc.Base.{slice_from, slice_middle, slice_from_in, length-append, drop_left}
use msrpce_dcerpc.Base.{u16_le_bytes_round, u16_to_le_bytes}
use msrpce_dcerpc.Crates.{UuidCrate}
use msrpce_dcerpc.Error.{Error}
use msrpce_dcerpc.Syntax.{SyntaxId, encode_syntax, decode_syntax}
use msrpce_dcerpc.Syntax.RoundTrip.{length-encode_syntax, decode_syntax-encode_syntax}
use msrpce_dcerpc.Pdu.Bodies.{BindPdu}
use msrpce_dcerpc.Bind.Context.{
  PresentationContext, encode_syntaxes, encode_context, decode_syntaxes, decode_context,
  encode_contexts, encode_context_list, decode_contexts, decode_context_list, bind_with_contexts,
  bind_contexts,
}

abbrev pub IsWireSyntax : {Uuid : Type 0} → SyntaxId Uuid → Type 0
IsWireSyntax s = IsU32 s.version

-- A context that the wire can hold.
pub record IsWireContext {Uuid : Type 0} (c : PresentationContext Uuid) : Type 0 where
  pub id : IsU16 c.context_id
  pub abstract : IsWireSyntax c.abstract_syntax
  pub transfers : All IsWireSyntax c.transfer_syntaxes
  pub count : length c.transfer_syntaxes < 256

module _ {Uuid : Type 0} ⦃u : UuidCrate Uuid⦄ where
  pub decode_syntax_exact :
      (s : SyntaxId Uuid) → IsWireSyntax s → decode_syntax (encode_syntax s) ≡ ok s
  decode_syntax_exact s w = rw append-nil at (decode_syntax-encode_syntax s [] w)

  length-encode_syntaxes :
      (ss : List (SyntaxId Uuid)) → length (encode_syntaxes ss) ≡ length ss * 20
  unfolding encode_syntaxes
  length-encode_syntaxes [] = refl
  length-encode_syntaxes (s ∷ ss) = omega (
    arith,
    length-append (encode_syntax s) (encode_syntaxes ss),
    length-encode_syntax s,
    length-encode_syntaxes ss,
  )

  -- `before` is what the loop has read, up to `offset`.
  decode_syntaxes-encode_syntaxes :
      (ss : List (SyntaxId Uuid)) (before rest : Bytes) (offset : ℕ)
      → length before ≡ offset
      → All IsWireSyntax ss
      → decode_syntaxes (length ss) (before ++ (encode_syntaxes ss ++ rest)) offset ≡ ok ss
  unfolding decode_syntaxes encode_syntaxes
  decode_syntaxes-encode_syntaxes [] before rest offset l w = refl
  decode_syntaxes-encode_syntaxes (s ∷ ss) before rest offset l w =
      let again =
        decode_syntaxes-encode_syntaxes ss (before ++ encode_syntax s) rest (offset + 20)
          (omega (arith, length-append before (encode_syntax s), length-encode_syntax s)) w.1 in
      rw
        (
          append_assoc (encode_syntax s) (encode_syntaxes ss) rest,
          slice_middle {E = Error} before (encode_syntax s) (encode_syntaxes ss ++ rest) offset
              (offset + 20) l (omega (arith, length-encode_syntax s)),
          decode_syntax_exact s w.0,
          rw (append_assoc before (encode_syntax s) (encode_syntaxes ss ++ rest)) at again,
        )
        refl

  -- The bytes of one context.
  abbrev pub wire_context : PresentationContext Uuid → Bytes
  wire_context c =
      u16_to_le_bytes c.context_id
      ++ (length c.transfer_syntaxes
          ∷ 0
          ∷ (encode_syntax c.abstract_syntax ++ encode_syntaxes c.transfer_syntaxes))

  pub encode_context_wire :
      (c : PresentationContext Uuid)
      → length c.transfer_syntaxes < 256
      → encode_context c ≡ ok (wire_context c)
  unfolding encode_context
  encode_context_wire c h = ground arith

  pub length-wire_context :
      (c : PresentationContext Uuid)
      → length (wire_context c) ≡ 24 + length c.transfer_syntaxes * 20
  length-wire_context c = omega (
    arith,
    length-append (encode_syntax c.abstract_syntax) (encode_syntaxes c.transfer_syntaxes),
    length-encode_syntax c.abstract_syntax,
    length-encode_syntaxes c.transfer_syntaxes,
  )

  decode_context_wire :
      (c : PresentationContext Uuid) (rest : Bytes)
      → IsWireContext c
      → decode_context (wire_context c ++ rest) ≡ ok (c, 24 + length c.transfer_syntaxes * 20)
  unfolding decode_context
  decode_context_wire c rest w =
      let a = encode_syntax c.abstract_syntax in
      let s = encode_syntaxes c.transfer_syntaxes in
      let head : Bytes =
        c.context_id % 256 ∷ c.context_id / 256 % 256 ∷ length c.transfer_syntaxes ∷ 0 ∷ [] in
      ground (
        arith,
        append_assoc a s rest,
        length-append a (s ++ rest),
        length-append s rest,
        length-encode_syntax c.abstract_syntax,
        length-encode_syntaxes c.transfer_syntaxes,
        u16_le_bytes_round c.context_id,
        slice_middle {E = Error} head a (s ++ rest) 4 24,
        decode_syntax_exact c.abstract_syntax,
        decode_syntaxes-encode_syntaxes c.transfer_syntaxes (head ++ a) rest 24,
        append_assoc head a (s ++ rest),
        length-append head a,
      )

  abbrev pub wire_contexts : List (PresentationContext Uuid) → Bytes
  wire_contexts [] = []
  wire_contexts (c ∷ cs) = wire_context c ++ wire_contexts cs

  pub encode_contexts_wire :
      (cs : List (PresentationContext Uuid))
      → All IsWireContext cs
      → encode_contexts cs ≡ ok (wire_contexts cs)
  unfolding encode_contexts
  encode_contexts_wire [] w = refl
  encode_contexts_wire (c ∷ cs) w =
      rw (encode_context_wire c w.0.count, encode_contexts_wire cs w.1) refl

  pub decode_contexts-wire_contexts :
      (cs : List (PresentationContext Uuid)) (before rest : Bytes) (offset : ℕ)
      → length before ≡ offset
      → All IsWireContext cs
      → decode_contexts (length cs) (before ++ (wire_contexts cs ++ rest)) offset
        ≡ ok (cs, offset + length (wire_contexts cs))
  unfolding decode_contexts
  decode_contexts-wire_contexts [] before rest offset l w = ground arith
  decode_contexts-wire_contexts (c ∷ cs) before rest offset l w =
      let b = wire_context c in
      let n = 24 + length c.transfer_syntaxes * 20 in
      let more = wire_contexts cs ++ rest in
      let again =
        decode_contexts-wire_contexts cs (before ++ b) rest (offset + n)
          (omega (arith, length-append before b, length-wire_context c)) w.1 in
      let here : slice_from {E = Error} (before ++ (b ++ more)) offset ≡ ok (b ++ more) =
        rw
          (
            slice_from_in {E = Error} (before ++ (b ++ more)) offset
                (omega (arith, length-append before (b ++ more))),
            drop_left offset before (b ++ more) l,
          )
          refl in
      rw
        (
          append_assoc b (wire_contexts cs) rest,
          here,
          decode_context_wire c more w.0,
          rw (append_assoc before b more) at again,
          length-append b (wire_contexts cs),
          length-wire_context c,
        )
        (ground arith)

  pub encode_context_list_wire :
      (cs : List (PresentationContext Uuid))
      → All IsWireContext cs
      → encode_context_list cs ≡ ok (length cs % 256 ∷ 0 ∷ 0 ∷ 0 ∷ wire_contexts cs)
  unfolding encode_context_list
  encode_context_list_wire cs w = rw (encode_contexts_wire cs w) refl

  decode_context_list_wire :
      (cs : List (PresentationContext Uuid))
      → All IsWireContext cs
      → decode_context_list (length cs ∷ 0 ∷ 0 ∷ 0 ∷ wire_contexts cs) ≡ ok cs
  unfolding decode_context_list
  decode_context_list_wire cs w = ground (
    arith,
    append-nil (wire_contexts cs),
    decode_contexts-wire_contexts cs (length cs ∷ 0 ∷ 0 ∷ 0 ∷ []) [] 4 refl w,
  )

  -- Up to 255 contexts, each within its limits, are put into a bind body together with the three
  -- numbers, and are found there again.
  pub bind_contexts-bind_with_contexts :
      (max_xmit_frag max_recv_frag assoc_group_id : ℕ) (cs : List (PresentationContext Uuid))
      → All IsWireContext cs
      → length cs < 256
      → (p : BindPdu) × (bind_with_contexts max_xmit_frag max_recv_frag assoc_group_id cs ≡ ok p)
        × (p.max_xmit_frag ≡ max_xmit_frag)
        × (p.max_recv_frag ≡ max_recv_frag)
        × (p.assoc_group_id ≡ assoc_group_id)
        × (bind_contexts p ≡ ok cs)
  unfolding bind_with_contexts
  bind_contexts-bind_with_contexts x r g cs w few =
      let same : length cs % 256 ≡ length cs = omega arith in
      (
        record {
          max_xmit_frag = x;
          max_recv_frag = r;
          assoc_group_id = g;
          presentation_context_list = length cs ∷ 0 ∷ 0 ∷ 0 ∷ wire_contexts cs;
        },
        rw (encode_context_list_wire cs w, same) refl,
        refl,
        refl,
        refl,
        unfold bind_contexts in decode_context_list_wire cs w,
      )
