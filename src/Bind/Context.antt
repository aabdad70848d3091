-- ===== src/Bind/Context.antt =====
-- `PresentationContext` and `PresentationContextList` of src/bind.rs, and the two methods of
-- `BindPdu` that use them.
pub mod RoundTrip
pub mod Total
pub mod Limits
use msrpce_dcerpc.Base.{ℕ, zero, suc, ◌+◌, ◌*◌, ◌%◌, Bytes, length, ok, err, panic, diverge, map}
use msrpce_dcerpc.Base.{
  ◌>>=◌, ◌>>◌, fail_if, index, slice, slice_from, ltb, ◌==◌, not, List, [], ◌∷◌, ◌++◌,
}
use msrpce_dcerpc.Base.{u16_to_le_bytes, u16_from_le_bytes}
use msrpce_dcerpc.Crates.{UuidCrate}
use msrpce_dcerpc.Error.{Result, invalid_pdu}
use msrpce_dcerpc.Syntax.{SyntaxId, encode_syntax, decode_syntax, bind_time_syntax}
use msrpce_dcerpc.Syntax.{TransferSyntax, transfer_syntax_id}
use msrpce_dcerpc.Pdu.Bodies.{BindPdu}

pub record PresentationContext (Uuid : Type 0) : Type 0 where
  pub context_id : ℕ
  pub abstract_syntax : SyntaxId Uuid
  pub transfer_syntaxes : List (SyntaxId Uuid)

-- `.expect(…)`: an error is a panic.
abbrev pub expect : {A : Type 0} → Result A → Result A
expect (ok a) = ok a
expect (err e) = panic
expect panic = panic
expect diverge = diverge

module _ {Uuid : Type 0} ⦃u : UuidCrate Uuid⦄ where
  -- `PresentationContext::new`
  unfoldable pub new_context : ℕ → SyntaxId Uuid → List TransferSyntax → PresentationContext Uuid
  new_context context_id abstract_syntax transfer_syntaxes = record {
    context_id = context_id;
    abstract_syntax = abstract_syntax;
    transfer_syntaxes = map transfer_syntax_id transfer_syntaxes;
  }

  -- `PresentationContext::bind_time_feature_negotiation`
  unfoldable pub bind_time_context : ℕ → SyntaxId Uuid → ℕ → PresentationContext Uuid
  bind_time_context context_id abstract_syntax bitmask = record {
    context_id = context_id;
    abstract_syntax = abstract_syntax;
    transfer_syntaxes = bind_time_syntax bitmask ∷ [];
  }

  -- The loop of `PresentationContext::encode`.
  unfoldable pub encode_syntaxes : List (SyntaxId Uuid) → Bytes
  encode_syntaxes [] = []
  encode_syntaxes (s ∷ ss) = encode_syntax s ++ encode_syntaxes ss

  -- `PresentationContext::encode`
  unfoldable pub encode_context : PresentationContext Uuid → Result Bytes
  encode_context c = do
    fail_if (ltb 255 (length c.transfer_syntaxes)) (invalid_pdu "too many transfer syntaxes")
    ok (
        u16_to_le_bytes c.context_id
        ++ (length c.transfer_syntaxes % 256
            ∷ 0
            ∷ (encode_syntax c.abstract_syntax ++ encode_syntaxes c.transfer_syntaxes)))

  -- The loop of `PresentationContext::decode`, over the rounds that are left.
  unfoldable pub decode_syntaxes : ℕ → Bytes → ℕ → Result (List (SyntaxId Uuid))
  decode_syntaxes zero bytes offset = ok []
  decode_syntaxes (suc n) bytes offset = do
    s ← decode_syntax (← slice bytes offset (offset + 20))
    ss ← decode_syntaxes n bytes (offset + 20)
    ok (s ∷ ss)

  -- `PresentationContext::decode`, with the number of bytes that the context takes.
  unfoldable pub decode_context : Bytes → Result (PresentationContext Uuid × ℕ)
  decode_context bytes = do
    fail_if (ltb (length bytes) 24) (invalid_pdu "presentation context requires at least 24 bytes")
    context_id ← ok (u16_from_le_bytes (← index bytes 0) (← index bytes 1))
    transfer_count ← index bytes 2
    fail_if (ltb (length bytes) (24 + transfer_count * 20))
        (invalid_pdu "presentation context is truncated")
    abstract_syntax ← decode_syntax (← slice bytes 4 24)
    transfer_syntaxes ← decode_syntaxes transfer_count bytes 24
    ok (
      record {
        context_id = context_id;
        abstract_syntax = abstract_syntax;
        transfer_syntaxes = transfer_syntaxes;
      },
      24 + transfer_count * 20,
    )

  -- The loop of `PresentationContextList::encode`.
  unfoldable pub encode_contexts : List (PresentationContext Uuid) → Result Bytes
  encode_contexts [] = ok []
  encode_contexts (c ∷ cs) = do
    bytes ← expect (encode_context c)
    rest ← encode_contexts cs
    ok (bytes ++ rest)

  -- `PresentationContextList::encode`
  unfoldable pub encode_context_list : List (PresentationContext Uuid) → Result Bytes
  encode_context_list cs = do
    body ← encode_contexts cs
    ok (length cs % 256 ∷ 0 ∷ (u16_to_le_bytes 0 ++ body))

  -- The loop of `PresentationContextList::decode`, with the offset at which it ends.
  unfoldable pub decode_contexts : ℕ → Bytes → ℕ → Result (List (PresentationContext Uuid) × ℕ)
  decode_contexts zero bytes offset = ok ([], offset)
  decode_contexts (suc n) bytes offset = do
    (c, len) ← decode_context (← slice_from bytes offset)
    (cs, end) ← decode_contexts n bytes (offset + len)
    ok (c ∷ cs, end)

  -- `PresentationContextList::decode`
  unfoldable pub decode_context_list : Bytes → Result (List (PresentationContext Uuid))
  decode_context_list bytes = do
    fail_if (ltb (length bytes) 4)
        (invalid_pdu "presentation context list requires at least 4 bytes")
    count ← index bytes 0
    (cs, offset) ← decode_contexts count bytes 4
    fail_if (not (offset == length bytes))
        (invalid_pdu "presentation context list has trailing bytes")
    ok cs

  -- `BindPdu::with_contexts`
  unfoldable pub bind_with_contexts : ℕ → ℕ → ℕ → List (PresentationContext Uuid) → Result BindPdu
  bind_with_contexts max_xmit_frag max_recv_frag assoc_group_id contexts = do
    bytes ← encode_context_list contexts
    ok (record {
      max_xmit_frag = max_xmit_frag;
      max_recv_frag = max_recv_frag;
      assoc_group_id = assoc_group_id;
      presentation_context_list = bytes;
    })

  -- `BindPdu::presentation_context_list`
  unfoldable pub bind_contexts : BindPdu → Result (List (PresentationContext Uuid))
  unfolding decode_context_list
  bind_contexts p = decode_context_list p.presentation_context_list
