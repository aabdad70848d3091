-- ===== src/Bind/Context/Total.antt =====
-- The decoders of presentation contexts return on every input.
use native.Mathlib.Decide.{dec_lt}
use msrpce_dcerpc.Base.{
  ℕ, zero, suc, ◌+◌, ◌-◌, ◌*◌, ◌≤◌, ◌<◌, Bytes, length, take, drop, uncons4, lt→ltb,
}
use msrpce_dcerpc.Base.{ok, Returns, ◌≡◌, arith, ◌∷◌}
use msrpce_dcerpc.Base.{slice_in, slice_from_in, >>=-Returns, length-drop}
use msrpce_dcerpc.Crates.{UuidCrate}
use msrpce_dcerpc.Error.{Error}
use msrpce_dcerpc.Syntax.RoundTrip.{decode_syntax-Returns}
use msrpce_dcerpc.Bind.Context.{
  PresentationContext, decode_syntaxes, decode_context, decode_contexts, decode_context_list,
}

module _ (Uuid : Type 0) ⦃u : UuidCrate Uuid⦄ where
  decode_syntaxes-Returns :
      (n : ℕ) (bytes : Bytes) (offset : ℕ)
      → offset + n * 20 ≤ length bytes
      → Returns (decode_syntaxes {Uuid = Uuid} n bytes offset)
  unfolding decode_syntaxes
  decode_syntaxes-Returns zero bytes offset h = tt
  decode_syntaxes-Returns (suc n) bytes offset h = ground (
    arith,
    slice_in {E = Error} bytes offset (offset + 20),
    decode_syntax-Returns Uuid (take (offset + 20 - offset) (drop offset bytes)),
    decode_syntaxes-Returns n bytes (offset + 20),
  )

  -- The head of a context, with a count of its transfer syntaxes.
  module _ (a b n z : ℕ) (t : Bytes) where
    context_four-Returns : Returns (decode_context {Uuid = Uuid} (a ∷ b ∷ n ∷ z ∷ t))
    unfolding decode_context
    context_four-Returns = ground (
      arith,
      slice_in {E = Error} (a ∷ b ∷ n ∷ z ∷ t) 4 24,
      decode_syntax-Returns Uuid (take (24 - 4) t),
      decode_syntaxes-Returns n (a ∷ b ∷ n ∷ z ∷ t) 24,
    )

    context_four_bound :
        (c : PresentationContext Uuid) (len : ℕ)
        → decode_context (a ∷ b ∷ n ∷ z ∷ t) ≡ ok (c, len)
        → (24 ≤ len) × (len ≤ length (a ∷ b ∷ n ∷ z ∷ t))
    unfolding decode_context
    context_four_bound c len d = ground (
      arith,
      slice_in {E = Error} (a ∷ b ∷ n ∷ z ∷ t) 4 24,
      decode_syntax-Returns Uuid (take (24 - 4) t),
      decode_syntaxes-Returns n (a ∷ b ∷ n ∷ z ∷ t) 24,
    )

  context_short-Returns :
      (bytes : Bytes) → length bytes < 24 → Returns (decode_context {Uuid = Uuid} bytes)
  unfolding decode_context
  context_short-Returns bytes h = rw (lt→ltb (length bytes) 24 h) tt

  context_short_bound :
      (bytes : Bytes) (c : PresentationContext Uuid) (len : ℕ)
      → length bytes < 24
      → decode_context bytes ≡ ok (c, len)
      → ⊥
  unfolding decode_context
  context_short_bound bytes c len h d = cc (lt→ltb (length bytes) 24 h)

  decode_context-Returns : (bytes : Bytes) → Returns (decode_context {Uuid = Uuid} bytes)
  decode_context-Returns bytes = elim (dec_lt (length bytes) 24) [
    | yes h ↦ context_short-Returns bytes h
    | no h ↦
        uncons4 (λ ys. Returns (decode_context {Uuid = Uuid} ys)) context_four-Returns bytes
          (omega arith)
  ]

  -- A decoded context lies in its input.
  pub decode_context_bound :
      (bytes : Bytes) (c : PresentationContext Uuid) (len : ℕ)
      → decode_context bytes ≡ ok (c, len)
      → (24 ≤ len) × (len ≤ length bytes)
  decode_context_bound bytes c len d = elim (dec_lt (length bytes) 24) [
    | yes h ↦ absurd (context_short_bound bytes c len h d)
    | no h ↦
        uncons4 (λ ys. decode_context ys ≡ ok (c, len) → (24 ≤ len) × (len ≤ length ys))
          (λ a b n z t. context_four_bound a b n z t c len) bytes (omega arith) d
  ]

  decode_contexts-Returns :
      (n : ℕ) (bytes : Bytes) (offset : ℕ)
      → offset ≤ length bytes
      → Returns (decode_contexts {Uuid = Uuid} n bytes offset)
  unfolding decode_contexts
  decode_contexts-Returns zero bytes offset h = tt
  decode_contexts-Returns (suc n) bytes offset h = rw (slice_from_in {E = Error} bytes offset h) (
      >>=-Returns (decode_context (drop offset bytes)) _
        (decode_context-Returns (drop offset bytes))
        (λ r e.
          let (lo, hi) = decode_context_bound (drop offset bytes) r.0 r.1 e in
          >>=-Returns (decode_contexts n bytes (offset + r.1)) _
            (decode_contexts-Returns n bytes (offset + r.1)
              (omega (arith, length-drop offset bytes)))
            (λ rs e'. tt)))

  list_four-Returns :
      (a b n z : ℕ) (t : Bytes) → Returns (decode_context_list {Uuid = Uuid} (a ∷ b ∷ n ∷ z ∷ t))
  unfolding decode_context_list
  list_four-Returns a b n z t = ground (arith, decode_contexts-Returns a (a ∷ b ∷ n ∷ z ∷ t) 4)

  list_short-Returns :
      (bytes : Bytes) → length bytes < 4 → Returns (decode_context_list {Uuid = Uuid} bytes)
  unfolding decode_context_list
  list_short-Returns bytes h = rw (lt→ltb (length bytes) 4 h) tt

  -- `PresentationContextList::decode` returns on every input: no index or slice is out of bounds.
  pub decode_context_list-Returns :
      (bytes : Bytes) → Returns (decode_context_list {Uuid = Uuid} bytes)
  decode_context_list-Returns bytes = elim (dec_lt (length bytes) 4) [
    | yes h ↦ list_short-Returns bytes h
    | no h ↦
        uncons4 (λ ys. Returns (decode_context_list {Uuid = Uuid} ys)) list_four-Returns bytes
          (omega arith)
  ]
