-- ===== src/Bind/Context/Limits.antt =====
-- Beyond the limits of its counts the encoder of presentation contexts goes wrong.
use msrpce_dcerpc.Base.{ℕ, ◌%◌, ◌≤◌, ◌<◌, length, All, take, drop}
use msrpce_dcerpc.Base.{ok, err, panic, ◌≡◌, refl, sym, arith, List, [], ◌∷◌, ◌++◌}
use msrpce_dcerpc.Base.{
  length-append, length-take, length-drop, take-append-drop, All-take, append_assoc,
}
use msrpce_dcerpc.Crates.{UuidCrate}
use msrpce_dcerpc.Error.{invalid_pdu}
use msrpce_dcerpc.Pdu.Bodies.{BindPdu}
use msrpce_dcerpc.Bind.Context.{
  PresentationContext, encode_context, encode_contexts, encode_context_list, decode_context_list,
  bind_with_contexts, bind_contexts,
}
use msrpce_dcerpc.Bind.Context.RoundTrip.{
  IsWireContext, wire_context, wire_contexts, encode_context_list_wire,
  decode_contexts-wire_contexts, length-wire_context, encode_context_wire,
}

module _ {Uuid : Type 0} ⦃u : UuidCrate Uuid⦄ where
  too_many_syntaxes :
      (c : PresentationContext Uuid)
      → 255 < length c.transfer_syntaxes
      → encode_context c ≡ err (invalid_pdu "too many transfer syntaxes")
  unfolding encode_context
  too_many_syntaxes c h = ground arith

  panics_at :
      (cs : List (PresentationContext Uuid)) (c : PresentationContext Uuid)
      (more : List (PresentationContext Uuid))
      → All IsWireContext cs
      → 255 < length c.transfer_syntaxes
      → encode_contexts (cs ++ (c ∷ more)) ≡ panic
  unfolding encode_contexts
  panics_at [] c more w h = rw (too_many_syntaxes c h) refl
  panics_at (d ∷ cs) c more w h =
      rw (encode_context_wire d w.0.count, panics_at cs c more w.1 h) refl

  -- A context with more than 255 transfer syntaxes, behind contexts that are within their limits,
  -- makes `BindPdu::with_contexts` panic.
  pub bind_with_contexts_panics :
      (x r g : ℕ) (cs : List (PresentationContext Uuid)) (c : PresentationContext Uuid)
      (more : List (PresentationContext Uuid))
      → All IsWireContext cs
      → 255 < length c.transfer_syntaxes
      → bind_with_contexts x r g (cs ++ (c ∷ more)) ≡ panic
  unfolding bind_with_contexts encode_context_list
  bind_with_contexts_panics x r g cs c more w h = rw (panics_at cs c more w h) refl

  cut_short :
      (front back : List (PresentationContext Uuid)) (c : PresentationContext Uuid)
      → All IsWireContext front
      → decode_context_list {Uuid = Uuid} (
          length front
          ∷ 0
          ∷ 0
          ∷ 0
          ∷ (wire_contexts front ++ (wire_context c ++ wire_contexts back)))
        ≡ err (invalid_pdu "presentation context list has trailing bytes")
  unfolding decode_context_list
  cut_short front back c w = ground (
    arith,
    length-append (wire_contexts front) (wire_context c ++ wire_contexts back),
    length-append (wire_context c) (wire_contexts back),
    length-wire_context c,
    decode_contexts-wire_contexts front (length front ∷ 0 ∷ 0 ∷ 0 ∷ [])
        (wire_context c ++ wire_contexts back) 4 refl w,
  )

  wire_contexts-append :
      (xs ys : List (PresentationContext Uuid))
      → wire_contexts (xs ++ ys) ≡ wire_contexts xs ++ wire_contexts ys
  wire_contexts-append [] ys = refl
  wire_contexts-append (c ∷ xs) ys =
      rw
        (
          wire_contexts-append xs ys,
          append_assoc (wire_context c) (wire_contexts xs) (wire_contexts ys),
        )
        refl

  trailing :
      (cs front back : List (PresentationContext Uuid))
      → cs ≡ front ++ back
      → length front ≡ length cs % 256
      → 0 < length back
      → All IsWireContext front
      → decode_context_list {Uuid = Uuid} (length cs % 256 ∷ 0 ∷ 0 ∷ 0 ∷ wire_contexts cs)
        ≡ err (invalid_pdu "presentation context list has trailing bytes")
  trailing cs front [] e l pos w = absurd (omega arith)
  trailing cs front (c ∷ back) e l pos w =
      rw (← l, e, wire_contexts-append front (c ∷ back)) (cut_short front back c w)

  -- Of 256 contexts or more, each within its limits, `BindPdu::with_contexts` makes a body, and no
  -- reader gets them back: the count is stored in a byte, and what it does not count is left over.
  pub bind_contexts_overflow :
      (x r g : ℕ) (cs : List (PresentationContext Uuid))
      → All IsWireContext cs
      → 256 ≤ length cs
      → (p : BindPdu) × (bind_with_contexts x r g cs ≡ ok p)
        × (bind_contexts {Uuid = Uuid} p
            ≡ err (invalid_pdu "presentation context list has trailing bytes"))
  unfolding bind_with_contexts
  bind_contexts_overflow x r g cs w many =
      let k = length cs % 256 in
      (
        record {
          max_xmit_frag = x;
          max_recv_frag = r;
          assoc_group_id = g;
          presentation_context_list = k ∷ 0 ∷ 0 ∷ 0 ∷ wire_contexts cs;
        },
        rw (encode_context_list_wire cs w) refl,
        unfold bind_contexts in
            trailing cs (take k cs) (drop k cs) (sym (take-append-drop k cs))
              (omega (arith, length-take k cs)) (omega (arith, length-drop k cs))
              (All-take IsWireContext k cs w),
      )
