-- ===== src/Client/Simulation/Send.antt =====
-- Sending a request over a transport that simulates another.
use msrpce_dcerpc.Base.{
  ℕ, zero, suc, ◌+◌, ◌%◌, ◌==◌, min, Bytes, length, ok, ◌≡◌, refl, String, [], ◌∷◌, ltb, Bool-cases,
  inl, inr, fail_if, slice, bit_or,
}
use msrpce_dcerpc.Crates.{NdrCrate, UuidCrate}
use msrpce_dcerpc.Error.{invalid_pdu}
use msrpce_dcerpc.Auth.{AuthProvider}
use msrpce_dcerpc.Transport.{RpcTransport, Action, lift, ◌>>=◌}
use msrpce_dcerpc.Transport.Simulation.{
  Agree, returned, diverged, Same, Simulates, >>=-Agree, lift_then-Agree, lift_then_eq-Agree,
  Agree-map,
}
use msrpce_dcerpc.Pdu.Packet.{encode_packet, checked_sub}
use msrpce_dcerpc.Pdu.Header.{pfc_first_frag, pfc_last_frag, common_header_len}
use msrpce_dcerpc.Client.Packets.{RpcClient, request_fragment, request_packet, request_header_len}
use msrpce_dcerpc.Client.Send.{
  fragment_flags, send_bytes, send_fragment, send_loop, send_stub, send_request_fragments,
}
use msrpce_dcerpc.Client.Simulation.{Paired, Paired-moved}

module _ {T T' P : Type 0} (Uuid : Type 0) (R : T → T' → Type 0) ⦃n : NdrCrate⦄ ⦃u : UuidCrate Uuid⦄
    ⦃a : AuthProvider P⦄ ⦃tr : RpcTransport T⦄ ⦃tr' : RpcTransport T'⦄
    (sim : Simulates R tr tr') where
  abbrev Pair : RpcClient T P → RpcClient T' P → Type 0
  Pair c k = Paired R c k

  send_bytes-Agree :
      (b : Bytes) (c : RpcClient T P) (k : RpcClient T' P)
      → Pair c k
      → Agree Same Pair (send_bytes Uuid b c) (send_bytes Uuid b k)
  unfolding send_bytes
  send_bytes-Agree b c k w =
      Agree-map Same R Pair (λ (s : T). record c { transport = s })
        (λ (t : T'). record k { transport = t }) (Paired-moved R c k w)
        (sim.sends b c.transport k.transport w.related)

  send_fragment-Agree :
      (call_id opnum hint flags : ℕ) (piece : Bytes) (c : RpcClient T P) (k : RpcClient T' P)
      → Pair c k
      → Agree Same Pair
          (send_fragment Uuid call_id opnum hint flags piece c)
          (send_fragment Uuid call_id opnum hint flags piece k)
  unfolding send_fragment
  send_fragment-Agree call_id opnum hint flags piece c k w =
      lift_then_eq-Agree Pair Same
        (request_packet c call_id flags (request_fragment Uuid c opnum hint piece))
        (request_packet k call_id flags (request_fragment Uuid k opnum hint piece))
        (λ p. lift (encode_packet p) >>= send_bytes Uuid)
        (λ p. lift (encode_packet p) >>= send_bytes Uuid) c k
        (unfold request_packet request_fragment in rw (w.same_context, w.same_provider) refl) w
        (λ p.
          lift_then-Agree Pair Same (encode_packet p) (send_bytes Uuid) (send_bytes Uuid) c k w
            (λ bytes. send_bytes-Agree bytes c k w))

  module _ (call_id opnum max : ℕ) (stub : Bytes) where
    -- A round, whatever the rest does.
    send_round-Agree :
        (offset end : ℕ) (f : Action (RpcClient T P) (Unit {0}))
        (g : Action (RpcClient T' P) (Unit {0})) (c : RpcClient T P) (k : RpcClient T' P)
        → Pair c k
        → ((c : RpcClient T P) (k : RpcClient T' P) → Pair c k → Agree Same Pair (f c) (g k))
        → Agree Same Pair
            ((lift (slice stub offset end) >>= λ piece.
                send_fragment Uuid call_id opnum
                  (length stub % 4294967296)
                  (fragment_flags offset end (length stub))
                  piece
                >>= λ _. f)
              c)
            ((lift (slice stub offset end) >>= λ piece.
                send_fragment Uuid call_id opnum
                  (length stub % 4294967296)
                  (fragment_flags offset end (length stub))
                  piece
                >>= λ _. g)
              k)
    send_round-Agree offset end f g c k w next =
        let hint = length stub % 4294967296 in
        let flags = fragment_flags offset end (length stub) in
        lift_then-Agree Pair Same (slice stub offset end)
          (λ piece. send_fragment Uuid call_id opnum hint flags piece >>= λ _. f)
          (λ piece. send_fragment Uuid call_id opnum hint flags piece >>= λ _. g) c k w
          (λ piece.
            >>=-Agree Pair Same (send_fragment Uuid call_id opnum hint flags piece)
              (send_fragment Uuid call_id opnum hint flags piece) (λ _. f) (λ _. g) c k
              (send_fragment-Agree call_id opnum hint flags piece c k w)
              (λ x c' k' v. next c' k' v))

    send_loop-Agree :
        (rounds offset : ℕ) (c : RpcClient T P) (k : RpcClient T' P)
        → Pair c k
        → Agree Same Pair
            (send_loop Uuid rounds call_id opnum stub max offset c)
            (send_loop Uuid rounds call_id opnum stub max offset k)
    unfolding send_loop
    send_loop-Agree zero offset c k w = diverged w
    send_loop-Agree (suc rounds) offset c k w = elim (Bool-cases (ltb offset (length stub))) [
      | inl below ↦
          let end = min (offset + max) (length stub) in
          rw (below, send_loop)
            (send_round-Agree offset end (send_loop Uuid rounds call_id opnum stub max end)
              (send_loop Uuid rounds call_id opnum stub max end) c k w
              (λ c' k' v. send_loop-Agree rounds end c' k' v))
      | inr stop ↦ rw (stop, send_loop) (returned refl w)
    ]

  send_stub-Agree :
      (call_id opnum max : ℕ) (stub : Bytes) (c : RpcClient T P) (k : RpcClient T' P)
      → Pair c k
      → Agree Same Pair
          (send_stub Uuid call_id opnum stub max c)
          (send_stub Uuid call_id opnum stub max k)
  unfolding send_stub
  send_stub-Agree call_id opnum max [] c k w =
      let flags = bit_or pfc_first_frag pfc_last_frag in
      >>=-Agree Pair Same (send_fragment Uuid call_id opnum 0 flags [])
        (send_fragment Uuid call_id opnum 0 flags []) (λ _. lift (ok tt)) (λ _. lift (ok tt)) c k
        (send_fragment-Agree call_id opnum 0 flags [] c k w) (λ x c' k' v. returned refl v)
  send_stub-Agree call_id opnum max (b ∷ bs) c k w =
      send_loop-Agree call_id opnum max (b ∷ bs) (suc (length (b ∷ bs))) 0 c k w

  pub send_request_fragments-Agree :
      (call_id opnum : ℕ) (stub : Bytes) (c : RpcClient T P) (k : RpcClient T' P)
      → Pair c k
      → Agree Same Pair
          (send_request_fragments Uuid call_id opnum stub c)
          (send_request_fragments Uuid call_id opnum stub k)
  unfolding send_request_fragments
  send_request_fragments-Agree call_id opnum stub c k w =
      let text : String = "max transmit fragment is too small" in
      let head = common_header_len + request_header_len in
      let same_room : checked_sub c.max_xmit_frag head text
          ≡ checked_sub k.max_xmit_frag head text =
        rw w.same_limit refl in
      lift_then_eq-Agree Pair Same (checked_sub c.max_xmit_frag head text)
        (checked_sub k.max_xmit_frag head text)
        (λ m.
          lift (fail_if (m == 0) (invalid_pdu text)) >>= λ _. send_stub Uuid call_id opnum stub m)
        (λ m.
          lift (fail_if (m == 0) (invalid_pdu text)) >>= λ _. send_stub Uuid call_id opnum stub m)
        c k same_room w
        (λ m.
          lift_then-Agree Pair Same (fail_if (m == 0) (invalid_pdu text))
            (λ _. send_stub Uuid call_id opnum stub m) (λ _. send_stub Uuid call_id opnum stub m) c
            k w (λ x. send_stub-Agree call_id opnum m stub c k w))
