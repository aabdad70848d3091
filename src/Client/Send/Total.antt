-- ===== src/Client/Send/Total.antt =====
-- Sending a request ends, whatever the transport does, and changes nothing of the client but the
-- transport.
use msrpce_dcerpc.Base.{
  ℕ, zero, suc, ◌+◌, ◌%◌, ◌≤◌, ◌<◌, min, Bytes, length, ok, ◌≡◌, refl, ◌∙◌, arith, [], ◌∷◌,
  slice_in, ltb, ltb→lt, Bool-cases, inl, inr, Returns, fail_if, fail_if-Returns, ◌==◌, slice,
  bit_or, Option, none, some, String,
}
use msrpce_dcerpc.Crates.{NdrCrate, UuidCrate}
use msrpce_dcerpc.Error.{Error, Result, invalid_pdu}
use msrpce_dcerpc.Auth.{AuthProvider, AuthLevel, connect, packet_integrity, packet_privacy}
use msrpce_dcerpc.Transport.{RpcTransport, lift, ◌>>=◌}
use msrpce_dcerpc.Transport.Ends.{Ends, returned, >>=-Ends, lift-Ends, lift_then-Ends}
use msrpce_dcerpc.Transport.Finite.{IsFinite}
use msrpce_dcerpc.Pdu.Packet.{PduPacket, encode_packet, checked_sub, from_request_with_flags}
use msrpce_dcerpc.Pdu.Header.{pfc_first_frag, pfc_last_frag, common_header_len}
use msrpce_dcerpc.Client.Packets.{
  RpcClient, request_fragment, request_packet, supported_level, with_supported_level,
  request_header_len,
}
use msrpce_dcerpc.Client.Send.{
  fragment_flags, send_bytes, send_fragment, send_loop, send_stub, send_request_fragments,
}

-- The client `k` is `c` but for its transport, which has no more to deliver than `c`'s.
pub record Within {T P : Type 0} (remaining : T → ℕ) (c k : RpcClient T P) : Type 0 where
  pub left : remaining k.transport ≤ remaining c.transport
  pub same_context : k.context_id ≡ c.context_id
  pub same_call : k.call_id ≡ c.call_id
  pub same_limit : k.max_xmit_frag ≡ c.max_xmit_frag
  pub same_provider : k.auth_provider ≡ c.auth_provider

supported_level-Returns :
    {A : Type 0} (level : AuthLevel) (x : A) → Returns (supported_level level x)
unfolding supported_level
supported_level-Returns AuthLevel.none x = tt
supported_level-Returns connect x = tt
supported_level-Returns packet_integrity x = tt
supported_level-Returns packet_privacy x = tt

pub with_supported_level-Returns :
    {A P : Type 0} ⦃a : AuthProvider P⦄ (held : Option P) (x : A)
    → Returns (with_supported_level held x)
unfolding with_supported_level
with_supported_level-Returns none x = tt
with_supported_level-Returns ⦃a = a⦄ (some p) x = supported_level-Returns (a.auth_level p) x

checked_sub-Returns : (x y : ℕ) (message : String) → Returns (checked_sub x y message)
checked_sub-Returns x y message = ground arith

pub encode_packet-Returns : ⦃n : NdrCrate⦄ (p : PduPacket) → Returns (encode_packet p)
unfolding encode_packet
encode_packet-Returns p = ground arith

module _ {T P : Type 0} (remaining : T → ℕ) where
  pub Within-refl : (c : RpcClient T P) → Within remaining c c
  Within-refl c = record {
    left = omega arith;
    same_context = refl;
    same_call = refl;
    same_limit = refl;
    same_provider = refl;
  }

  pub Within-trans :
      (c k j : RpcClient T P) → Within remaining c k → Within remaining k j → Within remaining c j
  Within-trans c k j v w = record {
    left = omega arith;
    same_context = w.same_context ∙ v.same_context;
    same_call = w.same_call ∙ v.same_call;
    same_limit = w.same_limit ∙ v.same_limit;
    same_provider = w.same_provider ∙ v.same_provider;
  }

module _ {T P : Type 0} (Uuid : Type 0) (remaining : T → ℕ) ⦃n : NdrCrate⦄ ⦃u : UuidCrate Uuid⦄
    ⦃a : AuthProvider P⦄ ⦃tr : RpcTransport T⦄ (fin : IsFinite tr remaining)
    (c : RpcClient T P) where
  abbrev Kept : RpcClient T P → Type 0
  Kept k = Within remaining c k

  -- The transport's outcome, as the client's.
  sent :
      (k : RpcClient T P) (r : Result (Unit {0})) (t : T)
      → Returns r
      → remaining t ≤ remaining k.transport
      → Kept k
      → Ends Kept (r, record k { transport = t })
  sent k r t h m w =
      let moved : Kept (record k { transport = t }) = record {
        left = omega (arith, w.left);
        same_context = w.same_context;
        same_call = w.same_call;
        same_limit = w.same_limit;
        same_provider = w.same_provider;
      } in
      lift-Ends Kept r (record k { transport = t }) h moved

  send_bytes-Ends : (b : Bytes) (k : RpcClient T P) → Kept k → Ends Kept (send_bytes Uuid b k)
  unfolding send_bytes
  send_bytes-Ends b k w =
      sent k (tr.send_pdu b k.transport).0 (tr.send_pdu b k.transport).1
        (fin.send_returns b k.transport) (fin.send_remaining b k.transport) w

  send_fragment-Ends :
      (call_id opnum hint flags : ℕ) (piece : Bytes) (k : RpcClient T P)
      → Kept k
      → Ends Kept (send_fragment Uuid call_id opnum hint flags piece k)
  unfolding send_fragment request_packet
  send_fragment-Ends call_id opnum hint flags piece k w =
      let packet =
        from_request_with_flags call_id flags (request_fragment Uuid k opnum hint piece) in
      lift_then-Ends Kept (with_supported_level k.auth_provider packet)
        (λ p. lift (encode_packet p) >>= send_bytes Uuid) k
        (with_supported_level-Returns k.auth_provider packet) w
        (λ p e.
          lift_then-Ends Kept (encode_packet p) (send_bytes Uuid) k (encode_packet-Returns p) w
            (λ bytes f. send_bytes-Ends bytes k w))

  module _ (call_id opnum max : ℕ) (stub : Bytes) (pos : 0 < max) where
    -- What a round does below the stub's end, by where it ends.
    send_round-Ends :
        (rounds offset end : ℕ) (k : RpcClient T P)
        → offset ≤ end
        → end ≤ length stub
        → Kept k
        → ((j : RpcClient T P)
            → Kept j
            → Ends Kept (send_loop Uuid rounds call_id opnum stub max end j))
        → Ends Kept (
            (lift (slice stub offset end) >>= λ piece.
            send_fragment Uuid call_id opnum
              (length stub % 4294967296)
              (fragment_flags offset end (length stub))
              piece
            >>= λ _. send_loop Uuid rounds call_id opnum stub max end)
              k)
    send_round-Ends rounds offset end k lo hi w next =
        let hint = length stub % 4294967296 in
        let flags = fragment_flags offset end (length stub) in
        let there : Returns (slice {E = Error} stub offset end) =
          rw (slice_in {E = Error} stub offset end lo hi) tt in
        lift_then-Ends Kept (slice stub offset end)
          (λ piece. send_fragment Uuid call_id opnum hint flags piece >>= λ _.
            send_loop Uuid rounds call_id opnum stub max end)
          k there w
          (λ piece e.
            >>=-Ends Kept Kept (send_fragment Uuid call_id opnum hint flags piece)
              (λ _. send_loop Uuid rounds call_id opnum stub max end) k
              (send_fragment-Ends call_id opnum hint flags piece k w)
              (λ x f v. next (send_fragment Uuid call_id opnum hint flags piece k).1 v) (λ v. v))

    send_loop-Ends :
        (rounds offset : ℕ) (k : RpcClient T P)
        → offset ≤ length stub
        → length stub < offset + rounds
        → Kept k
        → Ends Kept (send_loop Uuid rounds call_id opnum stub max offset k)
    unfolding send_loop
    send_loop-Ends zero offset k inside enough w = absurd (omega arith)
    send_loop-Ends (suc rounds) offset k inside enough w =
        elim (Bool-cases (ltb offset (length stub))) [
          | inl more ↦
              rw (more, send_loop)
                (send_round-Ends rounds offset (min (offset + max) (length stub)) k (ground arith)
                  (omega arith) w
                  (λ j v.
                    send_loop-Ends rounds (min (offset + max) (length stub)) j (omega arith)
                      (omega (arith, ltb→lt offset (length stub) more)) v))
          | inr end ↦ rw (end, send_loop) (returned w)
        ]

  send_stub-Ends :
      (call_id opnum max : ℕ) (stub : Bytes) (k : RpcClient T P)
      → 0 < max
      → Kept k
      → Ends Kept (send_stub Uuid call_id opnum stub max k)
  unfolding send_stub
  send_stub-Ends call_id opnum max [] k pos w =
      >>=-Ends Kept Kept
        (send_fragment Uuid call_id opnum 0 (bit_or pfc_first_frag pfc_last_frag) [])
        (λ _. lift (ok tt)) k
        (send_fragment-Ends call_id opnum 0 (bit_or pfc_first_frag pfc_last_frag) [] k w)
        (λ x f v. returned v) (λ v. v)
  send_stub-Ends call_id opnum max (b ∷ bs) k pos w =
      send_loop-Ends call_id opnum max (b ∷ bs) pos (suc (length (b ∷ bs))) 0 k (omega arith)
        (omega arith) w

  -- `send_request_fragments` returns, and of the client only the transport has changed.
  pub send_request_fragments-Ends :
      (call_id opnum : ℕ) (stub : Bytes) (k : RpcClient T P)
      → Kept k
      → Ends Kept (send_request_fragments Uuid call_id opnum stub k)
  unfolding send_request_fragments
  send_request_fragments-Ends call_id opnum stub k w =
      let room : Result ℕ =
        checked_sub k.max_xmit_frag (common_header_len + request_header_len)
          "max transmit fragment is too small" in
      let room_returns : Returns room =
        checked_sub-Returns k.max_xmit_frag (common_header_len + request_header_len)
          "max transmit fragment is too small" in
      lift_then-Ends Kept room
        (λ m. lift (fail_if (m == 0) (invalid_pdu "max transmit fragment is too small")) >>= λ _.
          send_stub Uuid call_id opnum stub m)
        k room_returns w
        (λ m e.
          lift_then-Ends Kept (fail_if (m == 0) (invalid_pdu "max transmit fragment is too small"))
            (λ _. send_stub Uuid call_id opnum stub m) k
            (fail_if-Returns (m == 0) (invalid_pdu "max transmit fragment is too small")) w
            (λ x f. send_stub-Ends call_id opnum m stub k (ground arith) w))
