-- ===== src/Client/Send/Loop.antt =====
-- The loop of `send_request_fragments` on the transport: it sends the fragments that are left, in
-- order, until a send fails.
use native.Mathlib.Decide.{dec_le}
use msrpce_dcerpc.Base.{ℕ, zero, suc, ◌+◌, ◌-◌, ◌%◌, ◌≤◌, ◌<◌, min, Bytes, length, take, drop}
use msrpce_dcerpc.Base.{ok, ◌≡◌, refl, ap, sym, arith, true, false, List, []}
use msrpce_dcerpc.Base.{
  length-take, length-drop, slice_in, drop-drop, take_all, lt→ltb, eq→==, ne→==, ◌==◌,
}
use msrpce_dcerpc.Crates.{NdrCrate, UuidCrate}
use msrpce_dcerpc.Error.{Error, Result}
use msrpce_dcerpc.Auth.{AuthProvider}
use msrpce_dcerpc.Transport.{RpcTransport, Action, ◌>>=◌}
use msrpce_dcerpc.Pdu.Packet.RoundTrip.{wire}
use msrpce_dcerpc.Client.Packets.{RpcClient, IsSupported}
use msrpce_dcerpc.Client.Send.{send_fragment, send_loop}
use msrpce_dcerpc.Client.Send.Chunks.{
  chunks, Fragment, place_flags, mark, chunks_rounds, chunks_cons, chunks_last, chunks_more,
  mark_more,
}
use msrpce_dcerpc.Client.Send.Step.{
  send_all, flags_place, fragment_packet, fragment_wires, embed, fragment_step, embed_bind,
}

module _ {T P : Type 0} (Uuid : Type 0) ⦃n : NdrCrate⦄ ⦃u : UuidCrate Uuid⦄ ⦃a : AuthProvider P⦄
    ⦃tr : RpcTransport T⦄ where
  module _ (c : RpcClient T P) (call_id opnum max : ℕ) (stub : Bytes)
      (sup : IsSupported c.auth_provider) (pos : 0 < max) (small : max + 24 < 65536) where
    abbrev packets : List Fragment → List Bytes
    packets = fragment_wires Uuid c call_id opnum (length stub)

    abbrev run : ℕ → ℕ → T → Result (Unit {0}) × RpcClient T P
    run rounds offset t =
        send_loop Uuid rounds call_id opnum stub max offset (record c { transport = t })

    loop_end :
        (rounds : ℕ) (t : T)
        → run (suc rounds) (length stub) t ≡ (ok tt, record c { transport = t })
    unfolding send_loop
    loop_end rounds t = ground arith

    -- One round, by where it ends.
    loop_round :
        (rounds offset end : ℕ) (piece : Bytes) (t : T)
        → offset < length stub
        → end ≡ min (offset + max) (length stub)
        → piece ≡ take (end - offset) (drop offset stub)
        → run (suc rounds) offset t
          ≡ (send_fragment Uuid call_id opnum
                  (length stub % 4294967296)
                  (place_flags (offset == 0) (end == length stub))
                  piece
                >>= λ _. send_loop Uuid rounds call_id opnum stub max end)
              (record c { transport = t })
    unfolding send_loop
    loop_round rounds offset end piece t inside ee ep = ground (
      arith,
      lt→ltb offset (length stub) inside,
      ep,
      ee,
      slice_in {E = Error} stub offset (min (offset + max) (length stub)) (omega arith)
          (omega arith),
      flags_place offset (min (offset + max) (length stub)) (length stub),
    )

    -- One round, and what follows it, on the transport.
    round_sent :
        (rounds offset end : ℕ) (piece : Bytes) (t : T) (k : Action T (Unit {0}))
        → offset < length stub
        → end ≡ min (offset + max) (length stub)
        → piece ≡ take (end - offset) (drop offset stub)
        → length piece ≤ max
        → ((s : T) → run rounds end s ≡ embed Uuid c (k s))
        → run (suc rounds) offset t
          ≡ embed Uuid c (
              (tr.send_pdu (
                    wire (
                      fragment_packet Uuid c call_id opnum (length stub) (record {
                        flags = place_flags (offset == 0) (end == length stub);
                        piece = piece;
                      })))
                  >>= λ _. k)
                t)
    round_sent rounds offset end piece t k inside ee ep fits h =
        let f : Fragment = record {
          flags = place_flags (offset == 0) (end == length stub);
          piece = piece;
        } in
        rw (loop_round rounds offset end piece t inside ee ep) (
          embed_bind Uuid c t
            (send_fragment Uuid call_id opnum (length stub % 4294967296) f.flags piece)
            (tr.send_pdu (wire (fragment_packet Uuid c call_id opnum (length stub) f)))
            (send_loop Uuid rounds call_id opnum stub max end) k (record c { transport = t })
            (fragment_step Uuid c t call_id opnum (length stub) f sup (omega arith)) h)

    -- The last round.
    loop_last :
        (rounds offset : ℕ) (t : T)
        → offset < length stub
        → length stub ≤ offset + max
        → run (suc (suc rounds)) offset t
          ≡ embed Uuid c (
              send_all
                (packets (mark (offset == 0) (chunks (length stub) max (drop offset stub))))
                t)
    unfolding send_all
    loop_last rounds offset t inside last =
        let rest : length (drop offset stub) ≤ max = omega (arith, length-drop offset stub) in
        let full : take (length stub - offset) (drop offset stub) ≡ drop offset stub =
          take_all (length stub - offset) (drop offset stub)
            (omega (arith, length-drop offset stub)) in
        let sent =
          round_sent (suc rounds) offset (length stub) (drop offset stub) t (send_all []) inside
            (omega arith) (sym full) rest (λ s. loop_end rounds s) in
        let final : (length stub == length stub) ≡ true = eq→== (length stub) (length stub) refl in
        rw (chunks_last (length stub) max (drop offset stub) rest) (rw final at sent)

    loop_two :
        (rounds offset : ℕ) (t : T)
        → offset < length stub
        → 0 < rounds
        → length stub ≤ offset + max
        → run (suc rounds) offset t
          ≡ embed Uuid c (
              send_all
                (packets (mark (offset == 0) (chunks (length stub) max (drop offset stub))))
                t)
    loop_two zero offset t inside left last = absurd (omega arith)
    loop_two (suc rounds) offset t inside left last = loop_last rounds offset t inside last

    -- A round with more to come.
    loop_next :
        (rounds offset : ℕ) (t : T)
        → offset < length stub
        → offset + max < length stub
        → ((s : T)
            → run rounds (offset + max) s
              ≡ embed Uuid c (
                  send_all
                    (packets (mark false (chunks (length stub) max (drop (offset + max) stub))))
                    s))
        → run (suc rounds) offset t
          ≡ embed Uuid c (
              send_all
                (packets (mark (offset == 0) (chunks (length stub) max (drop offset stub))))
                t)
    unfolding send_all
    loop_next rounds offset t inside more h =
        let here : length (drop offset stub) ≡ length stub - offset = length-drop offset stub in
        let sent =
          round_sent rounds offset (offset + max) (take max (drop offset stub)) t
            (send_all (packets (mark false (chunks (length stub) max (drop (offset + max) stub)))))
            inside (omega arith) (ap (λ (m : ℕ). take m (drop offset stub)) (omega arith))
            (omega (arith, length-take max (drop offset stub))) h in
        let final : ((offset + max) == length stub) ≡ false =
          ne→== (offset + max) (length stub) (omega arith) in
        let (y, ys, e) = chunks_cons (length stub) max (drop (offset + max) stub) in
        rw
          (
            chunks_rounds (length stub) (suc (length stub)) max (drop offset stub) pos (omega arith)
                (omega arith),
            chunks_more (length stub) max (drop offset stub) (omega arith),
            drop-drop offset max stub,
            mark_more (offset == 0) (take max (drop offset stub))
                (chunks (length stub) max (drop (offset + max) stub)) e,
          )
          (rw final at sent)

    -- The loop on the transport, from one of its offsets on.
    pub loop_lem :
        (rounds offset : ℕ) (t : T)
        → offset < length stub
        → length stub < offset + rounds
        → run rounds offset t
          ≡ embed Uuid c (
              send_all
                (packets (mark (offset == 0) (chunks (length stub) max (drop offset stub))))
                t)
    loop_lem zero offset t inside enough = absurd (omega arith)
    loop_lem (suc rounds) offset t inside enough = elim (dec_le (length stub) (offset + max)) [
      | yes last ↦ loop_two rounds offset t inside (omega arith) last
      | no more ↦
          let again : (offset + max == 0) ≡ false = ne→== (offset + max) 0 (omega arith) in
          loop_next rounds offset t inside (omega arith)
            (λ s. rw again at (loop_lem rounds (offset + max) s (omega arith) (omega arith)))
    ]
