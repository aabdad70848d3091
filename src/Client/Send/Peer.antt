-- ===== src/Client/Send/Peer.antt =====
-- What a peer makes of the fragments of a stub: each fits, each is a request of the call, and their
-- stubs are the stub.
use msrpce_dcerpc.Base.{
  ℕ, ◌+◌, ◌-◌, ◌%◌, ◌<◌, ◌≤◌, Bytes, length, IsU16, IsU32, List, [], ◌∷◌, ◌++◌, All, concat, ok,
  ◌>>=◌,
}
use msrpce_dcerpc.Base.{◌≡◌, refl, arith, none, Bool, true, false, bit_or, ◌∙◌}
use msrpce_dcerpc.Crates.{NdrCrate, UuidCrate, little}
use msrpce_dcerpc.Error.{Result}
use msrpce_dcerpc.Auth.{AuthProvider}
use msrpce_dcerpc.Transport.{RpcTransport}
use msrpce_dcerpc.Pdu.Header.{new_header}
use msrpce_dcerpc.Pdu.Bodies.{RequestPdu, encode_request, decode_request, IsWireRequest}
use msrpce_dcerpc.Pdu.Bodies.RoundTrip.{decode_request-encode_request}
use msrpce_dcerpc.Pdu.Packet.{
  stamp, decode_packet, from_request_with_flags, fragment_length, trailer_room,
}
use msrpce_dcerpc.Pdu.Packet.RoundTrip.{
  IsWirePacket, wire, length-wire, decode_packet-encode_packet,
}
use msrpce_dcerpc.Client.Packets.{RpcClient, request_fragment}
use msrpce_dcerpc.Client.Send.Chunks.{
  Fragment, IsFragment, place_flags, pieces, fragments, fragments-IsFragment, concat-fragments,
}
use msrpce_dcerpc.Client.Send.Step.{fragment_packet, fragment_wires}

-- A request as a peer reads it from a PDU: the call, the flags and the request.
pub record Seen (Uuid : Type 0) : Type 0 where
  pub call_id : ℕ
  pub flags : ℕ
  pub request : RequestPdu Uuid

-- No flag is added for a request without an object.
place_flags_kept :
    (first last : Bool)
    → (bit_or (place_flags first last) 0 ≡ place_flags first last) × (place_flags first last < 256)
place_flags_kept true true = (refl, omega arith)
place_flags_kept true false = (refl, omega arith)
place_flags_kept false true = (refl, omega arith)
place_flags_kept false false = (refl, omega arith)

module _ {Uuid : Type 0} ⦃n : NdrCrate⦄ ⦃u : UuidCrate Uuid⦄ where
  -- The peer's reading of one PDU and of several.
  abbrev pub read_request : Bytes → Result (Seen Uuid)
  read_request bytes = do
    p ← decode_packet bytes
    r ← decode_request p.body false
    ok (record { call_id = p.header.call_id; flags = p.header.pfc_flags; request = r })

  abbrev pub read_requests : List Bytes → Result (List (Seen Uuid))
  read_requests [] = ok []
  read_requests (b ∷ bs) = do r ← read_request b; rs ← read_requests bs; ok (r ∷ rs)

  abbrev pub request_stubs : List (Seen Uuid) → Bytes
  request_stubs [] = []
  request_stubs (r ∷ rs) = r.request.stub_data ++ request_stubs rs

module _ {T P : Type 0} (Uuid : Type 0) ⦃n : NdrCrate⦄ ⦃u : UuidCrate Uuid⦄ ⦃a : AuthProvider P⦄
    ⦃tr : RpcTransport T⦄ where
  -- The requests that stand for the fragments.
  abbrev pub requests : RpcClient T P → ℕ → ℕ → ℕ → List Fragment → List (Seen Uuid)
  requests c call_id opnum total [] = []
  requests c call_id opnum total (f ∷ fs) =
      record {
        call_id = call_id;
        flags = f.flags;
        request = record {
          alloc_hint = total % 4294967296;
          ctx_id = c.context_id;
          opnum = opnum;
          object = none;
          stub_data = f.piece;
        };
      }
      ∷ requests c call_id opnum total fs

  module _ (c : RpcClient T P) (call_id opnum total : ℕ) (max : ℕ) (call : IsU32 call_id)
      (ctx : IsU16 c.context_id) (op : IsU16 opnum) (small : max + 24 < 65536) where
    fragment-IsWirePacket :
        (first last : Bool) (piece : Bytes)
        → length piece ≤ max
        → IsWirePacket (
            fragment_packet Uuid c call_id opnum total
              (record { flags = place_flags first last; piece = piece }))
    unfolding from_request_with_flags encode_request request_fragment new_header fragment_length
        trailer_room
    fragment-IsWirePacket first last piece h = record {
      head = record {
        version = refl;
        minor = omega arith;
        flags = let (e, h) = place_flags_kept first last in rw e h;
        drep = n.windows_default-IsArray4;
        frag = omega arith;
        auth = omega arith;
        call = call;
        order = little;
        known = n.windows_default-little;
      };
      paired = tt;
      fits = omega arith;
    }

    request-IsWireRequest :
        (piece : Bytes) → IsWireRequest (request_fragment Uuid c opnum (total % 4294967296) piece)
    unfolding request_fragment
    request-IsWireRequest piece = record { hint = omega arith; ctx = ctx; op = op }

    read_fragment :
        (first last : Bool) (piece : Bytes)
        → length piece ≤ max
        → read_request {Uuid = Uuid} (
            wire (
              fragment_packet Uuid c call_id opnum total
                (record { flags = place_flags first last; piece = piece })))
          ≡ ok (record {
            call_id = call_id;
            flags = place_flags first last;
            request = record {
              alloc_hint = total % 4294967296;
              ctx_id = c.context_id;
              opnum = opnum;
              object = none;
              stub_data = piece;
            };
          })
    unfolding from_request_with_flags stamp new_header request_fragment
    read_fragment first last piece h =
        rw
          (
            (decode_packet-encode_packet
                (fragment_packet Uuid c call_id opnum total
                  (record { flags = place_flags first last; piece = piece }))
                (fragment-IsWirePacket first last piece h)).1,
            decode_request-encode_request (request_fragment Uuid c opnum (total % 4294967296) piece)
                (request-IsWireRequest piece),
            (place_flags_kept first last).0,
          )
          refl

    read_marked :
        (f : Fragment)
        → IsFragment max f
        → read_request {Uuid = Uuid} (wire (fragment_packet Uuid c call_id opnum total f))
          ≡ ok (record {
            call_id = call_id;
            flags = f.flags;
            request = record {
              alloc_hint = total % 4294967296;
              ctx_id = c.context_id;
              opnum = opnum;
              object = none;
              stub_data = f.piece;
            };
          })
    unfolding request_fragment
    read_marked f w = rw w.3 (read_fragment w.1 w.2 f.piece w.0)

    pub read_requests-fragment_wires :
        (fs : List Fragment)
        → All (IsFragment max) fs
        → read_requests (fragment_wires Uuid c call_id opnum total fs)
          ≡ ok (requests c call_id opnum total fs)
    read_requests-fragment_wires [] w = refl
    read_requests-fragment_wires (f ∷ fs) w =
        rw (read_marked f w.0, read_requests-fragment_wires fs w.1) refl

    length-fragment_wire :
        (f : Fragment)
        → length (wire (fragment_packet Uuid c call_id opnum total f)) ≡ 24 + length f.piece
    unfolding from_request_with_flags encode_request request_fragment fragment_length trailer_room
    length-fragment_wire f =
        omega (arith, length-wire (fragment_packet Uuid c call_id opnum total f))

    pub fragment_wires_bounded :
        (fs : List Fragment)
        → All (IsFragment max) fs
        → All (λ (b : Bytes). length b ≤ max + 24) (fragment_wires Uuid c call_id opnum total fs)
    fragment_wires_bounded [] w = tt
    fragment_wires_bounded (f ∷ fs) w =
        (omega (arith, length-fragment_wire f), fragment_wires_bounded fs w.1)

    pub request_stubs-requests :
        (fs : List Fragment)
        → request_stubs (requests c call_id opnum total fs) ≡ concat (pieces fs)
    unfolding request_fragment
    request_stubs-requests [] = refl
    request_stubs-requests (f ∷ fs) = rw (request_stubs-requests fs) refl

  -- Of the fragments of a stub each has at most `max_xmit_frag` bytes, and a peer reads each as a
  -- request of the call, with the flags of its place, the client's context, the operation and the
  -- length of the whole stub as the hint; the requests' stubs, put together, are the stub. The ids
  -- are in their ranges and a fragment has room for a byte.
  pub read_requests_lem :
      (c : RpcClient T P) (call_id opnum : ℕ) (stub : Bytes)
      → IsU32 call_id
      → IsU16 c.context_id
      → IsU16 opnum
      → 24 < c.max_xmit_frag
      → IsU16 c.max_xmit_frag
      → (read_requests (
            fragment_wires Uuid c call_id opnum
              (length stub)
              (fragments (c.max_xmit_frag - 24) stub))
          ≡ ok (requests c call_id opnum (length stub) (fragments (c.max_xmit_frag - 24) stub)))
        × (request_stubs
              (requests c call_id opnum (length stub) (fragments (c.max_xmit_frag - 24) stub))
            ≡ stub)
        × All
            (λ (b : Bytes). length b ≤ c.max_xmit_frag)
            (fragment_wires Uuid c call_id opnum
              (length stub)
              (fragments (c.max_xmit_frag - 24) stub))
  read_requests_lem c call_id opnum stub call ctx op room small =
      let max = c.max_xmit_frag - 24 in
      let back : max + 24 ≡ c.max_xmit_frag = omega arith in
      let fs = fragments max stub in
      let w = fragments-IsFragment max stub (omega arith) in
      (
        read_requests-fragment_wires c call_id opnum (length stub) max call ctx op (omega arith) fs
            w,
        request_stubs-requests c call_id opnum (length stub) max call ctx op (omega arith) fs
            ∙ concat-fragments max stub,
        rw back at (
            fragment_wires_bounded c call_id opnum (length stub) max call ctx op (omega arith) fs
              w),
      )
