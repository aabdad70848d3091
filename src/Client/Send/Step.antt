-- ===== src/Client/Send/Step.antt =====
-- The fragments of a stub on the transport: their packets and bytes, and one fragment as
-- `send_request_fragments` sends it.
use msrpce_dcerpc.Base.{ℕ, ◌+◌, ◌%◌, ◌<◌, Bytes, length}
use msrpce_dcerpc.Base.{ok, err, panic, diverge, ◌≡◌, refl, ap, ◌∙◌, arith, List, [], ◌∷◌}
use msrpce_dcerpc.Base.{◌==◌}
use msrpce_dcerpc.Crates.{NdrCrate, UuidCrate}
use msrpce_dcerpc.Error.{Result}
use msrpce_dcerpc.Auth.{AuthProvider}
use msrpce_dcerpc.Transport.{RpcTransport, Action, ◌>>=◌}
use msrpce_dcerpc.Pdu.Bodies.{encode_request}
use msrpce_dcerpc.Pdu.Packet.{PduPacket, from_request_with_flags, encode_packet}
use msrpce_dcerpc.Pdu.Packet.RoundTrip.{wire}
use msrpce_dcerpc.Client.Packets.{
  RpcClient, request_fragment, request_packet, with_supported_level_ok, IsSupported,
}
use msrpce_dcerpc.Client.Send.{fragment_flags, send_bytes, send_fragment}
use msrpce_dcerpc.Client.Send.Chunks.{Fragment, place_flags}

-- A transport is handed PDUs one after the other, until it fails on one.
unfoldable pub send_all :
    {T : Type 0} ⦃tr : RpcTransport T⦄ → List Bytes → T → Result (Unit {0}) × T
send_all [] t = (ok tt, t)
send_all ⦃tr⦄ (b ∷ bs) t = (tr.send_pdu b >>= λ _. send_all bs) t

-- The flags that the loop computes are those of the fragment's place.
pub flags_place :
    (offset end total : ℕ)
    → fragment_flags offset end total ≡ place_flags (offset == 0) (end == total)
unfolding fragment_flags
flags_place offset end total = ground arith

module _ {T P : Type 0} (Uuid : Type 0) ⦃n : NdrCrate⦄ ⦃u : UuidCrate Uuid⦄ ⦃a : AuthProvider P⦄
    ⦃tr : RpcTransport T⦄ where
  -- The packet of a fragment.
  abbrev pub fragment_packet : RpcClient T P → ℕ → ℕ → ℕ → Fragment → PduPacket
  fragment_packet c call_id opnum total f =
      from_request_with_flags call_id f.flags
        (request_fragment Uuid c opnum (total % 4294967296) f.piece)

  -- The bytes of the fragments.
  abbrev pub fragment_wires : RpcClient T P → ℕ → ℕ → ℕ → List Fragment → List Bytes
  fragment_wires c call_id opnum total [] = []
  fragment_wires c call_id opnum total (f ∷ fs) =
      wire (fragment_packet c call_id opnum total f) ∷ fragment_wires c call_id opnum total fs

  -- Of the client the fragments hold the context id alone.
  pub fragment_wires_same :
      (c k : RpcClient T P) (call_id opnum total : ℕ) (fs : List Fragment)
      → c.context_id ≡ k.context_id
      → fragment_wires c call_id opnum total fs ≡ fragment_wires k call_id opnum total fs
  unfolding request_fragment
  fragment_wires_same c k call_id opnum total [] e = refl
  fragment_wires_same c k call_id opnum total (f ∷ fs) e =
      rw (e, fragment_wires_same c k call_id opnum total fs e) refl

  encode_fragment :
      (c : RpcClient T P) (call_id opnum total : ℕ) (f : Fragment)
      → length f.piece + 24 < 65536
      → encode_packet (fragment_packet c call_id opnum total f)
        ≡ ok (wire (fragment_packet c call_id opnum total f))
  unfolding encode_packet from_request_with_flags encode_request request_fragment
  encode_fragment c call_id opnum total f h = ground arith

  -- The outcome of a transport's action as that of the client that holds the transport.
  abbrev pub embed : RpcClient T P → Result (Unit {0}) × T → Result (Unit {0}) × RpcClient T P
  embed c (r, t) = (r, record c { transport = t })

  pub fragment_step :
      (c : RpcClient T P) (t : T) (call_id opnum total : ℕ) (f : Fragment)
      → IsSupported c.auth_provider
      → length f.piece + 24 < 65536
      → send_fragment Uuid call_id opnum
          (total % 4294967296)
          f.flags
          f.piece
          (record c { transport = t })
        ≡ embed c (tr.send_pdu (wire (fragment_packet c call_id opnum total f)) t)
  unfolding send_fragment send_bytes request_packet request_fragment
  fragment_step c t call_id opnum total f sup h =
      rw
        (
          with_supported_level_ok c.auth_provider (fragment_packet c call_id opnum total f) sup,
          encode_fragment c call_id opnum total f h,
        )
        refl

  -- An outcome of the transport and what follows it, as those of the client.
  embed_outcome :
      (c : RpcClient T P) (m : Result (Unit {0}) × T) (next : Action (RpcClient T P) (Unit {0}))
      (k : Action T (Unit {0})) (s : RpcClient T P)
      → ((t : T) → next (record c { transport = t }) ≡ embed c (k t))
      → ((λ (z : RpcClient T P). embed c m) >>= λ _. next) s
        ≡ embed c (((λ (z : T). m) >>= λ _. k) c.transport)
  embed_outcome c (ok _, t) k next s h = h t
  embed_outcome c (err e, t) k next s h = refl
  embed_outcome c (panic, t) k next s h = refl
  embed_outcome c (diverge, t) k next s h = refl

  pub embed_bind :
      (c : RpcClient T P) (t : T) (first : Action (RpcClient T P) (Unit {0}))
      (m : Action T (Unit {0})) (next : Action (RpcClient T P) (Unit {0})) (k : Action T (Unit {0}))
      (s : RpcClient T P)
      → first s ≡ embed c (m t)
      → ((u : T) → next (record c { transport = u }) ≡ embed c (k u))
      → (first >>= λ _. next) s ≡ embed c ((m >>= λ _. k) t)
  embed_bind c t first m next k s e h =
      ap (λ (x : Result (Unit {0}) × RpcClient T P). ((λ (z : RpcClient T P). x) >>= λ _. next) s) e
      ∙ embed_outcome c (m t) next k s h
