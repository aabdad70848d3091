-- ===== src/NcacnNp/Framing.antt =====
-- The PDUs of a byte stream are received one by one, whatever packets they are.
use msrpce_dcerpc.Base.{
  ℕ, zero, suc, ◌+◌, ◌-◌, ◌<◌, ◌≤◌, Returns, length-drop, Bytes, length, take, drop, List, [], ◌∷◌,
  ◌++◌, All, ok, err, ◌≡◌, refl, arith, leb,
}
use msrpce_dcerpc.Base.{
  append_assoc, append-nil, length-append, take_left, drop_left, le→leb, if◌then◌else◌,
}
use msrpce_dcerpc.Crates.{NdrCrate}
use msrpce_dcerpc.Error.{Result}
use msrpce_dcerpc.Error
use msrpce_dcerpc.Transport.{Action, lift, ◌>>=◌}
use msrpce_dcerpc.Pdu.Header.{PduHeader, encode_header, IsWireHeader}
use msrpce_dcerpc.Pdu.Header.RoundTrip.{decode_header-encode_header, length-encode_header}
use msrpce_dcerpc.Pdu.Packet.{PduPacket, stamp, fragment_length, trailer_bytes}
use msrpce_dcerpc.Pdu.Packet.RoundTrip.{IsWirePacket, wire, length-wire, stamp-IsWireHeader}
use msrpce_dcerpc.NcacnNp.Finite.{IsFinitePipe}
use msrpce_dcerpc.NcacnNp.{NamedPipe, pipe_recv_pdu}

-- A pipe that holds the bytes still to be read; what is written goes elsewhere.
pub stream_read : ℕ → Bytes → Result Bytes × Bytes
stream_read n s =
    if leb n (length s)
    then (ok (take n s), drop n s)
    else (err (Error.transport "named pipe read failed"), s)

instance abbrev pub stream_pipe : NamedPipe Bytes
stream_pipe = record { read_exact = stream_read; write_all = λ bytes s. (ok tt, s) }

-- A number of PDUs, one after the other.
pub recv_pdus : ⦃n : NdrCrate⦄ → ℕ → Action Bytes (List Bytes)
recv_pdus zero = lift (ok [])
recv_pdus (suc k) = do pdu ← pipe_recv_pdu; pdus ← recv_pdus k; lift (ok (pdu ∷ pdus))

abbrev pub wires : ⦃n : NdrCrate⦄ → List PduPacket → List Bytes
wires [] = []
wires (p ∷ ps) = wire p ∷ wires ps

abbrev pub stream : ⦃n : NdrCrate⦄ → List PduPacket → Bytes → Bytes
stream [] rest = rest
stream (p ∷ ps) rest = wire p ++ stream ps rest

read_front :
    (front back : Bytes) (k : ℕ)
    → length front ≡ k
    → stream_read k (front ++ back) ≡ (ok front, back)
unfolding stream_read
read_front front back k h =
    rw
      (
        le→leb k (length (front ++ back)) (omega (arith, length-append front back)),
        take_left k front back h,
        drop_left k front back h,
      )
      refl

module _ ⦃n : NdrCrate⦄ where
  recv_front :
      (h : PduHeader) (body rest : Bytes)
      → IsWireHeader h
      → h.frag_length ≡ 16 + length body
      → pipe_recv_pdu (encode_header h ++ (body ++ rest)) ≡ (ok (encode_header h ++ body), rest)
  unfolding pipe_recv_pdu
  recv_front h body rest w len = ground (
    arith,
    read_front (encode_header h) (body ++ rest) 16 (length-encode_header h),
    rw append-nil at (decode_header-encode_header h [] w),
    read_front body rest (h.frag_length - 16) (omega arith),
  )

  pub stamp_frag_length :
      (p : PduPacket)
      → fragment_length p < 65536
      → (stamp p).frag_length
        ≡ 16 + length (p.body ++ (trailer_bytes p.security_trailer ++ p.auth_value))
  unfolding stamp
  stamp_frag_length p fits = omega (
    arith,
    length-wire p,
    length-append (encode_header (stamp p))
        (p.body ++ (trailer_bytes p.security_trailer ++ p.auth_value)),
    length-encode_header (stamp p),
  )

  recv_packet :
      (p : PduPacket) (rest : Bytes)
      → IsWirePacket p
      → pipe_recv_pdu (wire p ++ rest) ≡ (ok (wire p), rest)
  recv_packet p rest w =
      let tail = p.body ++ (trailer_bytes p.security_trailer ++ p.auth_value) in
      rw (append_assoc (encode_header (stamp p)) tail rest)
        (recv_front (stamp p) tail rest (stamp-IsWireHeader p w.head) (stamp_frag_length p w.fits))

  -- From a stream of packets that fit the wire, each is received as its own bytes, in order, and what
  -- stands behind them is left.
  pub recv_pdus-wires :
      (ps : List PduPacket) (rest : Bytes)
      → All IsWirePacket ps
      → recv_pdus (length ps) (stream ps rest) ≡ (ok (wires ps), rest)
  unfolding recv_pdus
  recv_pdus-wires [] rest w = refl
  recv_pdus-wires (p ∷ ps) rest w =
      ground (arith, recv_packet p (stream ps rest) w.0, recv_pdus-wires ps rest w.1)

stream_read-IsFinite :
    (k : ℕ) (s : Bytes) → Returns (stream_read k s).0 × (length (stream_read k s).1 ≤ length s)
unfolding stream_read
stream_read-IsFinite k s = (ground arith, ground (arith, length-drop k s))

stream_read_takes :
    (k : ℕ) (s : Bytes) {b : Bytes}
    → (stream_read k s).0 ≡ ok b
    → length (stream_read k s).1 + k ≤ length s
unfolding stream_read
stream_read_takes k s h = ground (arith, length-drop k s)

pub stream_pipe-IsFinitePipe : IsFinitePipe stream_pipe (λ s. length s)
stream_pipe-IsFinitePipe = record {
  write_returns = λ b s. tt;
  write_available = λ b s. omega arith;
  read_returns = λ k s. (stream_read-IsFinite k s).0;
  read_available = λ k s. (stream_read-IsFinite k s).1;
  read_takes = λ k s h. stream_read_takes k s h;
}
