-- ===== src/NcacnNp/Finite.antt =====
-- A named pipe that holds finitely many bytes delivers finitely many PDUs.
use msrpce_dcerpc.Base.{
  ℕ, ◌+◌, ◌-◌, ◌≤◌, ◌<◌, Bytes, ltb, ok, fail_if, fail_if-Returns, ◌++◌, ◌≡◌, ap, arith, Returns,
}
use msrpce_dcerpc.Crates.{NdrCrate}
use msrpce_dcerpc.Error.{Result, invalid_pdu}
use msrpce_dcerpc.Transport.{Action, lift, ◌>>=◌, ◌>>◌, >>=-eq-ok}
use msrpce_dcerpc.Transport.Ends.{
  Ends, returned, >>=-Ends, lift-Ends, lift_then-Ends, Ends-Returns, Ends-state,
}
use msrpce_dcerpc.Transport.Finite.{IsFinite}
use msrpce_dcerpc.Pdu.Header.{PduHeader, decode_header, common_header_len}
use msrpce_dcerpc.Pdu.Header.RoundTrip.{decode_header-Returns}
use msrpce_dcerpc.NcacnNp.{NamedPipe, pipe_send_pdu, pipe_recv_pdu, pipe_transport}

-- What the theorems assume of a pipe: its calls return, writing gives nothing to read, and a read
-- takes the bytes that it returns from those that are available.
pub record IsFinitePipe {S : Type 0} (p : NamedPipe S) (available : S → ℕ) : Type 0 where
  pub write_returns : (b : Bytes) (s : S) → Returns (p.write_all b s).0
  pub write_available : (b : Bytes) (s : S) → available (p.write_all b s).1 ≤ available s
  pub read_returns : (k : ℕ) (s : S) → Returns (p.read_exact k s).0
  pub read_available : (k : ℕ) (s : S) → available (p.read_exact k s).1 ≤ available s
  pub read_takes :
      (k : ℕ) (s : S) {b : Bytes}
      → (p.read_exact k s).0 ≡ ok b
      → available (p.read_exact k s).1 + k ≤ available s

module _ {S : Type 0} (available : S → ℕ) ⦃n : NdrCrate⦄ ⦃p : NamedPipe S⦄
    (fin : IsFinitePipe p available) where
  -- No more than `m` bytes are left.
  abbrev AtMost : ℕ → S → Type 0
  AtMost m s = available s ≤ m

  read-Ends : (m k : ℕ) (s : S) → available s ≤ m → Ends (AtMost m) (p.read_exact k s)
  read-Ends m k s h =
      lift-Ends (AtMost m) (p.read_exact k s).0 (p.read_exact k s).1 (fin.read_returns k s)
        (omega (arith, fin.read_available k s))

  -- What follows the header's bytes.
  abbrev after_header : Bytes → Action S Bytes
  after_header header_bytes = do
    header ← lift (decode_header header_bytes)
    lift (
        fail_if (ltb header.frag_length common_header_len)
          (invalid_pdu "fragment length is smaller than common header"))
    rest ← p.read_exact (header.frag_length - common_header_len)
    lift (ok (header_bytes ++ rest))

  after_header-Ends :
      (m : ℕ) (bytes : Bytes) (s : S) → available s ≤ m → Ends (AtMost m) (after_header bytes s)
  after_header-Ends m bytes s h =
      let read = λ (header : PduHeader).
        p.read_exact (header.frag_length - common_header_len) >>= λ rest.
        lift (ok (bytes ++ rest)) in
      let small = invalid_pdu "fragment length is smaller than common header" in
      lift_then-Ends (AtMost m) (decode_header bytes)
        (λ header. lift (fail_if (ltb header.frag_length common_header_len) small) >> read header) s
        (decode_header-Returns bytes) h
        (λ header e.
          lift_then-Ends (AtMost m) (fail_if (ltb header.frag_length common_header_len) small)
            (λ _. read header) s (fail_if-Returns _ small) h
            (λ x f.
              >>=-Ends (AtMost m) (AtMost m) (p.read_exact (header.frag_length - common_header_len))
                (λ rest. lift (ok (bytes ++ rest))) s
                (read-Ends m (header.frag_length - common_header_len) s h) (λ rest g v. returned v)
                (λ v. v)))

  recv-Ends : (s : S) → Ends (AtMost (available s)) (pipe_recv_pdu s)
  unfolding pipe_recv_pdu
  recv-Ends s =
      >>=-Ends (AtMost (available s)) (AtMost (available s)) (p.read_exact common_header_len)
        after_header s (read-Ends (available s) common_header_len s (omega arith))
        (λ bytes e v. after_header-Ends (available s) bytes (p.read_exact common_header_len s).1 v)
        (λ v. v)

  recv_falls :
      (s : S) {b : Bytes} → (pipe_recv_pdu s).0 ≡ ok b → available (pipe_recv_pdu s).1 < available s
  unfolding pipe_recv_pdu
  recv_falls s {b} e =
      let (header_bytes, t, got, rest) =
        >>=-eq-ok (p.read_exact common_header_len) after_header s
          (ap (λ (r : Result Bytes). (r, (pipe_recv_pdu s).1)) e) in
      let came : (p.read_exact common_header_len s).0 ≡ ok header_bytes =
        ap (λ (x : Result Bytes × S). x.0) got in
      let there : available (p.read_exact common_header_len s).1 ≡ available t =
        ap (λ (x : Result Bytes × S). available x.1) got in
      let last : available (after_header header_bytes t).1 ≡ available (pipe_recv_pdu s).1 =
        ap (λ (x : Result Bytes × S). available x.1) rest in
      omega (
        arith,
        fin.read_takes common_header_len s came,
        Ends-state (AtMost (available t))
            (after_header-Ends (available t) header_bytes t (omega arith)),
      )

  -- The transport over a pipe that holds finitely many bytes delivers finitely many PDUs: its calls
  -- return, and each PDU that it delivers takes bytes from the pipe.
  pub pipe_transport-IsFinite : IsFinite pipe_transport available
  unfolding pipe_send_pdu
  pipe_transport-IsFinite = record {
    send_returns = fin.write_returns;
    send_remaining = fin.write_available;
    recv_returns = λ s. Ends-Returns (AtMost (available s)) (recv-Ends s);
    recv_remaining = λ s. Ends-state (AtMost (available s)) (recv-Ends s);
    recv_falls = recv_falls;
  }
