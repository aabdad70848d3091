-- ===== src/Tests/Duplex.antt =====
-- A named pipe with bytes in both directions.
use msrpce_dcerpc.Base.{
  ℕ, zero, suc, ◌≤◌, ◌<◌, Bytes, length, take, drop, [], ◌++◌, ok, err, ◌≡◌, refl, ap, arith, leb,
  le→leb, if◌then◌else◌,
}
use msrpce_dcerpc.Error.{Result}
use msrpce_dcerpc.Error
use msrpce_dcerpc.NcacnNp.{NamedPipe}
use msrpce_dcerpc.NcacnNp.Simulation.{IsByteStream}

pub record Duplex : Type 0 where
  pub to_read : Bytes
  pub written : Bytes

abbrev duplex_read : ℕ → Duplex → Result Bytes × Duplex
duplex_read k d =
    if leb k (length d.to_read)
    then (ok (take k d.to_read), record d { to_read = drop k d.to_read })
    else (err (Error.transport "failed to fill whole buffer"), d)

instance abbrev pub duplex_pipe : NamedPipe Duplex
duplex_pipe = record {
  read_exact = duplex_read;
  write_all = λ b d. (ok tt, record d { written = d.written ++ b });
}

read_in :
    (k : ℕ) (d : Duplex)
    → k ≤ length d.to_read
    → duplex_read k d ≡ (ok (take k d.to_read), record d { to_read = drop k d.to_read })
read_in k d h = rw (le→leb k (length d.to_read) h) refl

read_past :
    (k : ℕ) (d : Duplex)
    → length d.to_read < k
    → duplex_read k d ≡ (err (Error.transport "failed to fill whole buffer"), d)
read_past k d h = ground arith

read_keeps : (k : ℕ) (d : Duplex) → (duplex_read k d).1.written ≡ d.written
read_keeps k d = ground arith

drop_none : (k : ℕ) → drop {A = ℕ} k [] ≡ []
drop_none zero = refl
drop_none (suc k) = refl

read_empty : (k : ℕ) (d : Duplex) → d.to_read ≡ [] → (duplex_read k d).1.to_read ≡ []
read_empty k d h = ground (arith, drop_none k, ap (drop k) h)

pub duplex_pipe-IsByteStream : IsByteStream duplex_pipe (λ d. d.to_read) (λ d. d.written)
duplex_pipe-IsByteStream = record {
  read_bytes = λ k d h. ap (λ (x : Result Bytes × Duplex). x.0) (read_in k d h);
  read_rest = λ k d h. ap (λ (x : Result Bytes × Duplex). x.1.to_read) (read_in k d h);
  read_fails = λ k d h.
      ("failed to fill whole buffer", ap (λ (x : Result Bytes × Duplex). x.0) (read_past k d h));
  read_nothing = read_empty;
  read_output = read_keeps;
  write_returns = λ b d. refl;
  write_output = λ b d. refl;
  write_input = λ b d. refl;
}
