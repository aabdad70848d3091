-- ===== src/NcacnNp/StdIo.antt =====
-- `StdIoNamedPipe` of src/ncacn_np.rs: a pipe over an object that is read and written.
use Prim.Native.String.{◌++◌}
use msrpce_dcerpc.Base.{ℕ, Bytes, String, ok, err, ◌⊎◌, inl, inr}
use msrpce_dcerpc.Error.{Result, transport}
use msrpce_dcerpc.NcacnNp.{NamedPipe}

-- `Read + Write` of the standard library: an error is its text, and a failed call may change the
-- state.
pub record ReadWrite (S : Type 0) : Type 0 where
  pub read_exact : ℕ → S → (String ⊎ Bytes) × S
  pub write_all : Bytes → S → (String ⊎ Unit {0}) × S
  pub flush : S → (String ⊎ Unit {0}) × S

-- `.map_err(|err| Error::Transport(format!("{what}: {err}")))`
abbrev pub io_result : {A : Type 0} → String → String ⊎ A → Result A
io_result what (inl message) = err (transport (what ++ (": " ++ message)))
io_result what (inr a) = ok a

-- `struct StdIoNamedPipe<T>`
pub record StdIoNamedPipe (S : Type 0) : Type 0 where
  pub inner : S

module _ {S : Type 0} ⦃io : ReadWrite S⦄ where
  unfoldable pub std_read_exact : ℕ → StdIoNamedPipe S → Result Bytes × StdIoNamedPipe S
  std_read_exact n p =
      let (r, s) = io.read_exact n p.inner in
      (io_result "named pipe read failed" r, record { inner = s })

  -- What follows `write_all`: a flush, where it succeeded.
  unfoldable pub flush_after : (String ⊎ Unit {0}) × S → Result (Unit {0}) × StdIoNamedPipe S
  flush_after (inl message, s) =
      (io_result "named pipe write failed" (inl message), record { inner = s })
  flush_after (inr done, s) =
      let (r, t) = io.flush s in (io_result "named pipe flush failed" r, record { inner = t })

  unfoldable pub std_write_all : Bytes → StdIoNamedPipe S → Result (Unit {0}) × StdIoNamedPipe S
  unfolding flush_after
  std_write_all bytes p = flush_after (io.write_all bytes p.inner)

  -- `impl<T: Read + Write> NamedPipe for StdIoNamedPipe<T>`
  abbrev pub std_io_pipe : NamedPipe (StdIoNamedPipe S)
  std_io_pipe = record { read_exact = std_read_exact; write_all = std_write_all }
