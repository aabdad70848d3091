-- ===== src/Debug.antt =====
-- src/debug.rs: bytes as text for the debug output.
pub mod Preview
use msrpce_dcerpc.Base.{
  ℕ, suc, ◌+◌, ◌-◌, min, Bytes, length, take, [], ◌∷◌, ◌++◌, ltb, if◌then◌else◌,
}
use msrpce_dcerpc.Base.Text.{Text, codes, is_empty, hex_text, decimal}

abbrev pub space : ℕ
space = 0x20

-- The loop of `hex_preview`, from the byte number `index` on.
unfoldable pub write_bytes : ℕ → Bytes → Text → Text
write_bytes index [] out = out
write_bytes index (byte ∷ bytes) out =
    write_bytes (index + 1) bytes
      ((if ltb 0 index then out ++ (space ∷ []) else out) ++ hex_text byte)

-- `hex_preview`
unfoldable pub hex_preview : Bytes → ℕ → Text
unfolding write_bytes
hex_preview bytes max_len =
    let shown : ℕ = min (length bytes) max_len in
    let out : Text = write_bytes 0 (take shown bytes) [] in
    if ltb shown (length bytes)
    then (if is_empty out then out else out ++ (space ∷ []))
      ++ (codes "... (+" ++ (decimal (length bytes - shown) ++ codes " bytes)"))
    else out

-- `redacted_bytes`
unfoldable pub redacted_bytes : Text → Bytes → Text
redacted_bytes label bytes =
    label ++ (codes "=<redacted: " ++ (decimal (length bytes) ++ codes " bytes>"))
