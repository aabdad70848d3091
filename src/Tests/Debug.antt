-- ===== src/Tests/Debug.antt =====
-- Previews at concrete inputs.
use msrpce_dcerpc.Base.{Bytes, ◌-◌, length, take, [], ◌∷◌, ◌≡◌, refl, arith}
use msrpce_dcerpc.Base.Text.{codes, hex_code, decimal}
use msrpce_dcerpc.Debug.{hex_preview}
use msrpce_dcerpc.Debug.Preview.{read_preview, read_preview-hex_preview}

abbrev four_bytes : Bytes
four_bytes = 5 ∷ 0 ∷ 0xab ∷ 0xff ∷ []

hex_preview_cut : hex_preview four_bytes 2 ≡ codes "05 00 ... (+2 bytes)"
unfolding hex_preview hex_code decimal
hex_preview_cut = refl

read_preview-hex_preview_example :
    read_preview (hex_preview four_bytes 2) ≡ (take 2 four_bytes, length four_bytes - 2)
read_preview-hex_preview_example = read_preview-hex_preview four_bytes 2 (omega arith)
