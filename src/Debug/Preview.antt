-- ===== src/Debug/Preview.antt =====
-- What a reader of the debug output learns of the bytes.
use msrpce_dcerpc.Base.{
  ℕ, zero, suc, ◌+◌, ◌-◌, ◌*◌, ◌/◌, ◌%◌, ◌<◌, min, Bytes, IsU8, IsBytes, length, take, [], ◌∷◌,
  ◌++◌, append_assoc, append-nil, ltb, leb, ◌==◌, ◌&&◌, if◌then◌else◌, Bool, true, false, Option,
  none, some, ◌≡◌, refl, ap, sym, ◌∙◌, arith, All, All-take, Bool-cases, inl, inr,
}
use msrpce_dcerpc.Base.Text.{Text, codes, is_empty, hex_code, hex_text, decimal_within, decimal}
use msrpce_dcerpc.Debug.{space, write_bytes, hex_preview}

-- The value of a hexadecimal digit.
abbrev digit_value : ℕ → ℕ
digit_value c = if ltb c 65 then c - 48 else c - 55

-- The number that a text begins with, after a number that was read.
number_from : ℕ → Text → ℕ
number_from n [] = n
number_from n (c ∷ s) =
    let rest = number_from (n * 10 + (c - 48)) s in if leb 48 c && leb c 57 then rest else n

-- What stands behind `...`: a blank, a parenthesis and a sign before the number.
abbrev read_omitted : Text → ℕ
read_omitted (a ∷ b ∷ c ∷ s) = number_from 0 s
read_omitted _ = 0

-- The bytes that a preview shows, and the number of those that it leaves out.
pub read_preview : Text → Bytes × ℕ
read_preview [] = ([], 0)
read_preview (a ∷ []) = ([], 0)
read_preview (a ∷ b ∷ []) = ((digit_value a * 16 + digit_value b) ∷ [], 0)
read_preview (a ∷ b ∷ c ∷ s) =
    let rest = read_preview s in
    if a == 0x2e
    then ([], read_omitted s)
    else ((digit_value a * 16 + digit_value b) ∷ rest.0, rest.1)

number_from-decimal_within :
    (rounds n : ℕ) (s : Text)
    → n < rounds
    → number_from 0 (decimal_within rounds n ++ s) ≡ number_from n s
unfolding decimal_within
number_from-decimal_within zero n s h = elim h [ ]
number_from-decimal_within (suc rounds) n s h = elim (Bool-cases (ltb n 10)) [
  | inl small ↦ rw small (unfold number_from in ground arith)
  | inr large ↦
      rw
        (
          large,
          append_assoc (decimal_within rounds (n / 10)) ((48 + n % 10) ∷ []) s,
          number_from-decimal_within rounds (n / 10) ((48 + n % 10) ∷ s) (ground arith),
        )
        (unfold number_from in ground arith)
]

-- The bytes of a preview, each behind a blank where it is not the first.
spaced : Bool → Bytes → Text
spaced first [] = []
spaced true (b ∷ bs) = hex_text b ++ spaced false bs
spaced false (b ∷ bs) = space ∷ (hex_text b ++ spaced false bs)

-- What follows the bytes that are shown.
abbrev ending : Option Text → Text
ending none = []
ending (some t) = space ∷ t

abbrev read_ending : Option Text → Bytes × ℕ
read_ending none = ([], 0)
read_ending (some t) = read_preview t

write_bytes_later :
    (index : ℕ) (bs : Bytes) (out : Text) → write_bytes (suc index) bs out ≡ out ++ spaced false bs
unfolding write_bytes spaced
write_bytes_later index [] out = sym (append-nil out)
write_bytes_later index (b ∷ bs) out = ground (
  arith,
  write_bytes_later (index + 1) bs ((out ++ (space ∷ [])) ++ hex_text b),
  append_assoc (out ++ (space ∷ [])) (hex_text b) (spaced false bs),
  append_assoc out (space ∷ []) (hex_text b ++ spaced false bs),
)

write_bytes_lem : (bs : Bytes) → write_bytes 0 bs [] ≡ spaced true bs
unfolding write_bytes spaced
write_bytes_lem [] = refl
write_bytes_lem (b ∷ bs) = ground (arith, write_bytes_later 0 bs (hex_text b))

hex_read :
    (b : ℕ)
    → IsU8 b
    → digit_value (hex_code (b / 16 % 16)) * 16 + digit_value (hex_code (b % 16)) ≡ b
unfolding hex_code
hex_read b h = ground arith

not_dot : (d : ℕ) → (hex_code d == 0x2e) ≡ false
unfolding hex_code
not_dot d = ground arith

-- The first byte of a preview.
read_byte :
    (b : ℕ) (s : Text)
    → IsU8 b
    → read_preview (hex_text b ++ (space ∷ s)) ≡ (b ∷ (read_preview s).0, (read_preview s).1)
unfolding read_preview
read_byte b s h = rw (not_dot (b / 16 % 16), hex_read b h) refl

read_last : (b : ℕ) → IsU8 b → read_preview (hex_text b) ≡ (b ∷ [], 0)
unfolding read_preview
read_last b h = rw (hex_read b h) refl

read_spaced :
    (b : ℕ) (bs : Bytes) (e : Option Text)
    → IsU8 b
    → All IsU8 bs
    → read_preview (hex_text b ++ (spaced false bs ++ ending e))
      ≡ (b ∷ (bs ++ (read_ending e).0), (read_ending e).1)
unfolding spaced
read_spaced b [] none h w = read_last b h
read_spaced b [] (some t) h w = read_byte b t h
read_spaced b (c ∷ bs) e h w =
    read_byte b (hex_text c ++ (spaced false bs ++ ending e)) h
    ∙ ap (λ (r : Bytes × ℕ). (b ∷ r.0, r.1)) (read_spaced c bs e w.0 w.1)

-- The note on the bytes that are left out.
abbrev omitted_text : ℕ → Text
omitted_text k = codes "... (+" ++ (decimal k ++ codes " bytes)")

read_omitted_text : (k : ℕ) → read_preview (omitted_text k) ≡ ([], k)
unfolding read_preview decimal number_from
read_omitted_text k =
    let read : number_from 0 (decimal_within (suc k) k ++ codes " bytes)") ≡ k =
      number_from-decimal_within (suc k) k (codes " bytes)") (omega arith) in
    ap (λ (m : ℕ). ([], m)) read

take-min : (xs : Bytes) (n : ℕ) → take (min (length xs) n) xs ≡ take n xs
take-min [] zero = refl
take-min [] (suc n) = let e : min 0 (suc n) ≡ 0 = omega arith in rw e refl
take-min (x ∷ xs) zero = let e : min (suc (length xs)) 0 ≡ 0 = omega arith in rw e refl
take-min (x ∷ xs) (suc n) =
    let e : min (length (x ∷ xs)) (suc n) ≡ suc (min (length xs) n) = omega arith in
    rw e (ap (λ t. x ∷ t) (take-min xs n))

-- The preview of bytes that are all shown.
read_shown : (bs : Bytes) → All IsU8 bs → read_preview (spaced true bs) ≡ (bs, 0)
unfolding read_preview spaced
read_shown [] w = refl
read_shown (b ∷ bs) w =
    let e : read_preview (hex_text b ++ (spaced false bs ++ [])) ≡ (b ∷ (bs ++ []), 0) =
      read_spaced b bs none w.0 w.1 in
    rw (append-nil bs, append-nil (spaced false bs)) at e

-- The preview of bytes behind which others are left out.
abbrev cut_preview : Text → Text → Text
cut_preview out t = (if is_empty out then out else out ++ (space ∷ [])) ++ t

read_cut :
    (bs : Bytes) (k : ℕ)
    → All IsU8 bs
    → read_preview (cut_preview (spaced true bs) (omitted_text k)) ≡ (bs, k)
unfolding spaced
read_cut [] k w = read_omitted_text k
read_cut (b ∷ bs) k w =
    rw
      (
        append_assoc (hex_text b ++ spaced false bs) (space ∷ []) (omitted_text k),
        append_assoc (hex_text b) (spaced false bs) (space ∷ omitted_text k),
      )
      (read_spaced b bs (some (omitted_text k)) w.0 w.1
        ∙ rw (read_omitted_text k, append-nil bs) refl)

-- A reader of a preview gets back the first `max_len` bytes, in order, and the number of the bytes
-- that were left out.
pub read_preview-hex_preview :
    (bytes : Bytes) (max_len : ℕ)
    → IsBytes bytes
    → read_preview (hex_preview bytes max_len) ≡ (take max_len bytes, length bytes - max_len)
unfolding hex_preview
read_preview-hex_preview bytes max_len w =
    let shown : ℕ = min (length bytes) max_len in
    elim (Bool-cases (ltb shown (length bytes))) [
      | inl cut ↦
          let k : length bytes - shown ≡ length bytes - max_len = ground arith in
          rw (write_bytes_lem (take shown bytes), cut, k, take-min bytes max_len)
            (read_cut (take max_len bytes) (length bytes - max_len) (All-take IsU8 max_len bytes w))
      | inr whole ↦
          let k : length bytes - max_len ≡ 0 = ground arith in
          rw (write_bytes_lem (take shown bytes), whole, k, take-min bytes max_len)
            (read_shown (take max_len bytes) (All-take IsU8 max_len bytes w))
    ]
