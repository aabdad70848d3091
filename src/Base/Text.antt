-- ===== src/Base/Text.antt =====
-- Texts that the code walks, as lists of code points, and the hexadecimal format `{:02X}`.
use Prim.Native.Nat.{ℕ, zero, suc, ◌+◌, ◌/◌, ◌%◌}
use Prim.Native.String.{String, ◌++◌}
use Prim.Native.Char.{code}
use mathlib.Core.List.{List, [], ◌∷◌, ◌++◌ as append}
use mathlib.Core.Bool.{Bool, true, false, ◌||◌}
use mathlib.Core.Option.{Option, none, some}
use msrpce_dcerpc.Base.Tests.{◌==◌, ltb, if◌then◌else◌}

-- A `&str` or a `String` whose characters matter, as its code points.
abbrev pub Text : Type 0
Text = List ℕ

-- The code points of a literal. (`String` has its own `[]` and `∷`.)
abbrev pub codes : String → Text
codes String.[] = []
codes (String.◌∷◌ c s) = code c ∷ codes s

-- `str::strip_prefix`
unfoldable pub strip_prefix : Text → Text → Option Text
strip_prefix [] s = some s
strip_prefix (p ∷ ps) [] = none
strip_prefix (p ∷ ps) (c ∷ s) = let rest = strip_prefix ps s in if p == c then rest else none

-- What `split_once` returns of a text that begins with `c`.
abbrev pub cons_first : ℕ → Option (Text × Text) → Option (Text × Text)
cons_first c none = none
cons_first c (some (a, b)) = some (c ∷ a, b)

-- `str::split_once`, at a character
unfoldable pub split_once : ℕ → Text → Option (Text × Text)
split_once d [] = none
split_once d (c ∷ s) =
    let rest = split_once d s in if c == d then some ([], s) else cons_first c rest

-- `str::contains`, of a character
unfoldable pub contains : ℕ → Text → Bool
contains d [] = false
contains d (c ∷ s) = (c == d) || contains d s

-- `str::is_empty`
abbrev pub is_empty : Text → Bool
is_empty [] = true
is_empty (c ∷ s) = false

-- One digit, of a number below 16.
unfoldable pub hex_digit : ℕ → String
hex_digit d =
    if d == 0
    then "0"
    else if d == 1
    then "1"
    else if d == 2
    then "2"
    else if d == 3
    then "3"
    else if d == 4
    then "4"
    else if d == 5
    then "5"
    else if d == 6
    then "6"
    else if d == 7
    then "7"
    else if d == 8
    then "8"
    else if d == 9
    then "9"
    else if d == 10
    then "A"
    else if d == 11
    then "B"
    else if d == 12
    then "C"
    else if d == 13
    then "D"
    else if d == 14
    then "E"
    else "F"

-- `{byte:02X}` of a `u8`.
unfoldable pub hex_byte : ℕ → String
unfolding hex_digit
hex_byte b = hex_digit (b / 16 % 16) ++ hex_digit (b % 16)

-- `{value:08X}` of a `u32`.
unfoldable pub hex_u32 : ℕ → String
unfolding hex_byte
hex_u32 v =
    hex_byte (v / 16777216 % 256)
    ++ (hex_byte (v / 65536 % 256) ++ (hex_byte (v / 256 % 256) ++ hex_byte (v % 256)))

-- The same as code points, of a digit and of `{byte:02X}`.
unfoldable pub hex_code : ℕ → ℕ
hex_code d = if ltb d 10 then 48 + d else 55 + d

abbrev pub hex_text : ℕ → Text
hex_text b = hex_code (b / 16 % 16) ∷ hex_code (b % 16) ∷ []

-- `{n}` of an unsigned number: its digits, by the rounds that are left.
unfoldable pub decimal_within : ℕ → ℕ → Text
decimal_within zero n = []
decimal_within (suc rounds) n =
    let front = decimal_within rounds (n / 10) in
    if ltb n 10 then (48 + n) ∷ [] else append front ((48 + n % 10) ∷ [])

-- A number has no more digits than its value and one.
unfoldable pub decimal : ℕ → Text
unfolding decimal_within
decimal n = decimal_within (suc n) n
