-- ===== src/Bridge/Hex.antt =====
-- crates/eth2077-bridge/src/payload_converter.rs, from line 79: hexadecimal texts of bytes and of
-- numbers. A byte is a number, a string the list of its code points.
pub mod Bytes
pub mod Quantities
use eth.Prelude.{
  ℕ, zero, suc, ◌+◌, ◌-◌, ◌*◌, ◌/◌, ◌%◌, Bool, true, false, ◌&&◌, ◌||◌, not, ltb, leb, ◌==◌, Option,
  none, some, List, [], ◌∷◌, ◌++◌, length, drop, if◌then◌else◌,
}

-- The white space of Unicode, which `str::trim` removes at both ends.
unfoldable pub is_whitespace : ℕ → Bool
is_whitespace c =
    (leb 9 c && leb c 13)
    || (c == 32)
    || (c == 133)
    || (c == 160)
    || (c == 5760)
    || (leb 8192 c && leb c 8202)
    || (c == 8232)
    || (c == 8233)
    || (c == 8239)
    || (c == 8287)
    || (c == 12288)

unfoldable pub trim_start : List ℕ → List ℕ
trim_start [] = []
trim_start (c ∷ s) = if is_whitespace c then trim_start s else c ∷ s

-- A character stays at the end unless it is white space with nothing behind it.
abbrev keep_before : ℕ → List ℕ → List ℕ
keep_before c [] = if is_whitespace c then [] else c ∷ []
keep_before c (d ∷ s) = c ∷ d ∷ s

unfoldable pub trim_end : List ℕ → List ℕ
trim_end [] = []
trim_end (c ∷ s) = keep_before c (trim_end s)

unfoldable pub trim : List ℕ → List ℕ
unfolding trim_start trim_end
trim s = trim_end (trim_start s)

-- The input without its `0x` or `0X`.
unfoldable pub strip_0x : List ℕ → List ℕ
strip_0x (z ∷ x ∷ s) = if z == b'0' && (x == b'x' || x == b'X') then s else z ∷ x ∷ s
strip_0x s = s

-- UTF-8: a code point as its bytes.
unfoldable pub utf8 : ℕ → List ℕ
utf8 c =
    if ltb c 128
    then c ∷ []
    else if ltb c 2048
    then (192 + c / 64) ∷ (128 + c % 64) ∷ []
    else if ltb c 65536
    then (224 + c / 4096) ∷ (128 + c / 64 % 64) ∷ (128 + c % 64) ∷ []
    else (240 + c / 262144) ∷ (128 + c / 4096 % 64) ∷ (128 + c / 64 % 64) ∷ (128 + c % 64) ∷ []

unfoldable pub as_bytes : List ℕ → List ℕ
as_bytes [] = []
as_bytes (c ∷ s) = utf8 c ++ as_bytes s

unfoldable pub raw_bytes : List ℕ → List ℕ
unfolding trim strip_0x as_bytes utf8 is_whitespace
raw_bytes input = as_bytes (strip_0x (trim input))

abbrev hex_chars : List ℕ
hex_chars =
    b'0' ∷ b'1' ∷ b'2' ∷ b'3' ∷ b'4' ∷ b'5' ∷ b'6' ∷ b'7' ∷ b'8' ∷ b'9' ∷ b'a' ∷ b'b' ∷ b'c' ∷ b'd'
    ∷ b'e' ∷ b'f' ∷ []

-- Indexing; no index that the code computes is out of range.
at : List ℕ → ℕ → ℕ
at [] i = 0
at (c ∷ s) zero = c
at (c ∷ s) (suc i) = at s i

unfoldable pub hex_char : ℕ → ℕ
unfolding at
hex_char i = at hex_chars i

unfoldable pub encode_bytes : List ℕ → List ℕ
encode_bytes [] = []
encode_bytes (byte ∷ bytes) = hex_char (byte / 16) ∷ hex_char (byte % 16) ∷ encode_bytes bytes

unfoldable pub encode_hex_bytes : List ℕ → List ℕ
unfolding encode_bytes hex_char
encode_hex_bytes bytes = b'0' ∷ b'x' ∷ encode_bytes bytes

unfoldable pub decode_hex_nibble : ℕ → Option ℕ
decode_hex_nibble byte =
    if leb b'0' byte && leb byte b'9'
    then some (byte - b'0')
    else if leb b'a' byte && leb byte b'f'
    then some (byte - b'a' + 10)
    else if leb b'A' byte && leb byte b'F'
    then some (byte - b'A' + 10)
    else none

-- One round of the loop: both digits of a pair, before the bytes that the rest gives.
abbrev pub pair_before : Option ℕ → Option ℕ → Option (List ℕ) → Option (List ℕ)
pair_before (some hi) (some lo) (some out) = some ((hi * 16 + lo) ∷ out)
pair_before _ _ _ = none

unfoldable pub decode_pairs : List ℕ → Option (List ℕ)
decode_pairs (a ∷ b ∷ raw) =
    pair_before (decode_hex_nibble a) (decode_hex_nibble b) (decode_pairs raw)
decode_pairs _ = some []

-- The empty input takes the same way as in the loop: no pair, no byte.
unfoldable pub decode_raw : List ℕ → Option (List ℕ)
unfolding decode_pairs
decode_raw [] = some []
decode_raw (a ∷ raw) = if length (a ∷ raw) % 2 == 0 then decode_pairs (a ∷ raw) else none

unfoldable pub decode_hex_bytes : List ℕ → Option (List ℕ)
unfolding raw_bytes decode_raw decode_hex_nibble
decode_hex_bytes input = decode_raw (raw_bytes input)

abbrev pub bytes_or_empty : Option (List ℕ) → List ℕ
bytes_or_empty none = []
bytes_or_empty (some out) = out

-- `[0u8; n]`.
unfoldable pub zeros : ℕ → List ℕ
zeros zero = []
zeros (suc n) = 0 ∷ zeros n

-- The last n bytes, with zeros in front of a shorter input.
unfoldable pub fixed : ℕ → List ℕ → List ℕ
unfolding zeros
fixed n decoded =
    if leb n (length decoded)
    then drop (length decoded - n) decoded
    else zeros (n - length decoded) ++ decoded

unfoldable pub decode_fixed_hex_bytes : ℕ → List ℕ → List ℕ
unfolding fixed decode_hex_bytes
decode_fixed_hex_bytes n input = fixed n (bytes_or_empty (decode_hex_bytes input))

-- `{value:x}`: the digits, with fuel for their number.
unfoldable pub hex_digits : ℕ → ℕ → List ℕ
hex_digits zero value = []
hex_digits (suc fuel) value =
    if ltb value 16
    then hex_char value ∷ []
    else hex_digits fuel (value / 16) ++ (hex_char (value % 16) ∷ [])

-- A number of 64 bits has at most 16 digits, one of 128 bits at most 32.
unfoldable pub encode_hex_quantity_u64 : ℕ → List ℕ
unfolding hex_digits hex_char
encode_hex_quantity_u64 value = b'0' ∷ b'x' ∷ hex_digits 16 value

unfoldable pub encode_hex_quantity_u128 : ℕ → List ℕ
unfolding hex_digits hex_char
encode_hex_quantity_u128 value = b'0' ∷ b'x' ∷ hex_digits 32 value

-- The loop of `from_str_radix` at a type below `limit`: a checked product, then a checked sum.
unfoldable pub parse_digits : ℕ → List ℕ → ℕ → Option ℕ
parse_digits limit [] acc = some acc
parse_digits limit (c ∷ s) acc = elim (decode_hex_nibble c) [
  | none ↦ none
  | some digit ↦
      if leb limit (acc * 16)
      then none
      else if leb limit (acc * 16 + digit)
      then none
      else parse_digits limit s (acc * 16 + digit)
]

-- A lone sign is no number, and a plus in front of digits is skipped.
unfoldable pub from_str_radix : ℕ → List ℕ → Option ℕ
unfolding parse_digits
from_str_radix limit [] = none
from_str_radix limit (c ∷ []) =
    if c == b'+' || c == b'-' then none else parse_digits limit (c ∷ []) 0
from_str_radix limit (c ∷ d ∷ s) =
    if c == b'+' then parse_digits limit (d ∷ s) 0 else parse_digits limit (c ∷ d ∷ s) 0

abbrev pub number_or_zero : Option ℕ → ℕ
number_or_zero none = 0
number_or_zero (some n) = n

unfoldable pub decode_quantity : ℕ → List ℕ → ℕ
unfolding from_str_radix
decode_quantity limit [] = 0
decode_quantity limit (c ∷ raw) = number_or_zero (from_str_radix limit (c ∷ raw))

unfoldable pub decode_hex_quantity_u64 : List ℕ → ℕ
unfolding decode_quantity raw_bytes decode_hex_nibble
decode_hex_quantity_u64 value = decode_quantity 18446744073709551616 (raw_bytes value)

unfoldable pub decode_hex_quantity_u128 : List ℕ → ℕ
unfolding decode_quantity raw_bytes decode_hex_nibble
decode_hex_quantity_u128 value =
    decode_quantity 340282366920938463463374607431768211456 (raw_bytes value)
