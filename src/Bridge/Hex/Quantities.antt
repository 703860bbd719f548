-- ===== src/Bridge/Hex/Quantities.antt =====
-- payload_converter.rs: a quantity reads back, and every text gives a number of its width.
use eth.Prelude.{
  ℕ, zero, suc, ◌+◌, ◌*◌, ◌/◌, ◌%◌, ◌^◌, ◌≤◌, ◌<◌, ◌≡◌, refl, ap, sym, ◌∙◌, ltb, some, List, [],
  ◌∷◌, ◌++◌, All, u64_max, All-append, arith, Bool-cases, Option-cases, inl, inr,
}
use eth.Bridge.Hex.{
  raw_bytes, hex_char, decode_hex_nibble, hex_digits, encode_hex_quantity_u64,
  encode_hex_quantity_u128, parse_digits, from_str_radix, number_or_zero, decode_quantity,
  decode_hex_quantity_u64, decode_hex_quantity_u128,
}
use eth.Bridge.Hex.Bytes.{IsPlain, nibble-hex_char, hex_char-IsPlain, raw_bytes-prefixed}

hex_digits-IsPlain : (fuel n : ℕ) → All IsPlain (hex_digits fuel n)
unfolding hex_digits
hex_digits-IsPlain zero n = tt
hex_digits-IsPlain (suc fuel) n = elim (Bool-cases (ltb n 16)) [
  | inl small ↦ rw small (hex_char-IsPlain n (ground (arith, small)), tt)
  | inr large ↦ rw large (
      All-append IsPlain (hex_digits fuel (n / 16)) (hex_char (n % 16) ∷ [])
        (hex_digits-IsPlain fuel (n / 16)) (hex_char-IsPlain (n % 16) (omega arith), tt))
]

-- One digit that the accumulator has room for.
parse_digit :
    (limit i acc : ℕ) (s : List ℕ)
    → i < 16
    → acc * 16 + i < limit
    → parse_digits limit (hex_char i ∷ s) acc ≡ parse_digits limit s (acc * 16 + i)
unfolding parse_digits
parse_digit limit i acc s lt room = rw (nibble-hex_char i lt, parse_digits) (ground (arith, room))

divide_pow : (fuel n : ℕ) → n < 16 ^ suc fuel → n / 16 < 16 ^ fuel
divide_pow fuel n h = grind arith

append_one : (d s : List ℕ) (c : ℕ) → (d ++ (c ∷ [])) ++ s ≡ d ++ (c ∷ s)
append_one [] s c = refl
append_one (a ∷ d) s c = ap (◌∷◌ a) (append_one d s c)

-- The digits that stand for a number are read as that number, whatever follows.
parse_digits-hex_digits :
    (limit fuel n : ℕ) (s : List ℕ)
    → n < limit
    → n < 16 ^ fuel
    → parse_digits limit (hex_digits fuel n ++ s) 0 ≡ parse_digits limit s n
unfolding hex_digits
parse_digits-hex_digits limit zero n s lt enough = ap (parse_digits limit s) (omega (arith, enough))
parse_digits-hex_digits limit (suc fuel) n s lt enough = elim (Bool-cases (ltb n 16)) [
  | inl small ↦ rw small (
      parse_digit limit n 0 s (ground (arith, small)) (omega (arith, lt))
      ∙ ap (parse_digits limit s) (omega arith))
  | inr large ↦
      rw (large, append_one (hex_digits fuel (n / 16)) s (hex_char (n % 16)))
        (parse_digits-hex_digits limit fuel (n / 16) (hex_char (n % 16) ∷ s) (omega (arith, lt))
            (divide_pow fuel n enough)
          ∙ parse_digit limit (n % 16) (n / 16) s (omega arith) (omega (arith, lt))
          ∙ ap (parse_digits limit s) (omega arith))
]

parse_digits_end : (limit acc : ℕ) → parse_digits limit [] acc ≡ some acc
unfolding parse_digits
parse_digits_end limit acc = refl

append_nil : (d : List ℕ) → d ++ [] ≡ d
append_nil [] = refl
append_nil (a ∷ d) = ap (◌∷◌ a) (append_nil d)

-- Plain text holds no sign.
from_str_radix-plain :
    (limit : ℕ) (s : List ℕ)
    → All IsPlain s
    → number_or_zero (parse_digits limit s 0) ≡ decode_quantity limit s
unfolding decode_quantity from_str_radix parse_digits
from_str_radix-plain limit [] p = refl
from_str_radix-plain limit (c ∷ []) p = ground (arith, p.0.0)
from_str_radix-plain limit (c ∷ d ∷ s) p = ground (arith, p.0.0)

decode_quantity-hex_digits :
    (limit fuel n : ℕ) → n < limit → n < 16 ^ fuel → decode_quantity limit (hex_digits fuel n) ≡ n
decode_quantity-hex_digits limit fuel n lt enough =
    let read = parse_digits-hex_digits limit fuel n [] lt enough in
    sym (from_str_radix-plain limit (hex_digits fuel n) (hex_digits-IsPlain fuel n))
    ∙ ap (λ d. number_or_zero (parse_digits limit d 0)) (sym (append_nil (hex_digits fuel n)))
    ∙ ap number_or_zero (read ∙ parse_digits_end limit n)

-- A quantity of 64 bits.
pub decode-encode_u64 :
    (n : ℕ) → n ≤ u64_max → decode_hex_quantity_u64 (encode_hex_quantity_u64 n) ≡ n
unfolding decode_hex_quantity_u64 encode_hex_quantity_u64
decode-encode_u64 n fits = rw (raw_bytes-prefixed (hex_digits 16 n) (hex_digits-IsPlain 16 n)) (
    decode_quantity-hex_digits 18446744073709551616 16 n (omega (arith, fits))
      (omega (arith, fits)))

abbrev pub u128_max : ℕ
u128_max = 340282366920938463463374607431768211455

pub decode-encode_u128 :
    (n : ℕ) → n ≤ u128_max → decode_hex_quantity_u128 (encode_hex_quantity_u128 n) ≡ n
unfolding decode_hex_quantity_u128 encode_hex_quantity_u128
decode-encode_u128 n fits = rw (raw_bytes-prefixed (hex_digits 32 n) (hex_digits-IsPlain 32 n)) (
    decode_quantity-hex_digits 340282366920938463463374607431768211456 32 n (omega (arith, fits))
      (omega (arith, fits)))

-- The loop refuses what does not fit.
parse_digits-lt :
    (limit : ℕ) (s : List ℕ) (acc : ℕ)
    → acc < limit
    → number_or_zero (parse_digits limit s acc) < limit
unfolding parse_digits
parse_digits-lt limit [] acc h = h
parse_digits-lt limit (c ∷ s) acc h = elim (Option-cases (decode_hex_nibble c)) [
  | inl bad ↦ rw (bad, parse_digits) (omega (arith, h))
  | inr (digit, e) ↦
      rw (e, parse_digits) (ground (arith, h, parse_digits-lt limit s (acc * 16 + digit)))
]

decode_quantity-lt : (limit : ℕ) (raw : List ℕ) → 0 < limit → decode_quantity limit raw < limit
unfolding decode_quantity from_str_radix
decode_quantity-lt limit [] h = h
decode_quantity-lt limit (c ∷ []) h = ground (arith, h, parse_digits-lt limit (c ∷ []) 0 h)
decode_quantity-lt limit (c ∷ d ∷ s) h =
    ground (arith, h, parse_digits-lt limit (d ∷ s) 0 h, parse_digits-lt limit (c ∷ d ∷ s) 0 h)

-- Whatever the text, the number fits.
pub decode_u64-le : (value : List ℕ) → decode_hex_quantity_u64 value ≤ u64_max
unfolding decode_hex_quantity_u64
decode_u64-le value =
    omega (arith, decode_quantity-lt 18446744073709551616 (raw_bytes value) (omega arith))

pub decode_u128-le : (value : List ℕ) → decode_hex_quantity_u128 value ≤ u128_max
unfolding decode_hex_quantity_u128
decode_u128-le value = omega (
  arith,
  decode_quantity-lt 340282366920938463463374607431768211456 (raw_bytes value) (omega arith),
)
