-- ===== src/Bridge/Hex/Bytes.antt =====
-- payload_converter.rs: a text of bytes reads back, and every text of fixed length gives its bytes.
use eth.Prelude.{
  subst, sym, if◌then◌else◌, zero, suc, ◌+◌, ◌-◌, ltb, inl, inr, Bool-cases, ◌==◌, ==_iff, ℕ, ◌*◌,
  ◌/◌, ◌%◌, ◌<◌, ◌≡◌, refl, ap, ◌∙◌, false, leb, Option, none, some, List, [], ◌∷◌, length,
  length-append, drop, All, All-append, arith,
}
use eth.Bridge.Hex.{
  is_whitespace, trim_start, trim_end, trim, strip_0x, utf8, as_bytes, raw_bytes, hex_char,
  encode_bytes, encode_hex_bytes, decode_hex_nibble, decode_pairs, decode_raw, decode_hex_bytes,
  bytes_or_empty, zeros, fixed, decode_fixed_hex_bytes, pair_before,
}

-- A digit or a letter of ASCII, at most: no white space, no sign, one byte.
abbrev pub IsPlain : ℕ → Type 0
IsPlain c = (47 < c) × (c < 128)

abbrev pub IsByte : ℕ → Type 0
IsByte b = b < 256

-- A statement at each number under n, as a tuple.
Table : ℕ → (ℕ → Type 0) → Type 0
Table zero P = Unit {0}
Table (suc n) P = P n × Table n P

entry : (n i : ℕ) (P : ℕ → Type 0) → Table n P → i < n → P i
unfolding Table
entry zero i P t lt = absurd (omega (arith, lt))
entry (suc n) i P t lt = elim (Bool-cases (i == n)) [
  | inl same ↦ subst P (sym ((==_iff i n).0 same)) t.0
  | inr other ↦ entry n i P t.1 (ground (arith, other, lt))
]

-- The table of digits, as a formula.
abbrev digit : ℕ → ℕ
digit i = if ltb i 10 then b'0' + i else b'a' + i - 10

digit_table : Table 16 (λ i. hex_char i ≡ digit i)
unfolding Table hex_char
digit_table = (
  refl,
  (
    refl,
    (
      refl,
      (
        refl,
        (
          refl,
          (
            refl,
            (refl, (refl, (refl, (refl, (refl, (refl, (refl, (refl, (refl, (refl, tt)))))))))),
          ),
        ),
      ),
    ),
  ),
)

hex_char-digit : (i : ℕ) → i < 16 → hex_char i ≡ digit i
hex_char-digit i lt = entry 16 i (λ j. hex_char j ≡ digit j) digit_table lt

pub nibble-hex_char : (i : ℕ) → i < 16 → decode_hex_nibble (hex_char i) ≡ some i
unfolding decode_hex_nibble
nibble-hex_char i lt = ground (arith, lt, hex_char-digit i lt)

pub hex_char-IsPlain : (i : ℕ) → i < 16 → IsPlain (hex_char i)
hex_char-IsPlain i lt = ground (arith, lt, hex_char-digit i lt)

IsPlain-keeps : (c : ℕ) → IsPlain c → is_whitespace c ≡ false
unfolding is_whitespace
IsPlain-keeps c p = ground (arith, p.0, p.1)

trim_end-keeps : (s : List ℕ) → All IsPlain s → trim_end s ≡ s
unfolding trim_end
trim_end-keeps [] p = refl
trim_end-keeps (c ∷ []) p = rw (IsPlain-keeps c p.0) refl
trim_end-keeps (c ∷ d ∷ s) p = rw (trim_end-keeps (d ∷ s) p.1) refl

as_bytes-ascii : (s : List ℕ) → All IsPlain s → as_bytes s ≡ s
unfolding as_bytes utf8
as_bytes-ascii [] p = refl
as_bytes-ascii (c ∷ s) p = ground (arith, p.0.1, as_bytes-ascii s p.1)

-- A plain text behind `0x` is read as it stands.
pub raw_bytes-prefixed : (s : List ℕ) → All IsPlain s → raw_bytes (b'0' ∷ b'x' ∷ s) ≡ s
unfolding raw_bytes trim trim_start strip_0x is_whitespace
raw_bytes-prefixed s p =
    rw
      (trim_end-keeps (b'0' ∷ b'x' ∷ s)
        ((omega arith, omega arith), ((omega arith, omega arith), p)))
      (as_bytes-ascii s p)

encode_bytes-IsPlain : (bytes : List ℕ) → All IsByte bytes → All IsPlain (encode_bytes bytes)
unfolding encode_bytes
encode_bytes-IsPlain [] h = tt
encode_bytes-IsPlain (b ∷ bytes) h = (
  hex_char-IsPlain (b / 16) (omega (arith, h.0)),
  (hex_char-IsPlain (b % 16) (omega arith), encode_bytes-IsPlain bytes h.1),
)

decode_pairs-encode_bytes :
    (bytes : List ℕ) → All IsByte bytes → decode_pairs (encode_bytes bytes) ≡ some bytes
unfolding decode_pairs encode_bytes
decode_pairs-encode_bytes [] h = refl
decode_pairs-encode_bytes (b ∷ bytes) h =
    rw
      (
        nibble-hex_char (b / 16) (omega (arith, h.0)),
        nibble-hex_char (b % 16) (omega arith),
        decode_pairs-encode_bytes bytes h.1,
      )
      (ap (λ byte. some (byte ∷ bytes)) (omega arith))

length-encode_bytes : (bytes : List ℕ) → length (encode_bytes bytes) ≡ 2 * length bytes
unfolding encode_bytes
length-encode_bytes [] = refl
length-encode_bytes (b ∷ bytes) = omega (arith, length-encode_bytes bytes)

decode_raw-even : (raw : List ℕ) → length raw % 2 ≡ 0 → decode_raw raw ≡ decode_pairs raw
unfolding decode_raw decode_pairs
decode_raw-even [] even = refl
decode_raw-even (a ∷ raw) even = ground (arith, even)

pub decode_hex_bytes-encode_hex_bytes :
    (bytes : List ℕ) → All IsByte bytes → decode_hex_bytes (encode_hex_bytes bytes) ≡ some bytes
unfolding decode_hex_bytes encode_hex_bytes
decode_hex_bytes-encode_hex_bytes bytes h =
    rw (raw_bytes-prefixed (encode_bytes bytes) (encode_bytes-IsPlain bytes h)) (
      decode_raw-even (encode_bytes bytes) (omega (arith, length-encode_bytes bytes))
      ∙ decode_pairs-encode_bytes bytes h)

drop_none : (l : List ℕ) → drop 0 l ≡ l
drop_none [] = refl
drop_none (a ∷ l) = refl

fixed-exact : (n : ℕ) (l : List ℕ) → length l ≡ n → fixed n l ≡ l
unfolding fixed
fixed-exact n l e = ground (arith, e, drop_none l)

-- A text of n bytes gives these bytes.
pub decode_fixed-encode :
    (n : ℕ) (bytes : List ℕ)
    → All IsByte bytes
    → length bytes ≡ n
    → decode_fixed_hex_bytes n (encode_hex_bytes bytes) ≡ bytes
unfolding decode_fixed_hex_bytes
decode_fixed-encode n bytes h e =
    rw (decode_hex_bytes-encode_hex_bytes bytes h) (fixed-exact n bytes e)

-- What the digits stand for is below 16.
pub nibble_small : (c i : ℕ) → decode_hex_nibble c ≡ some i → i < 16
unfolding decode_hex_nibble
nibble_small c i e = ground (arith, e)

pair_before-IsByte :
    (hi lo : Option ℕ) (rest : Option (List ℕ))
    → ((i : ℕ) → hi ≡ some i → i < 16)
    → ((i : ℕ) → lo ≡ some i → i < 16)
    → All IsByte (bytes_or_empty rest)
    → All IsByte (bytes_or_empty (pair_before hi lo rest))
pair_before-IsByte (some hi) (some lo) (some out) h l r = (omega (arith, h hi refl, l lo refl), r)
pair_before-IsByte (some hi) (some lo) none h l r = tt
pair_before-IsByte (some hi) none rest h l r = tt
pair_before-IsByte none lo rest h l r = tt

decode_pairs-IsByte : (raw : List ℕ) → All IsByte (bytes_or_empty (decode_pairs raw))
unfolding decode_pairs
decode_pairs-IsByte [] = tt
decode_pairs-IsByte (a ∷ []) = tt
decode_pairs-IsByte (a ∷ b ∷ raw) =
    pair_before-IsByte (decode_hex_nibble a) (decode_hex_nibble b) (decode_pairs raw)
      (nibble_small a) (nibble_small b) (decode_pairs-IsByte raw)

decode_raw-IsByte : (raw : List ℕ) → All IsByte (bytes_or_empty (decode_raw raw))
unfolding decode_raw
decode_raw-IsByte [] = tt
decode_raw-IsByte (a ∷ raw) = elim (Bool-cases (length (a ∷ raw) % 2 == 0)) [
  | inl even ↦ rw even (decode_pairs-IsByte (a ∷ raw))
  | inr odd ↦ rw odd tt
]

drop-All : (k : ℕ) (l : List ℕ) → All IsByte l → All IsByte (drop k l)
drop-All zero l h = rw (drop_none l) h
drop-All (suc k) [] h = tt
drop-All (suc k) (a ∷ l) h = drop-All k l h.1

length-drop : (k : ℕ) (l : List ℕ) → length (drop k l) ≡ length l - k
length-drop zero l = rw (drop_none l) (omega arith)
length-drop (suc k) [] = omega arith
length-drop (suc k) (a ∷ l) = omega (arith, length-drop k l)

zeros-IsByte : (k : ℕ) → All IsByte (zeros k)
unfolding zeros
zeros-IsByte zero = tt
zeros-IsByte (suc k) = (omega arith, zeros-IsByte k)

length-zeros : (k : ℕ) → length (zeros k) ≡ k
unfolding zeros
length-zeros zero = refl
length-zeros (suc k) = omega (arith, length-zeros k)

-- An array of n bytes.
abbrev pub IsArray : ℕ → List ℕ → Type 0
IsArray n l = All IsByte l × (length l ≡ n)

fixed-IsArray : (n : ℕ) (l : List ℕ) → All IsByte l → IsArray n (fixed n l)
unfolding fixed
fixed-IsArray n l h = elim (Bool-cases (leb n (length l))) [
  | inl long ↦
      rw long (drop-All (length l - n) l h, ground (arith, long, length-drop (length l - n) l))
  | inr short ↦ rw short (
    All-append IsByte (zeros (n - length l)) l (zeros-IsByte (n - length l)) h,
    ground (arith, short, length-append (zeros (n - length l)) l, length-zeros (n - length l)),
  )
]

-- Whatever the text, the result has n bytes.
pub decode_fixed-IsArray : (n : ℕ) (input : List ℕ) → IsArray n (decode_fixed_hex_bytes n input)
unfolding decode_fixed_hex_bytes decode_hex_bytes
decode_fixed-IsArray n input =
    fixed-IsArray n (bytes_or_empty (decode_raw (raw_bytes input)))
      (decode_raw-IsByte (raw_bytes input))

pub decode_hex_bytes-IsByte :
    (input : List ℕ) → All IsByte (bytes_or_empty (decode_hex_bytes input))
unfolding decode_hex_bytes
decode_hex_bytes-IsByte input = decode_raw-IsByte (raw_bytes input)
