-- ===== src/P2p/Codec/RoundTrip.antt =====
-- What codec.rs writes it reads back, also from the middle of a stream.
use eth.Prelude.{
  ℕ, ◌/◌, ◌%◌, ◌≤◌, ◌<◌, ◌≡◌, refl, sym, ap, ◌∙◌, false, ltb, some, List, [], ◌∷◌, ◌++◌, length,
  length-append, take, drop, arith, Bool-cases, Option-cases, inl, inr,
}
use eth.P2p.Codec.{
  WireMessage, Json, message, incomplete, written, max_message_size, put_u32, get_u32, decode_body,
  decode, encode,
}

-- What the codec relies on: `from_slice` reads what `to_vec` wrote.
abbrev pub ReadsBack : Json → Type 0
ReadsBack json =
    (m : WireMessage) (bytes : List ℕ) → json.to_vec m ≡ some bytes → json.from_slice bytes ≡ some m

take-append {ℓ} : {A : Type ℓ} (xs ys : List A) → take (length xs) (xs ++ ys) ≡ xs
take-append [] ys = refl
take-append (x ∷ xs) ys = ap (◌∷◌ x) (take-append xs ys)

drop-append {ℓ} : {A : Type ℓ} (xs ys : List A) → drop (length xs) (xs ++ ys) ≡ ys
drop-append [] ys = refl
drop-append (x ∷ xs) ys = drop-append xs ys

get_u32-put_u32 :
    (n : ℕ)
    → n < 4294967296
    → get_u32 (n / 16777216 % 256) (n / 65536 % 256) (n / 256 % 256) (n % 256) ≡ n
get_u32-put_u32 n h = omega arith

decode_body-append :
    (json : Json) (m : WireMessage) (payload rest src : List ℕ)
    → json.from_slice payload ≡ some m
    → length payload ≤ max_message_size
    → decode_body json (length payload) (payload ++ rest) src ≡ (rest, message m)
unfolding decode_body
decode_body-append json m payload rest src e small =
    ground
      (arith, e, length-append payload rest, take-append payload rest, drop-append payload rest)

encode_frame :
    (json : Json) (m : WireMessage) (payload frame : List ℕ)
    → json.to_vec m ≡ some payload
    → ltb max_message_size (length payload) ≡ false
    → encode json m [] ≡ (frame, written)
    → (put_u32 (length payload) ++ payload ≡ frame) × (length payload < 4294967296)
unfolding encode put_u32
encode_frame json m payload frame wrote small e =
    let fits : length payload < 4294967296 = ground (arith, small) in
    let exact : length payload % 4294967296 ≡ length payload = omega arith in
    (ap (λ n. put_u32 n ++ payload) (sym exact) ∙ ground (arith, wrote, small, e), fits)

decode_frame :
    (json : Json) (payload rest : List ℕ)
    → length payload < 4294967296
    → decode json ((put_u32 (length payload) ++ payload) ++ rest)
      ≡ decode_body json
          (length payload)
          (payload ++ rest)
          ((put_u32 (length payload) ++ payload) ++ rest)
unfolding decode put_u32
decode_frame json payload rest fits = rw (get_u32-put_u32 (length payload) fits)

-- A frame that `encode` has written into an empty buffer, followed by any bytes, is decoded to its
-- message, and exactly those bytes are left.
pub decode-encode :
    (json : Json) (m : WireMessage) (frame rest : List ℕ)
    → ReadsBack json
    → encode json m [] ≡ (frame, written)
    → decode json (frame ++ rest) ≡ (rest, message m)
unfolding encode decode
decode-encode json m frame rest reads e = elim (Option-cases (json.to_vec m)) [
  | inl none_written ↦ absurd (ground (arith, none_written, e))
  | inr (payload, wrote) ↦ elim (Bool-cases (ltb max_message_size (length payload))) [
    | inl big ↦ absurd (ground (arith, wrote, big, e))
    | inr small ↦
        let written_frame = encode_frame json m payload frame wrote small e in
        rw (← written_frame.0) (
          decode_frame json payload rest written_frame.1
          ∙ decode_body-append json m payload rest _ (reads m payload wrote)
              (ground (arith, small)))
  ]
]

short_body :
    (json : Json) (len : ℕ) (part src : List ℕ)
    → len ≤ max_message_size
    → length part < len
    → decode_body json len part src ≡ (src, incomplete)
unfolding decode_body
short_body json len part src small short = ground arith

prefix_waits_from :
    (json : Json) (payload part missing : List ℕ)
    → length payload ≤ max_message_size
    → 0 < length missing
    → put_u32 (length payload) ++ payload ≡ part ++ missing
    → decode json part ≡ (part, incomplete)
unfolding decode put_u32
prefix_waits_from json payload [] missing small more e = refl
prefix_waits_from json payload (a ∷ []) missing small more e = refl
prefix_waits_from json payload (a ∷ b ∷ []) missing small more e = refl
prefix_waits_from json payload (a ∷ b ∷ c ∷ []) missing small more e = refl
prefix_waits_from json payload (a ∷ b ∷ c ∷ d ∷ part) missing small more e =
    let n = length payload in
    let size : get_u32 a b c d ≡ n = ground (arith, e, get_u32-put_u32 n (omega arith)) in
    let rest : payload ≡ part ++ missing = ground (arith, e) in
    rw size
      (short_body json n part _ small (omega (arith, ap length rest, length-append part missing)))

-- While some bytes of a frame are still missing, `decode` waits and consumes nothing.
pub prefix_waits :
    (json : Json) (m : WireMessage) (frame part missing : List ℕ)
    → encode json m [] ≡ (frame, written)
    → frame ≡ part ++ missing
    → 0 < length missing
    → decode json part ≡ (part, incomplete)
unfolding encode
prefix_waits json m frame part missing e split more = elim (Option-cases (json.to_vec m)) [
  | inl none_written ↦ absurd (ground (arith, none_written, e))
  | inr (payload, wrote) ↦ elim (Bool-cases (ltb max_message_size (length payload))) [
    | inl big ↦ absurd (ground (arith, wrote, big, e))
    | inr small ↦
        prefix_waits_from json payload part missing (ground (arith, small)) more
          ((encode_frame json m payload frame wrote small e).0 ∙ split)
  ]
]
