-- ===== src/P2p/Codec.antt =====
-- crates/eth2077-p2p/src/codec.rs: length-prefixed frames. `serde_json` is the parameter `Json`;
-- a byte is a number, and the buffer `BytesMut` is the list of its unread bytes.
pub mod RoundTrip
use eth.Prelude.{
  ℕ, zero, suc, ◌+◌, ◌*◌, ◌/◌, ◌%◌, ◌≡◌, Bool, true, false, ltb, Option, none, some, List, [], ◌∷◌,
  ◌++◌, length, take, drop, if◌then◌else◌,
}

pub data WireMessage : Type 0 where
  hello : (peer_id chain_id best_height best_hash : ℕ) → WireMessage
  new_block : (height : ℕ) (block_data : List ℕ) → WireMessage
  new_transaction : (tx_data : List ℕ) → WireMessage
  consensus_msg : (msg_data : List ℕ) → WireMessage
  get_blocks : (from_height count : ℕ) → WireMessage
  blocks : List (List ℕ) → WireMessage
  ping pong : (nonce : ℕ) → WireMessage

pub data CodecError : Type 0 where
  message_too_large invalid_json encode_failed : CodecError

pub data Decoded : Type 0 where
  incomplete : Decoded
  message : WireMessage → Decoded
  failed : CodecError → Decoded

pub data Encoded : Type 0 where
  written : Encoded
  refused : CodecError → Encoded

-- `serde_json::to_vec` and `serde_json::from_slice` at `WireMessage`; none is their error.
pub record Json : Type 0 where
  pub to_vec : WireMessage → Option (List ℕ)
  pub from_slice : List ℕ → Option WireMessage

abbrev pub max_message_size : ℕ
max_message_size = 16777216

-- `put_u32` and `get_u32`, big end first.
unfoldable pub put_u32 : ℕ → List ℕ
put_u32 n = (n / 16777216 % 256) ∷ (n / 65536 % 256) ∷ (n / 256 % 256) ∷ (n % 256) ∷ []

abbrev pub get_u32 : ℕ → ℕ → ℕ → ℕ → ℕ
get_u32 a b c d = ((a * 256 + b) * 256 + c) * 256 + d

abbrev parsed : Option WireMessage → Decoded
parsed none = failed invalid_json
parsed (some m) = message m

-- The body of `decode` behind the first test; the payload is what follows the four bytes. A failed
-- parse has already consumed its frame.
unfoldable pub decode_body : Json → ℕ → List ℕ → List ℕ → List ℕ × Decoded
decode_body json len payload src =
    if ltb max_message_size len
    then (src, failed message_too_large)
    else if ltb (length payload) len
    then (src, incomplete)
    else (drop len payload, parsed (json.from_slice (take len payload)))

unfoldable pub decode : Json → List ℕ → List ℕ × Decoded
unfolding decode_body
decode json (a ∷ b ∷ c ∷ d ∷ payload) =
    decode_body json (get_u32 a b c d) payload (a ∷ b ∷ c ∷ d ∷ payload)
decode json src = (src, incomplete)

-- `len as u32` wraps.
unfoldable pub encode : Json → WireMessage → List ℕ → List ℕ × Encoded
unfolding put_u32
encode json item dst = elim (json.to_vec item) [
  | none ↦ (dst, refused encode_failed)
  | some payload ↦
      if ltb max_message_size (length payload)
      then (dst, refused message_too_large)
      else ((dst ++ put_u32 (length payload % 4294967296)) ++ payload, written)
]
