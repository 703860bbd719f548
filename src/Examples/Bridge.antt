-- ===== src/Examples/Bridge.antt =====
-- A block with one transaction as a payload, and payloads of malformed texts.
use eth.Prelude.{ℕ, zero, suc, ◌<◌, ◌≡◌, refl, none, List, [], ◌∷◌, arith}
use eth.Bridge.Hex.{decode_hex_bytes, decode_hex_quantity_u64, encode_hex_quantity_u64}
use eth.Bridge.Hex.Bytes.{IsArray}
use eth.Bridge.Payload.{
  ExecutionPayloadV3, Eth2077Block, WithdrawalV1, to_execution_payload, from_payload,
}
use eth.Bridge.Payload.RoundTrip.{IsBlock, from_payload-to_execution_payload, from_payload-IsBlock}

copies : ℕ → ℕ → List ℕ
copies b zero = []
copies b (suc n) = b ∷ copies b n

copies-IsArray : (b n : ℕ) → b < 256 → IsArray n (copies b n)
unfolding copies
copies-IsArray b zero lt = (tt, refl)
copies-IsArray b (suc n) lt =
    let rest = copies-IsArray b n lt in ((lt, rest.0), omega (arith, rest.1))

-- "0x1"
abbrev one : List ℕ
one = 48 ∷ 120 ∷ 49 ∷ []

abbrev withdrawal : WithdrawalV1
withdrawal = record { index = one; validator_index = one; address = one; amount = one }

abbrev block : Eth2077Block
block = record {
  parent_hash = copies 17 32;
  fee_recipient = copies 34 20;
  state_root = copies 51 32;
  receipts_root = copies 68 32;
  block_number = 42;
  gas_limit = 30000000;
  gas_used = 21000;
  timestamp = 1731234567;
  base_fee_per_gas = 1000000000;
  transactions = (2 ∷ 170 ∷ 187 ∷ 204 ∷ []) ∷ [];
  withdrawals = withdrawal ∷ [];
}

block-IsBlock : IsBlock block
block-IsBlock = record {
  parent_hash = copies-IsArray 17 32 (omega arith);
  fee_recipient = copies-IsArray 34 20 (omega arith);
  state_root = copies-IsArray 51 32 (omega arith);
  receipts_root = copies-IsArray 68 32 (omega arith);
  block_number = omega arith;
  gas_limit = omega arith;
  gas_used = omega arith;
  timestamp = omega arith;
  base_fee_per_gas = omega arith;
  transactions = ((omega arith, (omega arith, (omega arith, (omega arith, tt)))), tt);
}

from_payload-to_execution_payload_example : from_payload (to_execution_payload block) ≡ block
from_payload-to_execution_payload_example = from_payload-to_execution_payload block block-IsBlock

-- "12" for every hash, and a text that is no number.
abbrev malformed : ExecutionPayloadV3
malformed = record (to_execution_payload block) {
  parent_hash = 49 ∷ 50 ∷ [];
  block_number = 110 ∷ 111 ∷ [];
  transactions = one ∷ [];
}

from_payload-IsBlock_example :
    IsBlock (from_payload malformed)
    × (from_payload (to_execution_payload (from_payload malformed)) ≡ from_payload malformed)
from_payload-IsBlock_example = from_payload-IsBlock malformed

-- An odd number of digits gives no bytes, and a text that is no number gives zero.
odd_digits : decode_hex_bytes one ≡ none
unfolding decode_hex_bytes
odd_digits = refl

no_number : decode_hex_quantity_u64 malformed.block_number ≡ 0
unfolding decode_hex_quantity_u64
no_number = refl

largest :
    decode_hex_quantity_u64 (encode_hex_quantity_u64 18446744073709551615) ≡ 18446744073709551615
unfolding decode_hex_quantity_u64 encode_hex_quantity_u64
largest = refl

-- White space around a text and a sign are passed over.
signed : decode_hex_quantity_u64 (32 ∷ 48 ∷ 88 ∷ 43 ∷ 102 ∷ 70 ∷ 10 ∷ []) ≡ 255
unfolding decode_hex_quantity_u64
signed = refl
