-- ===== src/Bridge/Payload.antt =====
-- crates/eth2077-bridge/src/payload_converter.rs and the payload of engine_api.rs: blocks as
-- payloads and back. The newtypes `Bytes32`, `Address`, `HexBytes` and `HexQuantity` are the strings
-- they hold, and a `WithdrawalV1` its four.
pub mod RoundTrip
use eth.Prelude.{ℕ, List, [], ◌∷◌, map}
use eth.Bridge.Hex.{
  zeros, encode_hex_bytes, decode_hex_bytes, bytes_or_empty, decode_fixed_hex_bytes,
  encode_hex_quantity_u64, encode_hex_quantity_u128, decode_hex_quantity_u64,
  decode_hex_quantity_u128,
}

pub record WithdrawalV1 : Type 0 where
  pub index : List ℕ
  pub validator_index : List ℕ
  pub address : List ℕ
  pub amount : List ℕ

pub record ExecutionPayloadV3 : Type 0 where
  pub parent_hash : List ℕ
  pub fee_recipient : List ℕ
  pub state_root : List ℕ
  pub receipts_root : List ℕ
  pub logs_bloom : List ℕ
  pub prev_randao : List ℕ
  pub block_number : List ℕ
  pub gas_limit : List ℕ
  pub gas_used : List ℕ
  pub timestamp : List ℕ
  pub extra_data : List ℕ
  pub base_fee_per_gas : List ℕ
  pub block_hash : List ℕ
  pub transactions : List (List ℕ)
  pub withdrawals : List WithdrawalV1
  pub blob_gas_used : List ℕ
  pub excess_blob_gas : List ℕ

pub record Eth2077Block : Type 0 where
  pub parent_hash : List ℕ
  pub fee_recipient : List ℕ
  pub state_root : List ℕ
  pub receipts_root : List ℕ
  pub block_number : ℕ
  pub gas_limit : ℕ
  pub gas_used : ℕ
  pub timestamp : ℕ
  pub base_fee_per_gas : ℕ
  pub transactions : List (List ℕ)
  pub withdrawals : List WithdrawalV1

-- `HexBytes::empty` and `HexQuantity::zero`.
abbrev empty_hex : List ℕ
empty_hex = b'0' ∷ b'x' ∷ []

abbrev zero_quantity : List ℕ
zero_quantity = b'0' ∷ b'x' ∷ b'0' ∷ []

unfoldable pub encode_transactions : List (List ℕ) → List (List ℕ)
encode_transactions [] = []
encode_transactions (tx ∷ txs) = encode_hex_bytes tx ∷ encode_transactions txs

unfoldable pub decode_transactions : List (List ℕ) → List (List ℕ)
decode_transactions [] = []
decode_transactions (tx ∷ txs) = bytes_or_empty (decode_hex_bytes tx) ∷ decode_transactions txs

unfoldable pub to_execution_payload : Eth2077Block → ExecutionPayloadV3
unfolding encode_transactions zeros encode_hex_bytes
to_execution_payload b = record {
  parent_hash = encode_hex_bytes b.parent_hash;
  fee_recipient = encode_hex_bytes b.fee_recipient;
  state_root = encode_hex_bytes b.state_root;
  receipts_root = encode_hex_bytes b.receipts_root;
  logs_bloom = encode_hex_bytes (zeros 256);
  prev_randao = encode_hex_bytes (zeros 32);
  block_number = encode_hex_quantity_u64 b.block_number;
  gas_limit = encode_hex_quantity_u64 b.gas_limit;
  gas_used = encode_hex_quantity_u64 b.gas_used;
  timestamp = encode_hex_quantity_u64 b.timestamp;
  extra_data = empty_hex;
  base_fee_per_gas = encode_hex_quantity_u128 b.base_fee_per_gas;
  block_hash = encode_hex_bytes (zeros 32);
  transactions = encode_transactions b.transactions;
  withdrawals = b.withdrawals;
  blob_gas_used = zero_quantity;
  excess_blob_gas = zero_quantity;
}

-- `From<ExecutionPayloadV3> for Eth2077Block`.
unfoldable pub from_payload : ExecutionPayloadV3 → Eth2077Block
unfolding decode_transactions
from_payload p = record {
  parent_hash = decode_fixed_hex_bytes 32 p.parent_hash;
  fee_recipient = decode_fixed_hex_bytes 20 p.fee_recipient;
  state_root = decode_fixed_hex_bytes 32 p.state_root;
  receipts_root = decode_fixed_hex_bytes 32 p.receipts_root;
  block_number = decode_hex_quantity_u64 p.block_number;
  gas_limit = decode_hex_quantity_u64 p.gas_limit;
  gas_used = decode_hex_quantity_u64 p.gas_used;
  timestamp = decode_hex_quantity_u64 p.timestamp;
  base_fee_per_gas = decode_hex_quantity_u128 p.base_fee_per_gas;
  transactions = decode_transactions p.transactions;
  withdrawals = p.withdrawals;
}
