-- ===== src/Bridge/Payload/RoundTrip.antt =====
-- payload_converter.rs: a block survives the way through a payload, and every payload gives a block.
use eth.Prelude.{ℕ, ◌≤◌, ◌≡◌, refl, List, [], ◌∷◌, All, u64_max}
use eth.Bridge.Hex.Bytes.{
  IsByte, IsArray, decode_fixed-encode, decode_fixed-IsArray, decode_hex_bytes-encode_hex_bytes,
  decode_hex_bytes-IsByte,
}
use eth.Bridge.Hex.Quantities.{
  u128_max, decode-encode_u64, decode-encode_u128, decode_u64-le, decode_u128-le,
}
use eth.Bridge.Payload.{
  Eth2077Block, ExecutionPayloadV3, encode_transactions, decode_transactions, to_execution_payload,
  from_payload,
}

-- The types of the fields: arrays of bytes, `u64`, `u128`, vectors of bytes.
pub record IsBlock (b : Eth2077Block) : Type 0 where
  pub parent_hash : IsArray 32 b.parent_hash
  pub fee_recipient : IsArray 20 b.fee_recipient
  pub state_root : IsArray 32 b.state_root
  pub receipts_root : IsArray 32 b.receipts_root
  pub block_number : b.block_number ≤ u64_max
  pub gas_limit : b.gas_limit ≤ u64_max
  pub gas_used : b.gas_used ≤ u64_max
  pub timestamp : b.timestamp ≤ u64_max
  pub base_fee_per_gas : b.base_fee_per_gas ≤ u128_max
  pub transactions : All (All IsByte) b.transactions

transactions_back :
    (txs : List (List ℕ))
    → All (All IsByte) txs
    → decode_transactions (encode_transactions txs) ≡ txs
unfolding decode_transactions encode_transactions
transactions_back [] h = refl
transactions_back (tx ∷ txs) h =
    rw (decode_hex_bytes-encode_hex_bytes tx h.0, transactions_back txs h.1) refl

decode_transactions-IsByte : (txs : List (List ℕ)) → All (All IsByte) (decode_transactions txs)
unfolding decode_transactions
decode_transactions-IsByte [] = tt
decode_transactions-IsByte (tx ∷ txs) = (decode_hex_bytes-IsByte tx, decode_transactions-IsByte txs)

-- A block whose fields are in the ranges of their types is the block that its payload converts to.
pub from_payload-to_execution_payload :
    (b : Eth2077Block) → IsBlock b → from_payload (to_execution_payload b) ≡ b
unfolding from_payload to_execution_payload
from_payload-to_execution_payload b w =
    rw
      (
        decode_fixed-encode 32 b.parent_hash w.parent_hash.0 w.parent_hash.1,
        decode_fixed-encode 20 b.fee_recipient w.fee_recipient.0 w.fee_recipient.1,
        decode_fixed-encode 32 b.state_root w.state_root.0 w.state_root.1,
        decode_fixed-encode 32 b.receipts_root w.receipts_root.0 w.receipts_root.1,
        decode-encode_u64 b.block_number w.block_number,
        decode-encode_u64 b.gas_limit w.gas_limit,
        decode-encode_u64 b.gas_used w.gas_used,
        decode-encode_u64 b.timestamp w.timestamp,
        decode-encode_u128 b.base_fee_per_gas w.base_fee_per_gas,
        transactions_back b.transactions w.transactions,
      )
      refl

-- Whatever strings a payload holds, it converts to a block whose fields are in the ranges of their
-- types, and the payload of that block converts to the same block again.
pub from_payload-IsBlock :
    (p : ExecutionPayloadV3)
    → IsBlock (from_payload p)
      × (from_payload (to_execution_payload (from_payload p)) ≡ from_payload p)
unfolding from_payload
from_payload-IsBlock p = (valid, from_payload-to_execution_payload (from_payload p) valid)
  where
    valid : IsBlock (from_payload p)
    valid = record {
      parent_hash = decode_fixed-IsArray 32 p.parent_hash;
      fee_recipient = decode_fixed-IsArray 20 p.fee_recipient;
      state_root = decode_fixed-IsArray 32 p.state_root;
      receipts_root = decode_fixed-IsArray 32 p.receipts_root;
      block_number = decode_u64-le p.block_number;
      gas_limit = decode_u64-le p.gas_limit;
      gas_used = decode_u64-le p.gas_used;
      timestamp = decode_u64-le p.timestamp;
      base_fee_per_gas = decode_u128-le p.base_fee_per_gas;
      transactions = decode_transactions-IsByte p.transactions;
    }
