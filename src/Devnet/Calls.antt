-- ===== src/Devnet/Calls.antt =====
-- eth2077-devnetd.rs: the calls of the engine lane that change the node, in any order.
pub mod Frames
pub mod Lane
pub mod Frozen
pub mod Thawed
use eth.Prelude.{ℕ, Option, List, [], ◌∷◌}
use eth.Devnet.Payloads.{
  Engine7732HeaderRecord, Engine7732EnvelopeRecord, NodeState, Parsed,
  engine_7732_register_payload_header_response, engine_7732_register_payload_envelope_response,
}
use eth.Devnet.InclusionList.{
  ForkchoiceRequest, engine_get_inclusion_list_response, engine_forkchoice_updated_response,
}
use eth.Devnet.NewPayload.{PayloadRequest, engine_new_payload_response}

pub data EngineCall : Type 0 where
  register_payload_header : Parsed Engine7732HeaderRecord → EngineCall
  register_payload_envelope : Parsed Engine7732EnvelopeRecord → EngineCall
  get_inclusion_list : (slot : Option ℕ) → EngineCall
  forkchoice_updated : ForkchoiceRequest → EngineCall
  new_payload : PayloadRequest → EngineCall

module _ (engine_inclusion_list_root : List ℕ → ℕ) (address_from_hex : ℕ → Option ℕ)
    (account_nonce account_balance : ℕ → ℕ) where
  -- The arms of `handle_jsonrpc` for these calls: the state that each one leaves.
  unfoldable pub handle_call : NodeState → EngineCall → NodeState
  handle_call s (register_payload_header p) = (engine_7732_register_payload_header_response s p).0
  handle_call s (register_payload_envelope p) =
      (engine_7732_register_payload_envelope_response s p).0
  handle_call s (get_inclusion_list slot) =
      (engine_get_inclusion_list_response engine_inclusion_list_root s slot).0
  handle_call s (forkchoice_updated r) =
      (engine_forkchoice_updated_response engine_inclusion_list_root s r).0
  handle_call s (new_payload r) =
      (engine_new_payload_response address_from_hex account_nonce account_balance s r).0

  unfoldable pub handle_calls : NodeState → List EngineCall → NodeState
  unfolding handle_call
  handle_calls s [] = s
  handle_calls s (c ∷ cs) = handle_calls (handle_call s c) cs
