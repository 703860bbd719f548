-- ===== src/Examples/Network.antt =====
-- Frames, relays, peers and synchronisation, at small inputs.
use eth.Prelude.{
  ℕ, ◌≡◌, refl, true, false, Option, some, none, List, [], ◌∷◌, ◌++◌, if◌then◌else◌, arith,
}
use eth.P2p.Codec.{WireMessage, Json, ping, get_blocks, message, encode, decode}
use eth.P2p.Codec.RoundTrip.{ReadsBack, decode-encode}
use eth.P2p.Gossip.{GossipEngine, should_relay_block, contains}
use eth.P2p.Gossip.Memory.{IsMemory, remember_block, should_relay_block_refines}
use eth.P2p.Peers.{PeerInfo, PeerManager, Table, connected}
use eth.P2p.Peers.Table.{Change, add, remove}
use eth.P2p.Sync
use eth.P2p.Sync.{syncing, next_request, sync_progress}
use eth.P2p.Sync.Calls.{
  SyncCall, start_at, receive_batch, run_sync, numbers, maximum, last_target, run_sync_refines,
}

-- A serializer of pings only.
abbrev write_ping : WireMessage → Option (List ℕ)
write_ping (ping n) = some (n ∷ [])
write_ping _ = none

abbrev read_ping : List ℕ → Option WireMessage
read_ping (n ∷ []) = some (ping n)
read_ping _ = none

abbrev ping_json : Json
ping_json = record { to_vec = write_ping; from_slice = read_ping }

ping_json-ReadsBack : ReadsBack ping_json
ping_json-ReadsBack m bytes e = ground (arith, e)

abbrev ping_frame : List ℕ
ping_frame = 0 ∷ 0 ∷ 0 ∷ 1 ∷ 42 ∷ []

decode-encode_example :
    decode ping_json (ping_frame ++ 0 ∷ 0 ∷ []) ≡ (0 ∷ 0 ∷ [], message (ping 42))
unfolding encode
decode-encode_example =
    decode-encode ping_json (ping 42) ping_frame (0 ∷ 0 ∷ []) ping_json-ReadsBack refl

-- A full memory of two hashes.
abbrev memory : GossipEngine
memory = record {
  config = record { seen_cache_size = 2 };
  seen_blocks = 5 ∷ 6 ∷ [];
  seen_txs = 8 ∷ [];
  seen_block_order = 5 ∷ 6 ∷ [];
  seen_tx_order = 8 ∷ [];
}

memory-IsMemory : IsMemory memory
memory-IsMemory = record {
  blocks_agree = refl;
  txs_agree = refl;
  blocks_distinct = (refl, (refl, tt));
  txs_distinct = (refl, tt);
  blocks_bounded = omega arith;
  txs_bounded = omega arith;
}

should_relay_block_refines_example : should_relay_block memory 7 ≡ (
    if contains 7 (5 ∷ 6 ∷ []) then some (memory, false) else some (remember_block memory 7, true))
should_relay_block_refines_example = should_relay_block_refines memory 7 memory-IsMemory

abbrev peer : ℕ → ℕ → PeerInfo
peer id height = record {
  peer_id = id;
  addr = 0;
  state = connected;
  best_height = height;
  best_hash = 0;
  connected_at = 0;
  last_seen = 0;
}

abbrev two_peers : PeerManager
two_peers = record { peers = (1, peer 1 10) ∷ (2, peer 2 20) ∷ []; max_peers = 2 }

abbrev some_changes : List Change
some_changes = add (peer 3 30) ∷ remove 1 ∷ add (peer 4 5) ∷ add (peer 5 5) ∷ []

abbrev in_order : Table → Table
in_order t = t

-- Two batches of one synchronisation, and a later target.
abbrev sync_calls : List SyncCall
sync_calls =
    start_at 9
    ∷ receive_batch (4 ∷ 5 ∷ [])
    ∷ receive_batch []
    ∷ receive_batch (12 ∷ 10 ∷ [])
    ∷ start_at 20
    ∷ []

run_sync_refines_example :
    let s = run_sync (Sync.new 3) sync_calls in
    (s.local_height ≡ 12)
    × (s.state ≡ syncing 20 12)
    × (next_request s ≡ some (get_blocks 13 64))
    × (sync_progress s ≡ (12, 20))
unfolding numbers maximum last_target
run_sync_refines_example = run_sync_refines 3 sync_calls
