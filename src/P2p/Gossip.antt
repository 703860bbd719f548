-- ===== src/P2p/Gossip.antt =====
-- crates/eth2077-p2p/src/gossip.rs: relaying each block and transaction once, with a bounded
-- memory of what was seen. A `HashSet` is a list without repetitions; the hash, the number and the
-- serialization of blocks and transactions are parameters.
pub mod Memory
use eth.Prelude.{
  ℕ, zero, suc, ◌+◌, Bool, true, false, not, ◌==◌, ltb, Option, none, some, List, [], ◌∷◌, ◌++◌,
  length, any, filter, if◌then◌else◌,
}
use eth.P2p.Codec.{WireMessage, new_block, new_transaction}

pub record GossipConfig : Type 0 where
  pub seen_cache_size : ℕ

unfoldable pub default_config : GossipConfig
default_config = record { seen_cache_size = 1024 }

pub record GossipEngine : Type 0 where
  pub config : GossipConfig
  pub seen_blocks : List ℕ
  pub seen_txs : List ℕ
  pub seen_block_order : List ℕ
  pub seen_tx_order : List ℕ

unfoldable pub new : GossipConfig → GossipEngine
new c = record {
  config = c;
  seen_blocks = [];
  seen_txs = [];
  seen_block_order = [];
  seen_tx_order = [];
}

abbrev pub contains : ℕ → List ℕ → Bool
contains h = any (λ x. x == h)

abbrev pub erase : ℕ → List ℕ → List ℕ
erase h = filter (λ x. not (x == h))

-- The loop of the two `evict_old` methods, over the set and the queue; none is a loop that spins
-- for ever, on a set that is too large beside an empty queue.
unfoldable pub evict_old : ℕ → List ℕ → List ℕ → Option (List ℕ × List ℕ)
evict_old cap seen [] = if ltb cap (length seen) then none else some (seen, [])
evict_old cap seen (oldest ∷ order) =
    let rest = evict_old cap (erase oldest seen) order in
    if ltb cap (length seen) then rest else some (seen, oldest ∷ order)

-- What the two methods do to their set and queue.
abbrev pub with_blocks : GossipEngine → Option (List ℕ × List ℕ) → Option GossipEngine
with_blocks g none = none
with_blocks g (some (seen, order)) =
    some (record g { seen_blocks = seen; seen_block_order = order })

abbrev pub with_txs : GossipEngine → Option (List ℕ × List ℕ) → Option GossipEngine
with_txs g none = none
with_txs g (some (seen, order)) = some (record g { seen_txs = seen; seen_tx_order = order })

unfoldable pub evict_old_blocks : GossipEngine → Option GossipEngine
unfolding evict_old
evict_old_blocks g =
    with_blocks g (evict_old g.config.seen_cache_size g.seen_blocks g.seen_block_order)

unfoldable pub evict_old_txs : GossipEngine → Option GossipEngine
unfolding evict_old
evict_old_txs g = with_txs g (evict_old g.config.seen_cache_size g.seen_txs g.seen_tx_order)

abbrev pub relayed : Option GossipEngine → Option (GossipEngine × Bool)
relayed none = none
relayed (some g) = some (g, true)

unfoldable pub should_relay_block : GossipEngine → ℕ → Option (GossipEngine × Bool)
unfolding evict_old_blocks
should_relay_block g hash =
    if contains hash g.seen_blocks
    then some (g, false)
    else relayed (
        evict_old_blocks (record g {
          seen_blocks = g.seen_blocks ++ hash ∷ [];
          seen_block_order = g.seen_block_order ++ hash ∷ [];
        }))

unfoldable pub should_relay_tx : GossipEngine → ℕ → Option (GossipEngine × Bool)
unfolding evict_old_txs
should_relay_tx g hash =
    if contains hash g.seen_txs
    then some (g, false)
    else relayed (
        evict_old_txs (record g {
          seen_txs = g.seen_txs ++ hash ∷ [];
          seen_tx_order = g.seen_tx_order ++ hash ∷ [];
        }))

-- A block or transaction: its hash, a block's number, and its JSON (none is a serialization error).
module _ (Item : Type 0) (hash : Item → ℕ) (to_vec : Item → Option (List ℕ)) where
  abbrev pub block_message : (Item → ℕ) → Item → Bool → Option (List ℕ) → Option WireMessage
  block_message number b false bytes = none
  block_message number b true none = none
  block_message number b true (some bytes) = some (new_block (number b) bytes)

  abbrev pub tx_message : Bool → Option (List ℕ) → Option WireMessage
  tx_message false bytes = none
  tx_message true none = none
  tx_message true (some bytes) = some (new_transaction bytes)

  unfoldable pub on_new_block :
      (Item → ℕ) → GossipEngine → Item → Option (GossipEngine × Option WireMessage)
  on_new_block number g block = elim (should_relay_block g (hash block)) [
    | none ↦ none
    | some (g', fresh) ↦ some (g', block_message number block fresh (to_vec block))
  ]

  unfoldable pub on_new_tx : GossipEngine → Item → Option (GossipEngine × Option WireMessage)
  on_new_tx g tx = elim (should_relay_tx g (hash tx)) [
    | none ↦ none
    | some (g', fresh) ↦ some (g', tx_message fresh (to_vec tx))
  ]
