-- ===== src/P2p/Gossip/Memory.antt =====
-- The memory of gossip.rs: a first-in first-out list of the last hashes.
use eth.Prelude.{
  ℕ, zero, suc, ◌-◌, ◌≤◌, ◌≡◌, ◌≢◌, refl, Bool, true, false, ==_refl, ltb, Option, some, List, [],
  ◌∷◌, ◌++◌, length, drop, if◌then◌else◌, arith, Bool-cases, inl, inr,
}
use eth.P2p.Gossip.{
  GossipConfig, GossipEngine, new, contains, erase, evict_old, evict_old_blocks, evict_old_txs,
  should_relay_block, should_relay_tx,
}

-- No hash stands twice.
abbrev pub IsDistinct : List ℕ → Type 0
IsDistinct [] = Unit {0}
IsDistinct (h ∷ l) = (contains h l ≡ false) × IsDistinct l

-- The specification: the last `cap` hashes of a list.
abbrev pub latest : ℕ → List ℕ → List ℕ
latest cap l = drop (length l - cap) l

erase_absent : (h : ℕ) (l : List ℕ) → contains h l ≡ false → erase h l ≡ l
erase_absent h [] e = refl
erase_absent h (x ∷ l) e = ground (arith, erase_absent h l, e)

erase_head : (h : ℕ) (l : List ℕ) → contains h l ≡ false → erase h (h ∷ l) ≡ l
erase_head h l e = ground (arith, erase_absent h l e, ==_refl h)

-- Eviction ends, and leaves the last `cap` hashes in the set and in the queue.
evict_old-latest :
    (cap : ℕ) (l : List ℕ) → IsDistinct l → evict_old cap l l ≡ some (latest cap l, latest cap l)
unfolding evict_old
evict_old-latest cap [] d = ground arith
evict_old-latest cap (h ∷ l) d = elim (Bool-cases (ltb cap (length (h ∷ l)))) [
  | inl big ↦
      let count : length (h ∷ l) - cap ≡ suc (length l - cap) = ground (arith, big) in
      rw (big, erase_head h l d.0, evict_old-latest cap l d.1, count) refl
  | inr fits ↦
      let count : length (h ∷ l) - cap ≡ zero = ground (arith, fits) in rw (fits, count) refl
]

contains-append :
    (h k : ℕ) (l : List ℕ) → k ≢ h → contains h l ≡ false → contains h (l ++ k ∷ []) ≡ false
contains-append h k [] n e = ground (arith, n)
contains-append h k (x ∷ l) n e = ground (arith, contains-append h k l n, e)

contains-ne : (h k : ℕ) (l : List ℕ) → contains k (h ∷ l) ≡ false → k ≢ h
contains-ne h k l e x = ground (arith, e)

pub IsDistinct-push :
    (k : ℕ) (l : List ℕ) → IsDistinct l → contains k l ≡ false → IsDistinct (l ++ k ∷ [])
IsDistinct-push k [] d e = (refl, tt)
IsDistinct-push k (h ∷ l) d e =
    (contains-append h k l (contains-ne h k l e) d.0, IsDistinct-push k l d.1 (ground (arith, e)))

pub IsDistinct-drop : (n : ℕ) (l : List ℕ) → IsDistinct l → IsDistinct (drop n l)
IsDistinct-drop zero l d = d
IsDistinct-drop (suc n) [] d = tt
IsDistinct-drop (suc n) (h ∷ l) d = IsDistinct-drop n l d.1

length-drop : (n : ℕ) (l : List ℕ) → length (drop n l) ≡ length l - n
length-drop zero l = omega arith
length-drop (suc n) [] = omega arith
length-drop (suc n) (h ∷ l) = omega (arith, length-drop n l)

-- The two memories: the set and the queue agree, without repetitions, within the size.
pub record IsMemory (g : GossipEngine) : Type 0 where
  pub blocks_agree : g.seen_block_order ≡ g.seen_blocks
  pub txs_agree : g.seen_tx_order ≡ g.seen_txs
  pub blocks_distinct : IsDistinct g.seen_blocks
  pub txs_distinct : IsDistinct g.seen_txs
  pub blocks_bounded : length g.seen_blocks ≤ g.config.seen_cache_size
  pub txs_bounded : length g.seen_txs ≤ g.config.seen_cache_size

pub new-IsMemory : (c : GossipConfig) → IsMemory (new c)
unfolding new
new-IsMemory c = record {
  blocks_agree = refl;
  txs_agree = refl;
  blocks_distinct = tt;
  txs_distinct = tt;
  blocks_bounded = omega arith;
  txs_bounded = omega arith;
}

-- The engine that remembers one more block, or one more transaction.
abbrev pub remember_block : GossipEngine → ℕ → GossipEngine
remember_block g hash =
    let l = latest g.config.seen_cache_size (g.seen_blocks ++ hash ∷ []) in
    record g { seen_blocks = l; seen_block_order = l }

abbrev pub remember_tx : GossipEngine → ℕ → GossipEngine
remember_tx g hash =
    let l = latest g.config.seen_cache_size (g.seen_txs ++ hash ∷ []) in
    record g { seen_txs = l; seen_tx_order = l }

pub evict_pushed :
    (cap h : ℕ) (seen order : List ℕ)
    → order ≡ seen
    → IsDistinct seen
    → contains h seen ≡ false
    → evict_old cap (seen ++ h ∷ []) (order ++ h ∷ [])
      ≡ some (latest cap (seen ++ h ∷ []), latest cap (seen ++ h ∷ []))
evict_pushed cap h seen order e d new =
    rw e (evict_old-latest cap (seen ++ h ∷ []) (IsDistinct-push h seen d new))

-- In a well-formed engine a block is relayed exactly when its hash is not among the remembered ones; then it is remembered,
-- and the oldest hashes beyond the size are forgotten. The eviction loop always ends.
pub should_relay_block_refines :
    (g : GossipEngine) (hash : ℕ)
    → IsMemory g
    → should_relay_block g hash ≡ (
        if contains hash g.seen_blocks then some (g, false) else some (remember_block g hash, true))
unfolding should_relay_block evict_old_blocks
should_relay_block_refines g hash m = elim (Bool-cases (contains hash g.seen_blocks)) [
  | inl old ↦ rw old refl
  | inr new ↦
      rw
        (
          new,
          evict_pushed g.config.seen_cache_size hash g.seen_blocks g.seen_block_order m.blocks_agree
              m.blocks_distinct new,
        )
        refl
]

-- In a well-formed engine a transaction is relayed exactly when its hash is not remembered; then it is remembered.
pub should_relay_tx_refines :
    (g : GossipEngine) (hash : ℕ)
    → IsMemory g
    → should_relay_tx g hash
      ≡ (if contains hash g.seen_txs then some (g, false) else some (remember_tx g hash, true))
unfolding should_relay_tx evict_old_txs
should_relay_tx_refines g hash m = elim (Bool-cases (contains hash g.seen_txs)) [
  | inl old ↦ rw old refl
  | inr new ↦
      rw
        (
          new,
          evict_pushed g.config.seen_cache_size hash g.seen_txs g.seen_tx_order m.txs_agree
              m.txs_distinct new,
        )
        refl
]

pub latest_bounded : (cap : ℕ) (l : List ℕ) → length (latest cap l) ≤ cap
latest_bounded cap l = omega (arith, length-drop (length l - cap) l)

remember_block-IsMemory :
    (g : GossipEngine) (hash : ℕ)
    → IsMemory g
    → contains hash g.seen_blocks ≡ false
    → IsMemory (remember_block g hash)
remember_block-IsMemory g hash m new =
    let cap = g.config.seen_cache_size in
    record {
      blocks_agree = refl;
      txs_agree = m.txs_agree;
      blocks_distinct =
          IsDistinct-drop _ (g.seen_blocks ++ hash ∷ [])
            (IsDistinct-push hash g.seen_blocks m.blocks_distinct new);
      txs_distinct = m.txs_distinct;
      blocks_bounded = latest_bounded cap (g.seen_blocks ++ hash ∷ []);
      txs_bounded = m.txs_bounded;
    }

remember_tx-IsMemory :
    (g : GossipEngine) (hash : ℕ)
    → IsMemory g
    → contains hash g.seen_txs ≡ false
    → IsMemory (remember_tx g hash)
remember_tx-IsMemory g hash m new =
    let cap = g.config.seen_cache_size in
    record {
      blocks_agree = m.blocks_agree;
      txs_agree = refl;
      blocks_distinct = m.blocks_distinct;
      txs_distinct =
          IsDistinct-drop _ (g.seen_txs ++ hash ∷ [])
            (IsDistinct-push hash g.seen_txs m.txs_distinct new);
      blocks_bounded = m.blocks_bounded;
      txs_bounded = latest_bounded cap (g.seen_txs ++ hash ∷ []);
    }

-- What a call answers: an engine that is well formed again.
abbrev pub Remembers : Option (GossipEngine × Bool) → Type 0
Remembers r = (g' : GossipEngine) × (fresh : Bool) × (r ≡ some (g', fresh)) × IsMemory g'

-- From a well-formed engine both calls return (the eviction loop ends), and leave a well-formed
-- engine: set and queue agree, hold no hash twice, and stay within the configured size.
pub should_relay-IsMemory :
    (g : GossipEngine) (hash : ℕ)
    → IsMemory g
    → Remembers (should_relay_block g hash) × Remembers (should_relay_tx g hash)
should_relay-IsMemory g hash m = (
  elim (Bool-cases (contains hash g.seen_blocks)) [
    | inl old ↦ (g, false, rw (should_relay_block_refines g hash m, old) refl, m)
    | inr new ↦ (
      remember_block g hash,
      true,
      rw (should_relay_block_refines g hash m, new) refl,
      remember_block-IsMemory g hash m new,
    )
  ],
  elim (Bool-cases (contains hash g.seen_txs)) [
    | inl old ↦ (g, false, rw (should_relay_tx_refines g hash m, old) refl, m)
    | inr new ↦ (
      remember_tx g hash,
      true,
      rw (should_relay_tx_refines g hash m, new) refl,
      remember_tx-IsMemory g hash m new,
    )
  ],
)
