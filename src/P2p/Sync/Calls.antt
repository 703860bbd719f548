-- ===== src/P2p/Sync/Calls.antt =====
-- sync_protocol.rs under any sequence of its calls: the engine remembers a height and a target.
use eth.Prelude.{
  ℕ, max, ◌≡◌, refl, ap, ◌∙◌, true, false, ltb, leb, Option, none, some, List, [], ◌∷◌, ◌++◌,
  if◌then◌else◌, sat_add64, arith, Bool-cases, inl, inr,
}
use eth.P2p.Codec.{WireMessage, get_blocks}
use eth.P2p.Sync.{
  SyncState, SyncEngine, idle, syncing, synced, new, start_sync, next_request, highest, advance,
  receive, on_blocks_received, sync_progress,
}

-- The calls of `start_sync` and `on_blocks_received`, the methods that change an engine.
pub data SyncCall : Type 0 where
  start_at : (target : ℕ) → SyncCall
  receive_batch : List ℕ → SyncCall

unfoldable pub run_sync : SyncEngine → List SyncCall → SyncEngine
run_sync s [] = s
run_sync s (start_at target ∷ calls) = run_sync (start_sync s target) calls
run_sync s (receive_batch ns ∷ calls) = run_sync (on_blocks_received s ns) calls

-- The specification: the numbers of all received blocks, the highest of them, and the last target.
unfoldable pub numbers : List SyncCall → List ℕ
numbers [] = []
numbers (start_at target ∷ calls) = numbers calls
numbers (receive_batch ns ∷ calls) = ns ++ numbers calls

unfoldable pub maximum : List ℕ → ℕ
maximum [] = 0
maximum (n ∷ ns) = max n (maximum ns)

unfoldable pub last_target : Option ℕ → List SyncCall → Option ℕ
last_target t [] = t
last_target t (start_at target ∷ calls) = last_target (some target) calls
last_target t (receive_batch ns ∷ calls) = last_target t calls

-- What an engine at a height makes of its target: its state, its next request and its progress.
abbrev pub standing : Option ℕ → ℕ → SyncState
standing none height = idle
standing (some target) height = if ltb height target then syncing target height else synced

abbrev pub asks : Option ℕ → ℕ → Option WireMessage
asks none height = none
asks (some target) height =
    if ltb height target then some (get_blocks (sat_add64 height 1) 64) else none

abbrev pub reports : Option ℕ → ℕ → ℕ × ℕ
reports none height = (height, height)
reports (some target) height = if ltb height target then (height, target) else (height, height)

abbrev engine : Option ℕ → ℕ → SyncEngine
engine target height = record {
  local_height = height;
  state = standing target height;
  batch_size = 64;
}

start_sync-engine :
    (t : Option ℕ) (height target : ℕ)
    → start_sync (engine t height) target ≡ engine (some target) height
unfolding start_sync
start_sync-engine t height target = elim (Bool-cases (ltb height target)) [
  | inl below ↦
      let more : leb target height ≡ false = ground (arith, below) in rw (below, more) refl
  | inr above ↦ let done : leb target height ≡ true = ground (arith, above) in rw (above, done) refl
]

highest-maximum : (n : ℕ) (ns : List ℕ) → highest n ns ≡ max n (maximum ns)
unfolding maximum
highest-maximum n [] = omega arith
highest-maximum n (m ∷ ms) = omega (arith, highest-maximum (max n m) ms)

-- A height that grows is looked at only while the target is above the engine.
advance-standing :
    (t : Option ℕ) (height n : ℕ)
    → advance (standing t height) (max height n) ≡ standing t (max height n)
advance-standing none height n = refl
advance-standing (some target) height n = ground arith

on_blocks_received-engine :
    (t : Option ℕ) (height : ℕ) (ns : List ℕ)
    → on_blocks_received (engine t height) ns ≡ engine t (max height (maximum ns))
unfolding on_blocks_received receive maximum
on_blocks_received-engine t height [] = ap (engine t) (omega arith)
on_blocks_received-engine t height (n ∷ ns) =
    rw (advance-standing t height (highest n ns))
      (ap (λ m. engine t (max height m)) (highest-maximum n ns))

maximum-append : (ms ns : List ℕ) → maximum (ms ++ ns) ≡ max (maximum ms) (maximum ns)
unfolding maximum
maximum-append [] ns = omega arith
maximum-append (m ∷ ms) ns = omega (arith, maximum-append ms ns)

run_sync-engine :
    (t : Option ℕ) (height : ℕ) (calls : List SyncCall)
    → run_sync (engine t height) calls
      ≡ engine (last_target t calls) (max height (maximum (numbers calls)))
unfolding run_sync numbers maximum last_target
run_sync-engine t height [] = ap (engine t) (omega arith)
run_sync-engine t height (start_at target ∷ calls) =
    ap (λ s. run_sync s calls) (start_sync-engine t height target)
    ∙ run_sync-engine (some target) height calls
run_sync-engine t height (receive_batch ns ∷ calls) =
    let later = run_sync-engine t (max height (maximum ns)) calls in
    ap (λ s. run_sync s calls) (on_blocks_received-engine t height ns)
    ∙ later
    ∙ ap (engine (last_target t calls)) (omega (arith, maximum-append ns (numbers calls)))

asks_lem : (t : Option ℕ) (height : ℕ) → next_request (engine t height) ≡ asks t height
unfolding next_request
asks_lem none height = refl
asks_lem (some target) height = ground arith

reports_lem : (t : Option ℕ) (height : ℕ) → sync_progress (engine t height) ≡ reports t height
unfolding sync_progress
reports_lem none height = refl
reports_lem (some target) height = ground arith

-- After any calls a new engine stands at the highest number of its first height and all received
-- blocks. Before a first target it is idle; with the last target above that height it is syncing
-- towards it, and asks for the 64 blocks after the height; otherwise it is synced and asks for
-- nothing. The progress is reported from the same two numbers.
pub run_sync_refines :
    (local_height : ℕ) (calls : List SyncCall)
    → let height = max local_height (maximum (numbers calls)) in
      let target = last_target none calls in
      let s = run_sync (new local_height) calls in
      (s.local_height ≡ height)
      × (s.state ≡ standing target height)
      × (next_request s ≡ asks target height)
      × (sync_progress s ≡ reports target height)
unfolding new
run_sync_refines local_height calls =
    let height = max local_height (maximum (numbers calls)) in
    let target = last_target none calls in
    rw (run_sync-engine none local_height calls)
      (refl, refl, asks_lem target height, reports_lem target height)
