-- ===== src/Devnet/Timeliness/Windows.antt =====
-- eth2077-devnetd.rs: the windows of slots that range queries answer.
use eth.Prelude.{
  ℕ, zero, suc, ◌+◌, ◌-◌, ◌≤◌, ◌<◌, ◌≡◌, refl, sym, ap, ◌∙◌, min, false, ltb, some, length,
  get_elem?, map, u64_max, sat_add64, arith,
}
use eth.Devnet.Timeliness.{Window, slot_window, slots_from, max_slot_window}

-- The slots of an answer run from the first one, in steps of one; there are as many as asked for, but
-- at most 256, and a clamped answer says so.
pub record Covers {R : Type 0} (snapshot : ℕ → R) (start_slot end_slot : ℕ) (w : Window R)
    : Type 0 where
  pub size : length w.slots ≡ min (end_slot - start_slot + 1) max_slot_window
  pub counted : w.slot_count ≡ length w.slots
  pub each : (i : ℕ) → i < length w.slots → get_elem? w.slots i ≡ some (snapshot (start_slot + i))
  pub last : w.effective_end_slot + 1 ≡ start_slot + length w.slots
  pub in_range : w.effective_end_slot ≤ end_slot
  pub clamped : w.window_clamped ≡ ltb max_slot_window (end_slot - start_slot + 1)

length-slots : {R : Type 0} (f : ℕ → R) (start n : ℕ) → length (map f (slots_from start n)) ≡ n
unfolding slots_from
length-slots f start zero = refl
length-slots f start (suc n) = omega (arith, length-slots f (start + 1) n)

slot_at :
    {R : Type 0} (f : ℕ → R) (start n i : ℕ)
    → i < n
    → get_elem? (map f (slots_from start n)) i ≡ some (f (start + i))
unfolding slots_from
slot_at f start zero i lt = absurd (omega arith)
slot_at f start (suc n) zero lt = ap (λ x. some (f x)) (omega arith)
slot_at f start (suc n) (suc i) lt =
    slot_at f (start + 1) n i (omega arith) ∙ ap (λ x. some (f x)) (omega arith)

-- A range whose bounds are ordered 64-bit numbers is answered by the slots from its start on, all of
-- them when there are at most 256, else the first 256 and the mark of a clamped window.
pub slot_window-Covers :
    {R : Type 0} (snapshot : ℕ → R) (start_slot end_slot : ℕ)
    → start_slot ≤ end_slot
    → end_slot ≤ u64_max
    → (w : Window R) × (slot_window snapshot start_slot end_slot ≡ some w)
      × Covers snapshot start_slot end_slot w
unfolding slot_window
slot_window-Covers snapshot a b ordered fits =
    let test : ltb b a ≡ false = ground (arith, ordered) in
    let count = min (sat_add64 (b - a) 1) max_slot_window in
    let last = sat_add64 a (count - 1) in
    let n : last + 1 - a ≡ count = omega arith in
    let l = map snapshot (slots_from a (last + 1 - a)) in
    let size : length l ≡ count = length-slots snapshot a (last + 1 - a) ∙ n in
    (
      record {
        start_slot = a;
        end_slot = b;
        effective_end_slot = last;
        requested_slots = sat_add64 (b - a) 1;
        slot_count = count;
        window_clamped = ltb count (sat_add64 (b - a) 1);
        slots = l;
      },
      rw test refl,
      record {
        size = size ∙ omega arith;
        counted = sym size;
        each = λ i lt. slot_at snapshot a (last + 1 - a) i (omega (arith, lt, size, n));
        last = omega (arith, size);
        in_range = omega arith;
        clamped = ground arith;
      },
    )
