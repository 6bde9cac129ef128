-- ===== src/Ingest/Range.antt =====
-- The range of the candle pass is that of the slots fetched.
use mathlib.Core.List.{Memᴰ}
use tenso.Prelude.{ℕ, zero, suc, ◌+◌, ◌^◌, ◌≤◌, ◌<◌, ◌≡◌, true, arith, ◌↔◌, ℕ_discrete}
use tenso.Prelude.Int.{pos}
use tenso.Storage.{as_i64}
use tenso.Archive.{is_between}
use tenso.Fetch.Pool.{slots_from, slot_range}
use tenso.Fetch.Pool.Outcomes.{slot_range_fits}
use tenso.Ingest.{to_slot_of}

as_i64-pos : (n : ℕ) → n < 2 ^ 63 → as_i64 n ≡ pos n
unfolding as_i64
as_i64-pos n h = ground arith

to_slot_of-last :
    (start_slot count : ℕ)
    → start_slot + suc count ≤ 2 ^ 63
    → to_slot_of start_slot (suc count) ≡ start_slot + count
unfolding to_slot_of
to_slot_of-last start_slot count h = omega arith

is_between_lem :
    (lo hi n : ℕ)
    → lo < 2 ^ 63
    → hi < 2 ^ 63
    → n < 2 ^ 63
    → (is_between lo hi (as_i64 n) ≡ true) ↔ ((lo ≤ n) × (n ≤ hi))
is_between_lem lo hi n l h m =
    rw (as_i64-pos lo l, as_i64-pos hi h, as_i64-pos n m)
      (λ e. ground (arith, e), λ e. ground (arith, e))

slots_from-bounds :
    (start_slot count n : ℕ)
    → Memᴰ n (slots_from start_slot count)
    → (start_slot ≤ n) × (n < start_slot + count)
unfolding slots_from
slots_from-bounds start_slot zero n m = elim m [ ]
slots_from-bounds start_slot (suc count) n (Memᴰ.head e) = (omega (arith, e), omega (arith, e))
slots_from-bounds start_slot (suc count) n (Memᴰ.tail m) =
    let (le, lt) = slots_from-bounds (suc start_slot) count n m in
    (omega (arith, le), omega (arith, lt))

slots_from-Mem :
    (start_slot count n : ℕ)
    → start_slot ≤ n
    → n < start_slot + count
    → Memᴰ n (slots_from start_slot count)
unfolding slots_from
slots_from-Mem start_slot zero n le lt = absurd (omega (arith, le, lt))
slots_from-Mem start_slot (suc count) n le lt = elim (ℕ_discrete n start_slot) [
  | yes e ↦ Memᴰ.head e
  | no ne ↦
      Memᴰ.tail
        (slots_from-Mem (suc start_slot) count n (omega (arith, le, ne)) (omega (arith, lt)))
]

-- For a positive count and a range that ends at 2^63 at most, the candle pass selects the balance
-- rows of a slot below 2^63, by the range that `run_ingest` computes, just if it is one of the
-- slots that were fetched.
pub slot_range-is_between :
    (start_slot count n : ℕ)
    → 0 < count
    → start_slot + count ≤ 2 ^ 63
    → n < 2 ^ 63
    → (is_between start_slot (to_slot_of start_slot count) (as_i64 n) ≡ true)
      ↔ Memᴰ n (slot_range start_slot count)
slot_range-is_between start_slot zero n some_slots fits small = absurd (omega (arith, some_slots))
slot_range-is_between start_slot (suc count) n some_slots fits small =
    let last = to_slot_of-last start_slot count fits in
    let (sel, unsel) =
      is_between_lem start_slot (start_slot + count) n (omega (arith, fits)) (omega (arith, fits))
        small in
    rw (slot_range_fits start_slot (suc count) (omega (arith, fits))) (
      λ h.
          let (le, le') = sel (rw last at h) in
          slots_from-Mem start_slot (suc count) n le (omega (arith, le')),
      λ m.
          let (le, lt) = slots_from-bounds start_slot (suc count) n m in
          rw last (unsel (le, omega (arith, lt))),
    )
