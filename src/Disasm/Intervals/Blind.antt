-- ===== src/Disasm/Intervals/Blind.antt =====
-- The binary search always answers no.
use bin2llvm.Base.{
  ℕ, zero, suc, ◌+◌, ◌-◌, ◌/◌, ◌^◌, ◌<◌, ◌≤◌, false, List, [], some, length, ◌≡◌, arith, ltb,
  ltb→lt, Bool-cases, inl, inr, ◌==◌,
}
use bin2llvm.Disasm.Intervals.{
  Interval, negsuc, to_size, first_at, search_loop, adjust_left, from_index, scan, bsearch,
}

-- The search halves what is left, so the number of intervals is fuel enough.
search_loop_ends :
    (ivs : List Interval) (pc fuel a hi : ℕ)
    → hi - a < fuel
    → (r : ℕ × ℕ) × (search_loop ivs pc fuel a hi ≡ some r)
unfolding search_loop
search_loop_ends ivs pc zero a hi h = absurd (omega arith)
search_loop_ends ivs pc (suc fuel) a hi h = elim (Bool-cases (ltb a hi)) [
  | inr stop ↦ ((a, hi), rw stop)
  | inl go ↦
      let mid = (a + hi - 1) / 2 in
      let lt : a < hi = ltb→lt a hi go in
      rw go (elim (Bool-cases (first_at ivs mid == pc)) [
        | inl hit ↦ ((a, hi), rw hit)
        | inr miss ↦ rw miss (elim (Bool-cases (ltb pc (first_at ivs mid))) [
          | inl below ↦ rw below (search_loop_ends ivs pc fuel a mid (omega arith))
          | inr above ↦ rw above (search_loop_ends ivs pc fuel (mid + 1) hi (omega arith))
        ])
      ])
]

not_lt : (m n : ℕ) → n ≤ m → ltb m n ≡ false
not_lt m n h = ground arith

from_index_minus_one : (ivs : List Interval) → length ivs < 2 ^ 30 → from_index (negsuc 0) ivs ≡ []
unfolding from_index to_size
from_index_minus_one ivs h =
    let out : length ivs ≤ 2 ^ 64 - 1 - 0 = omega arith in
    rw (not_lt (2 ^ 64 - 1 - 0) (length ivs) out)

-- The search that is meant to be fast ends, and answers no for every address: its index stays -1.
pub bsearch_blind :
    (ivs : List Interval) (pc : ℕ) → length ivs < 2 ^ 30 → bsearch ivs pc ≡ some false
unfolding bsearch
bsearch_blind ivs pc h = elim (Bool-cases (ltb 0 (length ivs))) [
  | inr empty ↦ rw empty
  | inl some_left ↦
      let (r, e) = search_loop_ends ivs pc (length ivs + 1) 0 (length ivs) (omega arith) in
      simp (some_left, e, adjust_left, from_index_minus_one ivs h, scan)
]
