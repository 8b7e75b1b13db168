-- ===== src/Disasm/Intervals.antt =====
-- isPCInVisitedIntervalsBsearch and isPCInVisitedIntervalsLinear. An `int` index is an integer, and
-- its comparison with size() converts it to size_t. The vectors have fewer than 2^30 elements.
pub mod Blind
pub mod Linear
use bin2llvm.Base.{
  ℕ, zero, suc, ◌+◌, ◌-◌, ◌/◌, ◌^◌, Bool, true, false, ◌&&◌, List, [], ◌∷◌, Option, none, some, ltb,
  leb, ◌==◌, if◌then◌else◌, length, get_elem?,
}
use bin2llvm.Base.Abort.{◌>>=◌}

abbrev pub Interval : Type 0
Interval = ℕ × ℕ

-- `negsuc n` is -(n + 1).
pub data ℤ : Type 0 where
  pos : ℕ → ℤ
  negsuc : ℕ → ℤ

-- (size_t)idx
to_size : ℤ → ℕ
to_size (pos n) = n
to_size (negsuc n) = 2 ^ 64 - 1 - n

abbrev pub first_at : List Interval → ℕ → ℕ
first_at ivs i = elim (get_elem? ivs i) [ none ↦ 0 | some (lo, hi) ↦ lo ]

-- The binary search, with the exclusive end `hi` in place of `b`, which is hi - 1. Its `mid` is a
-- variable of the loop's body, so only the bounds are left behind it. `none`: out of fuel.
search_loop : List Interval → ℕ → ℕ → ℕ → ℕ → Option (ℕ × ℕ)
search_loop ivs pc zero a hi = none
search_loop ivs pc (suc fuel) a hi =
    let mid = (a + hi - 1) / 2 in
    let left = search_loop ivs pc fuel a mid in
    let right = search_loop ivs pc fuel (mid + 1) hi in
    if ltb a hi
    then (if first_at ivs mid == pc
        then some (a, hi)
        else if ltb pc (first_at ivs mid)
        then left
        else right)
    else some (a, hi)

-- while (idx >= 0 && first == pc) --idx, from a position and from an index.
adjust_from : List Interval → ℕ → ℕ → ℤ
adjust_from ivs pc zero = if first_at ivs 0 == pc then negsuc 0 else pos 0
adjust_from ivs pc (suc i) =
    let rest = adjust_from ivs pc i in if first_at ivs (suc i) == pc then rest else pos (suc i)

adjust_left : List Interval → ℕ → ℤ → ℤ
unfolding adjust_from
adjust_left ivs pc (pos i) = adjust_from ivs pc i
adjust_left ivs pc (negsuc n) = negsuc n

-- The linear search, from the first interval of a list on.
pub scan : ℕ → List Interval → Bool
scan pc [] = false
scan pc ((lo, hi) ∷ ivs) =
    let rest = scan pc ivs in
    if leb lo pc && leb pc hi then true else if ltb pc lo then false else rest

-- The intervals from an index on; none if the index is not below size().
drop : ℕ → List Interval → List Interval
drop zero ivs = ivs
drop (suc n) [] = []
drop (suc n) (iv ∷ ivs) = drop n ivs

from_index : ℤ → List Interval → List Interval
unfolding to_size drop
from_index idx ivs = if ltb (to_size idx) (length ivs) then drop (to_size idx) ivs else []

-- `idx = mid` reads the outer `mid`, which is still -1.
unfoldable pub bsearch : List Interval → ℕ → Option Bool
unfolding search_loop adjust_left scan from_index
bsearch ivs pc =
    if ltb 0 (length ivs)
    then (do
      bounds ← search_loop ivs pc (length ivs + 1) 0 (length ivs)
      let idx = adjust_left ivs pc (negsuc 0)
      some (scan pc (from_index idx ivs)))
    else some false

unfoldable pub linear : List Interval → ℕ → Bool
unfolding scan
linear ivs pc = scan pc ivs
