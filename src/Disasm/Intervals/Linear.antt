-- ===== src/Disasm/Intervals/Linear.antt =====
-- The linear search, on intervals that are sorted by their starts.
use bin2llvm.Base.{ℕ, ◌≤◌, ◌<◌, true, List, [], ◌∷◌, ◌≡◌, arith, ◌↔◌, ◌⊎◌, inl, inr, All, All-imp}
use bin2llvm.Disasm.Intervals.{Interval, scan, linear}

-- pc lies in one of the intervals, whose ends count.
abbrev pub Covered : ℕ → List Interval → Type 0
Covered pc [] = ⊥
Covered pc ((lo, hi) ∷ ivs) = ((lo ≤ pc) × (pc ≤ hi)) ⊎ Covered pc ivs

-- The starts do not fall.
abbrev pub IsSorted : List Interval → Type 0
IsSorted [] = Unit {0}
IsSorted ((lo, hi) ∷ ivs) = All (λ (iv : Interval). lo ≤ iv.0) ivs × IsSorted ivs

not-Covered :
    (pc : ℕ) (ivs : List Interval) → All (λ (iv : Interval). pc < iv.0) ivs → ¬ Covered pc ivs
not-Covered pc [] h c = c
not-Covered pc ((lo, hi) ∷ ivs) h (inl c) = omega arith
not-Covered pc ((lo, hi) ∷ ivs) h (inr c) = not-Covered pc ivs h.1 c

-- On intervals sorted by their starts the linear search finds exactly the addresses that some
-- interval covers, although it stops at the first interval behind the address.
pub linear_iff :
    (ivs : List Interval) (pc : ℕ) → IsSorted ivs → (linear ivs pc ≡ true) ↔ Covered pc ivs
unfolding linear scan
linear_iff [] pc s = ((λ e. absurd (cc)), (λ c. absurd c))
linear_iff ((lo, hi) ∷ ivs) pc s = ground (
  arith,
  linear_iff ivs pc s.1,
  λ (h : pc < lo). not-Covered pc ivs (All-imp _ _ ivs (λ iv k. omega arith) s.0),
)
