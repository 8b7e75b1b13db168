-- ===== src/Overlap/Order.antt =====
-- std::list::sort with myCompareStartOfFunc.
use bin2llvm.Base.{
  ℕ, ◌≤◌, Bool-cases, inl, inr, All-imp, List, [], ◌∷◌, map, ltb, count, ◌≡◌, refl, ◌∙◌, arith, All,
}
use bin2llvm.Overlap.{insert_by_start, sort_by_start}

-- No function starts before one that stands in front of it.
abbrev pub IsSorted : List (ℕ × ℕ) → Type 0
IsSorted [] = Unit
IsSorted (x ∷ xs) = All (λ (y : ℕ × ℕ). x.0 ≤ y.0) xs × IsSorted xs

abbrev pub positions : List (ℕ × ℕ) → List ℕ
positions l = map (λ x. x.1) l

All-insert :
    (P : ℕ × ℕ → Type 0) (x : ℕ × ℕ) (xs : List (ℕ × ℕ))
    → P x
    → All P xs
    → All P (insert_by_start x xs)
unfolding insert_by_start
All-insert P x [] p h = (p, tt)
All-insert P x (y ∷ ys) p h = elim (Bool-cases (ltb y.0 x.0)) [
  | inl e ↦ rw e (h.0, All-insert P x ys p h.1)
  | inr e ↦ rw e (p, h)
]

All-le :
    (a b : ℕ) (xs : List (ℕ × ℕ))
    → a ≤ b
    → All (λ (y : ℕ × ℕ). b ≤ y.0) xs
    → All (λ (y : ℕ × ℕ). a ≤ y.0) xs
All-le a b xs h =
    All-imp (λ (y : ℕ × ℕ). b ≤ y.0) (λ (y : ℕ × ℕ). a ≤ y.0) xs (λ y k. omega (arith, h, k))

insert-IsSorted : (x : ℕ × ℕ) (xs : List (ℕ × ℕ)) → IsSorted xs → IsSorted (insert_by_start x xs)
unfolding insert_by_start
insert-IsSorted x [] h = (tt, tt)
insert-IsSorted x (y ∷ ys) h = elim (Bool-cases (ltb y.0 x.0)) [
  | inl e ↦
      rw e (
        All-insert (λ (z : ℕ × ℕ). y.0 ≤ z.0) x ys (ground (arith, e)) h.0,
        insert-IsSorted x ys h.1,
      )
  | inr e ↦ let le : x.0 ≤ y.0 = ground (arith, e) in rw e ((le, All-le x.0 y.0 ys le h.0), h)
]

count-insert :
    (i : ℕ) (x : ℕ × ℕ) (xs : List (ℕ × ℕ))
    → count i (positions (insert_by_start x xs)) ≡ count i (positions (x ∷ xs))
unfolding insert_by_start
count-insert i x [] = refl
count-insert i x (y ∷ ys) = ground (arith, count-insert i x ys)

-- The functions are sorted by their starts, and none is lost or doubled.
pub sort_by_start-IsSorted :
    (i : ℕ) (xs : List (ℕ × ℕ))
    → IsSorted (sort_by_start xs)
      × (count i (positions (sort_by_start xs)) ≡ count i (positions xs))
unfolding sort_by_start
sort_by_start-IsSorted i [] = (tt, refl)
sort_by_start-IsSorted i (x ∷ xs) =
    let (sorted, same) = sort_by_start-IsSorted i xs in
    (
      insert-IsSorted x (sort_by_start xs) sorted,
      count-insert i x (sort_by_start xs) ∙ ground (arith, same),
    )
