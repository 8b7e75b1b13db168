-- ===== src/Rebuild/Validate/Enclosed.antt =====
-- What the closed sets of validateMove enclose.
use bin2llvm.Base.{
  ℕ, Bool, true, false, not, ◌&&◌, ◌||◌, List, [], ◌∷◌, ◌≡◌, refl, ◌∙◌, sym, ap, inl, inr,
  Bool-cases, In, here, there, In-cons, ◌==◌, ==_iff, not-In-nil,
}
use bin2llvm.Rebuild.Graph.{Node, elem, uses}
use bin2llvm.Rebuild.Validate.{closed_at, closed}

pub and-left : (a b : Bool) → (a && b) ≡ true → a ≡ true
and-left true b e = refl
and-left false b e = cc

pub and-right : (a b : Bool) → (a && b) ≡ true → b ≡ true
and-right true b e = e
and-right false b e = cc

pub or-right : (a b : Bool) → b ≡ true → (a || b) ≡ true
or-right true b e = refl
or-right false b e = e

pub In-elem : (x : ℕ) (xs : List ℕ) → In x xs → elem x xs ≡ true
In-elem x [] m = absurd (not-In-nil x m)
In-elem x (y ∷ ys) m = elim (In-cons x y ys m) [
  | inl e ↦ let k : (y == x) ≡ true = (==_iff y x).1 (sym e) in rw k refl
  | inr k ↦ or-right (y == x) (elem x ys) (In-elem x ys k)
]

pub elem-In : (x : ℕ) (xs : List ℕ) → elem x xs ≡ true → In x xs
elem-In x [] e = cc
elem-In x (y ∷ ys) e = elim (Bool-cases (y == x)) [
  | inl h ↦ here (sym ((==_iff y x).0 h))
  | inr o ↦ there (elem-In x ys (rw o at e))
]

module _ (ns : List Node) where
  -- The terminators of the blocks lead from the first block to the second one.
  pub data Leads (e : ℕ) : ℕ → Type 0 where
    nowhere : Leads e e
    further : {b : ℕ} {n : Node} → In n ns → uses b n ≡ true → Leads e n.label → Leads e b

  -- A user of an enclosed block.
  seen_at :
      (seen : List ℕ) (b : ℕ) (n : Node)
      → uses b n ≡ true
      → (not (uses b n) || elem n.label seen) ≡ true
      → elem n.label seen ≡ true
  seen_at seen b n u h = rw u at h

  closed_at-elem :
      (seen : List ℕ) (b : ℕ) (n : Node) (ms : List Node)
      → closed_at seen b ms ≡ true
      → In n ms
      → uses b n ≡ true
      → elem n.label seen ≡ true
  closed_at-elem seen b n [] h m u = absurd (not-In-nil n m)
  closed_at-elem seen b n (x ∷ ms) h m u = elim (In-cons n x ms m) [
    | inl e ↦
        let at_x : uses b x ≡ true = sym (ap (uses b) e) ∙ u in
        ap (λ (y : Node). elem y.label seen) e ∙ seen_at seen b x at_x (and-left _ _ h)
    | inr k ↦ closed_at-elem seen b n ms (and-right _ _ h) k u
  ]

  closed-elem :
      (seen bs : List ℕ) (b : ℕ) (n : Node)
      → closed seen bs ns ≡ true
      → elem b bs ≡ true
      → In n ns
      → uses b n ≡ true
      → elem n.label seen ≡ true
  closed-elem seen [] b n h k m u = cc
  closed-elem seen (x ∷ bs) b n h k m u = elim (Bool-cases (x == b)) [
    | inl y ↦
        let e : x ≡ b = (==_iff x b).0 y in
        closed_at-elem seen b n ns (ap (λ z. closed_at seen z ns) (sym e) ∙ and-left _ _ h) m u
    | inr o ↦ closed-elem seen bs b n (and-right _ _ h) (rw o at k) m u
  ]

  -- What leads into an enclosed set is in it.
  pub closed-Leads :
      (seen : List ℕ) (e b : ℕ)
      → closed seen seen ns ≡ true
      → elem b seen ≡ true
      → Leads e b
      → elem e seen ≡ true
  closed-Leads seen e b h k nowhere = k
  closed-Leads seen e _ h k (further {b} {n} m u l) =
      closed-Leads seen e n.label h (closed-elem seen seen b n h k m u) l
