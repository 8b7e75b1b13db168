-- ===== src/Rebuild/Validate/Led.antt =====
-- What the search of validateMove visits, and what it answers.
use bin2llvm.Base.{
  ℕ, zero, suc, true, false, List, [], ◌∷◌, ◌++◌, some, ◌≡◌, ◌≢◌, ◌⊎◌, refl, ◌∙◌, sym, ap, subst,
  arith, inl, inr, Bool-cases, Option-cases, In, here, there, In-append-cases, In-cons, ◌==◌,
  not-In-nil,
}
use bin2llvm.Base.Abort.{some_inj, >>=-eq-some}
use bin2llvm.Rebuild.Graph.{Node, elem, uses, uses_in, find_node, last_term, term_of}
use bin2llvm.Rebuild.Validate.{
  Walk, visited, no_terminator, out_of_fuel, unseen, walk, closed, verdict, validate_move,
}
use bin2llvm.Rebuild.Validate.Ends.{walk_ends, walk_has_terms}
use bin2llvm.Rebuild.Validate.Enclosed.{or-right, In-elem, elem-In, Leads, closed-Leads}

abbrev seen_of : Walk → List ℕ
seen_of (visited seen) = seen
seen_of no_terminator = []
seen_of out_of_fuel = []

module _ (ns : List Node) where
  -- Each visited block is the first one or a successor of a block.
  abbrev Used : ℕ → ℕ → Type 0
  Used b x = (x ≡ b) ⊎ ((n : Node) × In n ns × (uses x n ≡ true))

  find_node-In : (l : ℕ) (n : Node) (ms : List Node) → find_node l ms ≡ some n → In n ms
  unfolding find_node
  find_node-In l n [] e = cc
  find_node-In l n (x ∷ ms) e = elim (Bool-cases (x.label == l)) [
    | inl y ↦ here (sym (some_inj (rw y at e)))
    | inr o ↦ there (find_node-In l n ms (rw o at e))
  ]

  last_term-uses_in :
      (x : ℕ) (ss : List ℕ) (ts : List (List ℕ))
      → last_term ts ≡ some ss
      → In x ss
      → uses_in x ts ≡ true
  unfolding last_term
  last_term-uses_in x ss [] e m = cc
  last_term-uses_in x ss (t ∷ []) e m =
      let k : elem x t ≡ true = In-elem x t (subst (In x) (sym (some_inj e)) m) in rw k refl
  last_term-uses_in x ss (t ∷ u ∷ ts) e m =
      let k = last_term-uses_in x ss (u ∷ ts) e m in or-right (elem x t) _ k

  term_of-uses :
      (b x : ℕ) (ss : List ℕ)
      → term_of b ns ≡ some ss
      → In x ss
      → (n : Node) × In n ns × (uses x n ≡ true)
  unfolding term_of
  term_of-uses b x ss e m =
      let (n, at_n, t) = >>=-eq-some (find_node b ns) (λ n. last_term n.terms) e in
      (n, find_node-In b n ns at_n, last_term-uses_in x ss n.terms t m)

  -- What is visited stays visited.
  walk-keeps :
      (fuel : ℕ) (queue seen res : List ℕ) (x : ℕ)
      → walk ns fuel queue seen ≡ visited res
      → elem x seen ≡ true
      → elem x res ≡ true
  unfolding walk
  walk-keeps fuel [] seen res x h k = subst (λ l. elem x l ≡ true) (ap seen_of h) k
  walk-keeps zero (b ∷ queue) seen res x h k = cc
  walk-keeps (suc fuel) (b ∷ queue) seen res x h k = elim (Bool-cases (elem b seen)) [
    | inl y ↦ walk-keeps fuel queue seen res x (rw (y, walk) at h) k
    | inr n ↦ elim (Option-cases (term_of b ns)) [
      | inl z ↦ cc (rw (n, z, walk) at h)
      | inr (ss, z) ↦
          walk-keeps fuel (queue ++ ss) (b ∷ seen) res x (rw (n, z, walk) at h)
            (or-right (b == x) (elem x seen) k)
    ]
  ]

  -- Only the first block and what blocks lead to is visited.
  walk-Used :
      (a : ℕ) (fuel : ℕ) (queue seen res : List ℕ)
      → walk ns fuel queue seen ≡ visited res
      → ((x : ℕ) → In x queue → Used a x)
      → ((x : ℕ) → In x seen → Used a x)
      → (x : ℕ) → In x res
      → Used a x
  unfolding walk
  walk-Used a fuel [] seen res h q k x m = k x (subst (In x) (sym (ap seen_of h)) m)
  walk-Used a zero (b ∷ queue) seen res h q k x m = cc
  walk-Used a (suc fuel) (b ∷ queue) seen res h q k x m = elim (Bool-cases (elem b seen)) [
    | inl y ↦ walk-Used a fuel queue seen res (rw (y, walk) at h) (λ z i. q z (there i)) k x m
    | inr n ↦ elim (Option-cases (term_of b ns)) [
      | inl z ↦ cc (rw (n, z, walk) at h)
      | inr (ss, z) ↦
          walk-Used a fuel (queue ++ ss) (b ∷ seen) res (rw (n, z, walk) at h)
            (λ y i. elim (In-append-cases y queue ss i) [
              | inl j ↦ q y (there j)
              | inr j ↦ inr (term_of-uses b y ss z j)
            ])
            (λ y i. elim (In-cons y b seen i) [ inl e ↦ q y (here e) | inr j ↦ k y j ]) x m
    ]
  ]

  -- The search visits.
  walk-first :
      (b : ℕ) (res : List ℕ)
      → walk ns (suc (unseen [] ns)) (b ∷ []) [] ≡ visited res
      → elem b res ≡ true
  unfolding walk
  walk-first b res h = elim (Option-cases (term_of b ns)) [
    | inl z ↦ cc (rw (z, walk) at h)
    | inr (ss, z) ↦
        walk-keeps (unseen [] ns) ss (b ∷ []) res b (rw (z, walk) at h)
          (In-elem b (b ∷ []) (here refl))
  ]

  -- An enclosed set has no block without users but the first one.
  not-closed :
      (e b : ℕ) (res : List ℕ)
      → ((n : Node) → In n ns → uses e n ≡ false)
      → e ≢ b
      → Leads ns e b
      → walk ns (suc (unseen [] ns)) (b ∷ []) [] ≡ visited res
      → closed res res ns ≢ true
  not-closed e b res unused differ l h c =
      let inside = closed-Leads ns res e b c (walk-first b res h) l in
      elim (walk-Used b (suc (unseen [] ns)) (b ∷ []) [] res h
        (λ x i. elim (In-cons x b [] i) [ inl y ↦ inl y | inr j ↦ absurd (not-In-nil x j) ])
        (λ x i. absurd (not-In-nil x i)) e (elem-In e res inside)) [
          | inl same ↦ differ same
          | inr (n, m, u) ↦ cc (unused n m, u)
        ]

  verdict-false :
      (w : Walk)
      → w ≢ out_of_fuel
      → w ≢ no_terminator
      → ((seen : List ℕ) → w ≡ visited seen → closed seen seen ns ≢ true)
      → verdict ns w ≡ some false
  verdict-false (visited seen) f t c = elim (Bool-cases (closed seen seen ns)) [
    | inl y ↦ absurd (c seen refl y)
    | inr n ↦ ap some n
  ]
  verdict-false no_terminator f t c = absurd (t refl)
  verdict-false out_of_fuel f t c = absurd (f refl)

  -- If a block without uses leads to another block, and the successors of all blocks have terminators,
  -- validateMove ends and refuses to move the other block.
  pub validate_move-Leads :
      (e b : ℕ)
      → ((n : Node) → In n ns → uses e n ≡ false)
      → e ≢ b
      → Leads ns e b
      → ((ss : List ℕ) × (term_of b ns ≡ some ss))
      → ((a c : ℕ) (ss : List ℕ)
          → term_of a ns ≡ some ss
          → In c ss
          → (ts : List ℕ) × (term_of c ns ≡ some ts))
      → validate_move ns b ≡ some false
  unfolding validate_move
  validate_move-Leads e b unused differ l first all =
      let w = walk ns (suc (unseen [] ns)) (b ∷ []) [] in
      verdict-false w (walk_ends ns (suc (unseen [] ns)) (b ∷ []) [] (omega arith))
        (walk_has_terms ns (suc (unseen [] ns)) (b ∷ []) []
          (λ c i. elim (In-cons c b [] i) [
            | inl y ↦ (first.0, ap (λ x. term_of x ns) y ∙ first.1)
            | inr j ↦ absurd (not-In-nil c j)
          ])
          all)
        (λ res h. not-closed e b res unused differ l h)
