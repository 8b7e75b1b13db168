-- ===== src/Rebuild/Validate/Ends.antt =====
-- The search of validateMove ends with the visited blocks.
use bin2llvm.Base.{
  ℕ, zero, suc, ◌+◌, ◌≤◌, false, List, [], ◌∷◌, ◌++◌, some, length, length-append, ◌≡◌, ◌≢◌, refl,
  ◌∙◌, ap, arith, inl, inr, Bool-cases, Option-cases, In, here, there, In-append-cases, ◌==◌,
  ==_iff,
}
use bin2llvm.Rebuild.Graph.{Node, elem, find_node, last_term, term_of}
use bin2llvm.Rebuild.Validate.{no_terminator, out_of_fuel, unseen, walk}

-- One more visited block leaves no more successors.
unseen-more : (h : ℕ) (seen : List ℕ) (ns : List Node) → unseen (h ∷ seen) ns ≤ unseen seen ns
unfolding unseen
unseen-more h seen [] = omega arith
unseen-more h seen (n ∷ ns) = elim (Option-cases (last_term n.terms)) [
  | inl e ↦ rw e (ground (arith, unseen-more h seen ns))
  | inr (ss, e) ↦ rw e (ground (arith, unseen-more h seen ns))
]

-- The successors of a block that is visited now are no longer counted.
unseen-visit :
    (h : ℕ) (ss seen : List ℕ) (ns : List Node)
    → elem h seen ≡ false
    → term_of h ns ≡ some ss
    → length ss + unseen (h ∷ seen) ns ≤ unseen seen ns
unfolding term_of find_node unseen
unseen-visit h ss seen [] f e = cc
unseen-visit h ss seen (n ∷ ns) f e = elim (Bool-cases (n.label == h)) [
  | inl y ↦
      let same : n.label ≡ h = (==_iff n.label h).0 y in
      let old : last_term n.terms ≡ some ss = rw y at e in
      rw (old, ap (λ x. elem x seen) same ∙ f) (ground (arith, unseen-more h seen ns, same))
  | inr m ↦
      let old : term_of h ns ≡ some ss = rw m at e in
      elim (Option-cases (last_term n.terms)) [
        | inl z ↦ rw z (ground (arith, unseen-visit h ss seen ns f old))
        | inr (ts, z) ↦ rw z (ground (arith, unseen-visit h ss seen ns f old))
      ]
]

module _ (ns : List Node) where
  pub walk_ends :
      (fuel : ℕ) (queue seen : List ℕ)
      → length queue + unseen seen ns ≤ fuel
      → walk ns fuel queue seen ≢ out_of_fuel
  unfolding walk
  walk_ends fuel [] seen h e = cc
  walk_ends zero (b ∷ queue) seen h e = omega arith
  walk_ends (suc fuel) (b ∷ queue) seen h e = elim (Bool-cases (elem b seen)) [
    | inl y ↦ walk_ends fuel queue seen (omega arith) (rw (y, walk) at e)
    | inr n ↦ elim (Option-cases (term_of b ns)) [
      | inl z ↦ cc (rw (n, z, walk) at e)
      | inr (ss, z) ↦
          walk_ends fuel (queue ++ ss) (b ∷ seen)
            (omega (arith, unseen-visit b ss seen ns n z, length-append queue ss))
            (rw (n, z, walk) at e)
    ]
  ]

  -- If the queue and the successors of all blocks have terminators, the search visits.
  pub walk_has_terms :
      (fuel : ℕ) (queue seen : List ℕ)
      → ((b : ℕ) → In b queue → (ss : List ℕ) × (term_of b ns ≡ some ss))
      → ((b c : ℕ) (ss : List ℕ)
          → term_of b ns ≡ some ss
          → In c ss
          → (ts : List ℕ) × (term_of c ns ≡ some ts))
      → walk ns fuel queue seen ≢ no_terminator
  unfolding walk
  walk_has_terms fuel [] seen q h e = cc
  walk_has_terms zero (b ∷ queue) seen q h e = cc
  walk_has_terms (suc fuel) (b ∷ queue) seen q h e = elim (Bool-cases (elem b seen)) [
    | inl y ↦ walk_has_terms fuel queue seen (λ c m. q c (there m)) h (rw (y, walk) at e)
    | inr n ↦
        let (ss, z) = q b (here refl) in
        walk_has_terms fuel (queue ++ ss) (b ∷ seen)
          (λ c m. elim (In-append-cases c queue ss m) [
            | inl k ↦ q c (there k)
            | inr k ↦ h b c ss z k
          ])
          h (rw (n, z, walk) at e)
  ]
