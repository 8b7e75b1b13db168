-- ===== src/Solve/Returns.antt =====
-- The pass ends with a result.
use bin2llvm.Base.{
  ℕ, Bool, true, false, List, [], ◌∷◌, Option, none, some, String, ◌≡◌, refl, ap, ◌∙◌, All,
  Bool-cases, Option-cases, inl, inr, map,
}
use bin2llvm.Base.Map.{NatMap, find}
use bin2llvm.Ir.{
  Value, const_int, inst_ref, global_var, cast_expr, other_value, Inst, Block, Function,
}
use bin2llvm.Ir.Pc.{is_some, all_insts}
use bin2llvm.Memory.Loads.{used, used_op}
use bin2llvm.Solve.{
  DirectStores, solved_at, known_store, performs_replace, performs_annotation, Solved, solve,
  perform_store, perform_inst, perform_insts, perform_blocks, perform_annotations, replaced,
}
use bin2llvm.Solve.Uses.{known_store-used}
use bin2llvm.Solve.Sources.{Sourced, ops_of, ops_of-replaced, perform_blocks-Sourced}
use bin2llvm.Solve.Settled.{Settled, perform_annotations-Settled}

-- The value of a store is a number or an instruction, no constant expression.
abbrev pub is_plain : Value → Bool
is_plain (const_int n) = true
is_plain (inst_ref n) = true
is_plain (global_var g) = false
is_plain (cast_expr c to) = false
is_plain (other_value n) = false

abbrev pub PlainStore : Inst → Type 0
PlainStore i =
    (g : String) (v : Value) (pc : ℕ) → known_store i ≡ some (g, v, pc) → is_plain v ≡ true

used-is_plain : (env : NatMap ℕ) (v : Value) → is_plain v ≡ true → is_plain (used env v) ≡ true
unfolding used
used-is_plain env (const_int n) h = refl
used-is_plain env (inst_ref n) h = elim (Option-cases (find n env)) [
  | inl e ↦ rw (e, used) refl
  | inr (c, e) ↦ rw (e, used) refl
]
used-is_plain env (global_var n) h = cc
used-is_plain env (cast_expr n to) h = cc
used-is_plain env (other_value n) h = cc

-- A result is there.
of_is_some {ℓ} : {A : Type ℓ} (o : Option A) → is_some o ≡ true → (a : A) × (o ≡ some a)
of_is_some none h = cc
of_is_some (some a) h = (a, refl)

solve-is_some :
    (g : String) (n c : ℕ) (s : Solved) (i : Inst) → is_some (solve g (inst_ref n) c s i) ≡ true
unfolding solve
solve-is_some g n c s i = elim (Bool-cases (performs_replace g)) [
  | inl y ↦ rw (solve, y) refl
  | inr o ↦ rw (solve, o) refl
]

module _ (ds : DirectStores) where
  perform_store-is_some :
      (s : Solved) (i : Inst) (g : String) (v : Value) (pc : ℕ)
      → is_plain v ≡ true
      → is_some (perform_store ds s i (g, v, pc)) ≡ true
  unfolding perform_store
  perform_store-is_some s i g (const_int n) pc h = refl
  perform_store-is_some s i g (inst_ref n) pc h = elim (Bool-cases (performs_annotation g)) [
    | inr o ↦ rw o refl
    | inl y ↦ elim (Option-cases (solved_at ds g pc)) [
      | inl z ↦ rw (y, z) refl
      | inr (c, z) ↦ rw (y, z) (solve-is_some g n c s i)
    ]
  ]
  perform_store-is_some s i g (global_var n) pc h = cc
  perform_store-is_some s i g (cast_expr n to) pc h = cc
  perform_store-is_some s i g (other_value n) pc h = cc

  perform_inst-is_some :
      (s : Solved) (i : Inst) → PlainStore i → is_some (perform_inst ds s i) ≡ true
  unfolding perform_inst
  perform_inst-is_some s i h = elim (Option-cases (known_store i)) [
    | inl z ↦ rw (perform_inst, known_store-used s.env i, z) refl
    | inr ((g, v, pc), z) ↦
        rw (perform_inst, known_store-used s.env i, z)
          (perform_store-is_some s i g (used s.env v) pc (used-is_plain s.env v (h g v pc z)))
  ]

  perform_insts-returns :
      (s : Solved) (is : List Inst)
      → All PlainStore is
      → (r : Solved × List Inst) × (perform_insts ds s is ≡ some r)
  unfolding perform_insts
  perform_insts-returns s [] h = ((s, []), refl)
  perform_insts-returns s (i ∷ is) (h, hs) =
      let (x, ex) = of_is_some (perform_inst ds s i) (perform_inst-is_some s i h) in
      let (rest, er) = perform_insts-returns x.0 is hs in ((rest.0, x.1 ∷ rest.1), rw (ex, er) refl)

  perform_blocks-returns :
      (s : Solved) (bs : List Block)
      → All (λ (b : Block). All PlainStore b.insts) bs
      → (r : Solved × List Block) × (perform_blocks ds s bs ≡ some r)
  unfolding perform_blocks
  perform_blocks-returns s [] h = ((s, []), refl)
  perform_blocks-returns s (b ∷ bs) (h, hs) =
      let (x, ex) = perform_insts-returns s b.insts h in
      let (rest, er) = perform_blocks-returns x.0 bs hs in
      ((rest.0, record b { insts = x.1 } ∷ rest.1), rw (ex, er) refl)

  -- What the pass makes of a function: some values of instructions are constants, of which each comes
  -- from a store, and nothing else of the operations has changed.
  abbrev pub IsSolved : Function → Function → Type 0
  IsSolved f g =
      (env : NatMap ℕ) × Sourced ds (all_insts f.blocks) env
      × (ops_of g.blocks ≡ map (map (used_op env)) (ops_of f.blocks))
      × All (λ (b : Block). All (Settled ds) b.insts) g.blocks

  -- If the stores with known addresses store numbers or instructions, the pass ends. Its result has
  -- the operations of the function, where the values of some instructions are constants: each such
  -- constant is one that the optimised code stores to PC or thumb at the address of an instruction
  -- which stores this value there. Afterwards each store to PC or thumb at an address for which the
  -- optimised code stores a constant stores a constant; where two such stores share a value, it is
  -- the constant of one of them.
  pub perform_annotations-returns :
      (pcs : List ℕ) (f : Function)
      → All (λ (b : Block). All PlainStore b.insts) f.blocks
      → (r : Function × List ℕ × Bool) × (perform_annotations ds pcs f ≡ some r) × IsSolved f r.0
  unfolding perform_annotations
  perform_annotations-returns pcs f h =
      let s : Solved = record { env = []; pcs = pcs; changed = false } in
      let (x, ex) = perform_blocks-returns s f.blocks h in
      let r : Function × List ℕ × Bool =
        (record f { blocks = map (replaced x.0.env) x.1 }, x.0.pcs, x.0.changed) in
      let e : perform_annotations ds pcs f ≡ some r = rw ex refl in
      let (sourced, same) =
        perform_blocks-Sourced ds (all_insts f.blocks) s f.blocks x (λ i m. m) (λ n c z. cc) ex in
      (
        r,
        e,
        (
          x.0.env,
          sourced,
          ops_of-replaced x.0.env x.1 ∙ ap (map (map (used_op x.0.env))) same,
          perform_annotations-Settled ds pcs f r e,
        ),
      )
