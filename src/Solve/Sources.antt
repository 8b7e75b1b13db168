-- ===== src/Solve/Sources.antt =====
-- Where the constants come from that the pass puts in place of values.
use bin2llvm.Base.{
  ℕ, true, List, [], ◌∷◌, none, some, String, map, if◌then◌else◌, ◌≡◌, refl, ◌∙◌, sym, ap, subst,
  arith, Bool-cases, Option-cases, inl, inr, ==_iff, ◌==◌, In, here, there, In-append-left,
  In-append-right,
}
use bin2llvm.Base.Map.{NatMap, find, insert, find-insert}
use bin2llvm.Base.Abort.{>>=-eq-some, some_inj}
use bin2llvm.Ir.{
  Value, const_int, inst_ref, global_var, cast_expr, other_value, Op, Inst, Block,
  ins_computed_value,
}
use bin2llvm.Hex.{hex}
use bin2llvm.Ir.Pc.{all_insts}
use bin2llvm.Memory.Loads.{used, used_op, used_inst}
use bin2llvm.Solve.{
  DirectStores, solved_at, known_store, performs_replace, performs_annotation, Solved,
  replace_value, solve, perform_store, perform_inst, perform_insts, perform_blocks, replaced,
}
use bin2llvm.Solve.Uses.{known_store-used, op-set_metadata}

-- The operations, block after block.
abbrev pub ops_of : List Block → List (List Op)
ops_of bs = map (λ (b : Block). map (λ (i : Inst). i.op) b.insts) bs

insts-used :
    (env : NatMap ℕ) (is : List Inst)
    → map (λ (i : Inst). i.op) (map (used_inst env) is)
      ≡ map (used_op env) (map (λ (i : Inst). i.op) is)
insts-used env [] = refl
insts-used env (i ∷ is) = rw (insts-used env is) refl

pub ops_of-replaced :
    (env : NatMap ℕ) (bs : List Block)
    → ops_of (map (replaced env) bs) ≡ map (map (used_op env)) (ops_of bs)
ops_of-replaced env [] = refl
ops_of-replaced env (b ∷ bs) = rw (insts-used env b.insts, ops_of-replaced env bs) refl

-- A value that is an instruction was it before.
used-ref : (env : NatMap ℕ) (v : Value) (n : ℕ) → used env v ≡ inst_ref n → v ≡ inst_ref n
unfolding used
used-ref env (const_int k) n e = e
used-ref env (inst_ref k) n e = elim (Option-cases (find k env)) [
  | inl z ↦ rw (z, used) at e
  | inr (c, z) ↦ absurd (let e' : const_int c ≡ inst_ref n = rw (z, used) at e in ground arith)
]
used-ref env (global_var g) n e = e
used-ref env (cast_expr c to) n e = e
used-ref env (other_value k) n e = e

module _ (ds : DirectStores) (l : List Inst) where
  -- One of the instructions stores the value n to PC or thumb, and the optimised code stores the
  -- constant c to it at the address of this instruction.
  abbrev pub Source : ℕ → ℕ → Type 0
  Source n c =
      (i : Inst) × (g : String) × (pc : ℕ) × In i l
      × (known_store i ≡ some (g, inst_ref n, pc))
      × (performs_replace g ≡ true)
      × (solved_at ds g pc ≡ some c)

  abbrev pub Sourced : NatMap ℕ → Type 0
  Sourced env = (n c : ℕ) → find n env ≡ some c → Source n c

  Sourced-insert : (n c : ℕ) (env : NatMap ℕ) → Source n c → Sourced env → Sourced (insert n c env)
  Sourced-insert n c env s h k d e = elim (Bool-cases (n == k)) [
    | inl y ↦
        let ek : n ≡ k = (==_iff n k).0 y in
        let ed : c ≡ d = some_inj (sym (find-insert n k c env ∙ rw y refl) ∙ e) in
        subst (λ x. Source x d) ek (subst (λ x. Source n x) ed s)
    | inr o ↦ h k d (sym (find-insert n k c env ∙ rw o refl) ∙ e)
  ]

  -- One step, which keeps the operation.
  abbrev Step : Inst → Solved × Inst → Type 0
  Step i r = Sourced r.0.env × (r.1.op ≡ i.op)

  replace_value-Sourced :
      (w : Value) (c : ℕ) (env env' : NatMap ℕ)
      → ((n : ℕ) → w ≡ inst_ref n → Source n c)
      → Sourced env
      → replace_value w c env ≡ some env'
      → Sourced env'
  replace_value-Sourced (inst_ref n) c env env' s h e =
      subst (λ (m : NatMap ℕ). Sourced m) (some_inj e) (Sourced-insert n c env (s n refl) h)
  replace_value-Sourced (const_int n) c env env' s h e = absurd (ground arith)
  replace_value-Sourced (global_var n) c env env' s h e = absurd (ground arith)
  replace_value-Sourced (cast_expr n to) c env env' s h e = absurd (ground arith)
  replace_value-Sourced (other_value n) c env env' s h e = absurd (ground arith)

  solve-Step :
      (g : String) (w : Value) (c : ℕ) (s : Solved) (i : Inst) (r : Solved × Inst)
      → (performs_replace g ≡ true → (n : ℕ) → w ≡ inst_ref n → Source n c)
      → Sourced s.env
      → solve g w c s i ≡ some r
      → Step i r
  unfolding solve
  solve-Step g w c s i r k h e = elim (Bool-cases (performs_replace g)) [
    | inl y ↦
        let (env, ev, e1) = >>=-eq-some (replace_value w c s.env) _ (rw (y, solve) at e) in
        subst (Step i) (some_inj e1) (
          replace_value-Sourced w c s.env env (k y) h ev,
          op-set_metadata i ins_computed_value (hex c),
        )
    | inr n ↦
        subst (Step i) (some_inj (rw (n, solve) at e))
          (h, op-set_metadata i ins_computed_value (hex c))
  ]

  searched-Step :
      (s : Solved) (i : Inst) (g : String) (w : Value) (pc : ℕ) (r : Solved × Inst)
      → In i l
      → ((n : ℕ) → w ≡ inst_ref n → known_store i ≡ some (g, inst_ref n, pc))
      → Sourced s.env
      → (if performs_annotation g
          then elim (solved_at ds g pc) [ none ↦ some (s, i) | some c ↦ solve g w c s i ]
          else some (s, i))
        ≡ some r
      → Step i r
  searched-Step s i g w pc r m k h e = elim (Bool-cases (performs_annotation g)) [
    | inl y ↦ elim (Option-cases (solved_at ds g pc)) [
      | inl z ↦ subst (Step i) (some_inj (rw (y, z) at e)) (h, refl)
      | inr (c, z) ↦ solve-Step g w c s i r (λ p n q. (i, g, pc, m, k n q, p, z)) h (rw (y, z) at e)
    ]
    | inr n ↦ subst (Step i) (some_inj (rw n at e)) (h, refl)
  ]

  perform_store-Step :
      (s : Solved) (i : Inst) (g : String) (w : Value) (pc : ℕ) (r : Solved × Inst)
      → In i l
      → ((n : ℕ) → w ≡ inst_ref n → known_store i ≡ some (g, inst_ref n, pc))
      → Sourced s.env
      → perform_store ds s i (g, w, pc) ≡ some r
      → Step i r
  unfolding perform_store
  perform_store-Step s i g (const_int n) pc r m k h e = subst (Step i) (some_inj e) (h, refl)
  perform_store-Step s i g (inst_ref n) pc r m k h e = searched-Step s i g (inst_ref n) pc r m k h e
  perform_store-Step s i g (global_var n) pc r m k h e =
      searched-Step s i g (global_var n) pc r m k h e
  perform_store-Step s i g (cast_expr n to) pc r m k h e =
      searched-Step s i g (cast_expr n to) pc r m k h e
  perform_store-Step s i g (other_value n) pc r m k h e =
      searched-Step s i g (other_value n) pc r m k h e

  perform_inst-Step :
      (s : Solved) (i : Inst) (r : Solved × Inst)
      → In i l
      → Sourced s.env
      → perform_inst ds s i ≡ some r
      → Step i r
  unfolding perform_inst
  perform_inst-Step s i r m h e = elim (Option-cases (known_store i)) [
    | inl z ↦
        subst (Step i) (some_inj (rw (perform_inst, known_store-used s.env i, z) at e)) (h, refl)
    | inr ((g, v, pc), z) ↦
        perform_store-Step s i g (used s.env v) pc r m
          (λ n q. z ∙ ap (λ (x : Value). some (g, x, pc)) (used-ref s.env v n q)) h
          (rw (perform_inst, known_store-used s.env i, z) at e)
  ]

  perform_insts-Sourced :
      (s : Solved) (is : List Inst) (r : Solved × List Inst)
      → ((i : Inst) → In i is → In i l)
      → Sourced s.env
      → perform_insts ds s is ≡ some r
      → Sourced r.0.env × (map (λ (i : Inst). i.op) r.1 ≡ map (λ (i : Inst). i.op) is)
  unfolding perform_insts
  perform_insts-Sourced s [] r m h e =
      subst (λ (x : Solved × List Inst). Sourced x.0.env × (map (λ (i : Inst). i.op) x.1 ≡ []))
        (some_inj e) (h, refl)
  perform_insts-Sourced s (i ∷ is) r m h e =
      let (x, ex, e1) = >>=-eq-some (perform_inst ds s i) _ e in
      let (rest, er, e2) = >>=-eq-some (perform_insts ds x.0 is) _ e1 in
      let (sourced, same) = perform_inst-Step s i x (m i (here refl)) h ex in
      let (more, others) = perform_insts-Sourced x.0 is rest (λ j k. m j (there k)) sourced er in
      subst
        (λ (y : Solved × List Inst).
          Sourced y.0.env × (map (λ (i : Inst). i.op) y.1 ≡ map (λ (i : Inst). i.op) (i ∷ is)))
        (some_inj e2) (more, rw (same, others) refl)

  pub perform_blocks-Sourced :
      (s : Solved) (bs : List Block) (r : Solved × List Block)
      → ((i : Inst) → In i (all_insts bs) → In i l)
      → Sourced s.env
      → perform_blocks ds s bs ≡ some r
      → Sourced r.0.env × (ops_of r.1 ≡ ops_of bs)
  unfolding perform_blocks
  perform_blocks-Sourced s [] r m h e =
      subst (λ (x : Solved × List Block). Sourced x.0.env × (ops_of x.1 ≡ [])) (some_inj e)
        (h, refl)
  perform_blocks-Sourced s (b ∷ bs) r m h e =
      let (x, ex, e1) = >>=-eq-some (perform_insts ds s b.insts) _ e in
      let (rest, er, e2) = >>=-eq-some (perform_blocks ds x.0 bs) _ e1 in
      let (sourced, same) =
        perform_insts-Sourced s b.insts x (λ i k. m i (In-append-left i b.insts (all_insts bs) k)) h
          ex in
      let (more, others) =
        perform_blocks-Sourced x.0 bs rest (λ i k. m i (In-append-right i b.insts (all_insts bs) k))
          sourced er in
      subst (λ (y : Solved × List Block). Sourced y.0.env × (ops_of y.1 ≡ ops_of (b ∷ bs)))
        (some_inj e2) (more, rw (same, others) refl)
