-- ===== src/Solve/Settled.antt =====
-- What the pass leaves of the stores that it can solve.
use bin2llvm.Base.{
  ℕ, Bool, true, false, List, [], ◌∷◌, none, some, String, if◌then◌else◌, ◌≡◌, refl, ◌∙◌, sym, ap,
  subst, arith, All, All-map, All-imp, Bool-cases, Option-cases, inl, inr, ==_iff,
}
use bin2llvm.Base.Map.{NatMap, find, insert, find-insert}
use bin2llvm.Base.Abort.{>>=-eq-some, some_inj}
use bin2llvm.Ir.{
  Value, const_int, inst_ref, global_var, cast_expr, other_value, Inst, Block, Function,
}
use bin2llvm.Ir.Pc.{as_const, is_some}
use bin2llvm.Memory.Loads.{used, used_inst}
use bin2llvm.Solve.{
  DirectStores, solved_at, known_store, performs_replace, performs_annotation, Solved,
  replace_value, solve, perform_store, perform_inst, perform_insts, perform_blocks,
  perform_annotations, replaced,
}
use bin2llvm.Solve.Uses.{
  Grows-insert, used-const, known_store-used, known_store-set_metadata, used-used, Grows_refl,
  Grows_trans, Grows, use_known,
}

-- The value of a store to PC or thumb at an address where a constant is known is a constant.
abbrev pub Settled : DirectStores → Inst → Type 0
Settled ds i =
    (g : String) (v : Value) (pc c : ℕ)
    → known_store i ≡ some (g, v, pc)
    → performs_replace g ≡ true
    → solved_at ds g pc ≡ some c
    → is_some (as_const v) ≡ true

replace_value-Grows :
    (w : Value) (c : ℕ) (env env' : NatMap ℕ)
    → replace_value w c env ≡ some env'
    → Grows env env' × (is_some (as_const (used env' w)) ≡ true)
unfolding used
replace_value-Grows (inst_ref n) c env env' e =
    let same : insert n c env ≡ env' = some_inj e in
    let found : find n (insert n c env) ≡ some c =
      find-insert n n c env ∙ rw ((==_iff n n).1 refl) refl in
    subst (λ m. Grows env m × (is_some (as_const (used m (inst_ref n))) ≡ true)) same
      (Grows-insert n c env, rw (used, found) refl)
replace_value-Grows (const_int n) c env env' e = absurd (ground arith)
replace_value-Grows (global_var n) c env env' e = absurd (ground arith)
replace_value-Grows (cast_expr n to) c env env' e = absurd (ground arith)
replace_value-Grows (other_value n) c env env' e = absurd (ground arith)

-- One step keeps the replacements and the stores, and settles a store of this value.
abbrev Kept : NatMap ℕ → Inst → String → Value → Solved × Inst → Type 0
Kept env i g w r =
    Grows env r.0.env
    × (known_store r.1 ≡ known_store i)
    × (performs_replace g ≡ true → is_some (as_const (used r.0.env w)) ≡ true)

solve-Kept :
    (g : String) (w : Value) (c : ℕ) (s : Solved) (i : Inst) (r : Solved × Inst)
    → solve g w c s i ≡ some r
    → Kept s.env i g w r
unfolding solve
solve-Kept g w c s i r e = elim (Bool-cases (performs_replace g)) [
  | inl y ↦
      let (env, ev, e1) = >>=-eq-some (replace_value w c s.env) _ (rw (y, solve) at e) in
      let (grows, settled) = replace_value-Grows w c s.env env ev in
      subst (Kept s.env i g w) (some_inj e1) (grows, known_store-set_metadata i c, λ _. settled)
  | inr n ↦
      subst (Kept s.env i g w) (some_inj (rw (n, solve) at e))
        (Grows_refl s.env, known_store-set_metadata i c, λ y. cc (n, y))
]

module _ (ds : DirectStores) where
  abbrev KeptAt : NatMap ℕ → Inst → String × Value × ℕ → Solved × Inst → Type 0
  KeptAt env i (g, w, pc) r =
      Grows env r.0.env
      × (known_store r.1 ≡ known_store i)
      × ((c : ℕ)
          → performs_replace g ≡ true
          → solved_at ds g pc ≡ some c
          → is_some (as_const (used r.0.env w)) ≡ true)

  searched :
      (s : Solved) (i : Inst) (g : String) (w : Value) (pc : ℕ) (r : Solved × Inst)
      → (if performs_annotation g
          then elim (solved_at ds g pc) [ none ↦ some (s, i) | some c ↦ solve g w c s i ]
          else some (s, i))
        ≡ some r
      → KeptAt s.env i (g, w, pc) r
  searched s i g w pc r e = elim (Bool-cases (performs_annotation g)) [
    | inl y ↦ elim (Option-cases (solved_at ds g pc)) [
      | inl z ↦
          subst (KeptAt s.env i (g, w, pc)) (some_inj (rw (y, z) at e))
            (Grows_refl s.env, refl, λ c p q. cc (z, q))
      | inr (c, z) ↦ let (a, b, k) = solve-Kept g w c s i r (rw (y, z) at e) in (a, b, λ d p q. k p)
    ]
    | inr n ↦
        subst (KeptAt s.env i (g, w, pc)) (some_inj (rw n at e))
          (Grows_refl s.env, refl, λ c p q. absurd (ground (arith, n, p)))
  ]

  perform_store-KeptAt :
      (s : Solved) (i : Inst) (k : String × Value × ℕ) (r : Solved × Inst)
      → perform_store ds s i k ≡ some r
      → KeptAt s.env i k r
  unfolding perform_store used
  perform_store-KeptAt s i (g, const_int n, pc) r e =
      subst (KeptAt s.env i (g, const_int n, pc)) (some_inj e)
        (Grows_refl s.env, refl, λ c p q. refl)
  perform_store-KeptAt s i (g, inst_ref n, pc) r e = searched s i g (inst_ref n) pc r e
  perform_store-KeptAt s i (g, global_var n, pc) r e = searched s i g (global_var n) pc r e
  perform_store-KeptAt s i (g, cast_expr n to, pc) r e = searched s i g (cast_expr n to) pc r e
  perform_store-KeptAt s i (g, other_value n, pc) r e = searched s i g (other_value n) pc r e

  -- The store of an instruction is settled by the replacements.
  abbrev SettledBy : NatMap ℕ → Inst → Type 0
  SettledBy env i = Settled ds (used_inst env i)

  SettledBy-none : (env : NatMap ℕ) (i : Inst) → known_store i ≡ none → SettledBy env i
  SettledBy-none env i e g v pc c k p q = cc (sym k ∙ known_store-used env i ∙ ap (use_known env) e)

  SettledBy-some :
      (env : NatMap ℕ) (i : Inst) (g : String) (v : Value) (pc : ℕ)
      → known_store i ≡ some (g, v, pc)
      → ((c : ℕ)
          → performs_replace g ≡ true
          → solved_at ds g pc ≡ some c
          → is_some (as_const (used env v)) ≡ true)
      → SettledBy env i
  SettledBy-some env i g v pc e settled h w pc' c k p q =
      let same : (g, used env v, pc) ≡ (h, w, pc') =
        some_inj (sym (known_store-used env i ∙ ap (use_known env) e) ∙ k) in
      let eg : g ≡ h = ap (λ (x : String × Value × ℕ). x.0) same in
      let ew : used env v ≡ w = ap (λ (x : String × Value × ℕ). x.1) same in
      let ep : pc ≡ pc' = ap (λ (x : String × Value × ℕ). x.2) same in
      sym (ap (λ x. is_some (as_const x)) ew)
      ∙ settled c (ap performs_replace eg ∙ p)
          (ap (λ x. solved_at ds x pc) eg ∙ ap (solved_at ds h) ep ∙ q)

  perform_inst-SettledBy :
      (s : Solved) (i : Inst) (r : Solved × Inst)
      → perform_inst ds s i ≡ some r
      → Grows s.env r.0.env × SettledBy r.0.env r.1
  unfolding perform_inst
  perform_inst-SettledBy s i r e = elim (Option-cases (known_store i)) [
    | inl z ↦
        let e' = rw (perform_inst, known_store-used s.env i, z) at e in
        subst (λ (x : Solved × Inst). Grows s.env x.0.env × SettledBy x.0.env x.1) (some_inj e')
          (Grows_refl s.env, SettledBy-none s.env i z)
    | inr ((g, v, pc), z) ↦
        let e' = rw (perform_inst, known_store-used s.env i, z) at e in
        let (grows, kept, settled) = perform_store-KeptAt s i (g, used s.env v, pc) r e' in
        (
          grows,
          SettledBy-some r.0.env r.1 g v pc (kept ∙ z)
              (λ c p q. used-used s.env r.0.env v grows (settled c p q)),
        )
  ]

  SettledBy-Grows :
      (env env' : NatMap ℕ) (i : Inst) → Grows env env' → SettledBy env i → SettledBy env' i
  SettledBy-Grows env env' i grows h = elim (Option-cases (known_store i)) [
    | inl z ↦ SettledBy-none env' i z
    | inr ((g, v, pc), z) ↦ SettledBy-some env' i g v pc z (λ c p q.
        used-const env env' v grows
          (h g (used env v) pc c (known_store-used env i ∙ ap (use_known env) z) p q))
  ]

  perform_insts-SettledBy :
      (s : Solved) (is : List Inst) (r : Solved × List Inst)
      → perform_insts ds s is ≡ some r
      → Grows s.env r.0.env × All (SettledBy r.0.env) r.1
  unfolding perform_insts
  perform_insts-SettledBy s [] r e =
      subst (λ (x : Solved × List Inst). Grows s.env x.0.env × All (SettledBy x.0.env) x.1)
        (some_inj e) (Grows_refl s.env, tt)
  perform_insts-SettledBy s (i ∷ is) r e =
      let (x, ex, e1) = >>=-eq-some (perform_inst ds s i) _ e in
      let (rest, er, e2) = >>=-eq-some (perform_insts ds x.0 is) _ e1 in
      let (grows, settled) = perform_inst-SettledBy s i x ex in
      let (more, all) = perform_insts-SettledBy x.0 is rest er in
      subst (λ (y : Solved × List Inst). Grows s.env y.0.env × All (SettledBy y.0.env) y.1)
        (some_inj e2)
        (
          Grows_trans s.env x.0.env rest.0.env grows more,
          (SettledBy-Grows x.0.env rest.0.env x.1 more settled, all),
        )

  perform_blocks-SettledBy :
      (s : Solved) (bs : List Block) (r : Solved × List Block)
      → perform_blocks ds s bs ≡ some r
      → Grows s.env r.0.env × All (λ (b : Block). All (SettledBy r.0.env) b.insts) r.1
  unfolding perform_blocks
  perform_blocks-SettledBy s [] r e =
      subst
        (λ (x : Solved × List Block).
          Grows s.env x.0.env × All (λ (b : Block). All (SettledBy x.0.env) b.insts) x.1)
        (some_inj e) (Grows_refl s.env, tt)
  perform_blocks-SettledBy s (b ∷ bs) r e =
      let (x, ex, e1) = >>=-eq-some (perform_insts ds s b.insts) _ e in
      let (rest, er, e2) = >>=-eq-some (perform_blocks ds x.0 bs) _ e1 in
      let (grows, settled) = perform_insts-SettledBy s b.insts x ex in
      let (more, all) = perform_blocks-SettledBy x.0 bs rest er in
      subst
        (λ (y : Solved × List Block).
          Grows s.env y.0.env × All (λ (c : Block). All (SettledBy y.0.env) c.insts) y.1)
        (some_inj e2)
        (
          Grows_trans s.env x.0.env rest.0.env grows more,
          (
            All-imp (SettledBy x.0.env) (SettledBy rest.0.env) x.1
                (λ i. SettledBy-Grows x.0.env rest.0.env i more) settled,
            all,
          ),
        )

  -- Where the pass succeeds, each store to PC or thumb with an address for which the optimised code
  -- stores a constant stores a constant afterwards.
  pub perform_annotations-Settled :
      (pcs : List ℕ) (f : Function) (r : Function × List ℕ × Bool)
      → perform_annotations ds pcs f ≡ some r
      → All (λ (b : Block). All (Settled ds) b.insts) r.0.blocks
  unfolding perform_annotations
  perform_annotations-Settled pcs f r e =
      let s : Solved = record { env = []; pcs = pcs; changed = false } in
      let (x, ex, e1) = >>=-eq-some (perform_blocks ds s f.blocks) _ e in
      let all = (perform_blocks-SettledBy s f.blocks x ex).1 in
      subst
        (λ (y : Function × List ℕ × Bool). All (λ (b : Block). All (Settled ds) b.insts) y.0.blocks)
        (some_inj e1)
        (All-map (λ (b : Block). All (Settled ds) b.insts) (replaced x.0.env) x.1
          (All-imp (λ (b : Block). All (SettledBy x.0.env) b.insts)
            (λ (b : Block). All (Settled ds) (replaced x.0.env b).insts) x.1
            (λ b. All-map (Settled ds) (used_inst x.0.env) b.insts) all))
