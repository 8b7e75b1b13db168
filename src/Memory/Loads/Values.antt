-- ===== src/Memory/Loads/Values.antt =====
-- Which values the replacement of constant loads puts in the place of the calls.
use bin2llvm.Base.{
  ℕ, Bool, Option, List, [], ◌∷◌, none, some, map, ◌≡◌, refl, subst, All, In, here, there,
  In-append-left, In-append-right,
}
use bin2llvm.Base.Map.{NatMap, insert}
use bin2llvm.Base.Abort.{◌>>=◌, >>=-eq-some, some_inj, map_option}
use bin2llvm.Ir.{Inst, Block, Function}
use bin2llvm.Ir.Pc.{all_insts}
use bin2llvm.JumpTable.{JumpTableInfo}
use bin2llvm.Memory.{MemoryPool}
use bin2llvm.Memory.Tables.{annotate_inst, annotate_inst-op, annotate_inst-id}
use bin2llvm.Memory.Loads.{
  used_op, used_inst, load_value, replace_loads, replace_in_blocks, use_values, annotate_block,
  replace_constant_loads,
}
use bin2llvm.Memory.Loads.Erased.{ids_of, NoDangling, replace_constant_loads-NoDangling}

module _ (pools : List MemoryPool) (big : Bool) (l : List Inst) where
  -- The values of the calls, one load after the other: each is what memory holds at the constant
  -- address of a load call of the list, where earlier values may make the address constant.
  pub data Loaded : NatMap ℕ → Type 0 where
    nothing : Loaded []
    loaded :
        (env : NatMap ℕ) (i : Inst) (v : ℕ)
        → Loaded env
        → In i l
        → load_value pools big (used_op env i.op) ≡ some (some v)
        → Loaded (insert i.id v env)

  -- The instruction is one of the list, with these values in the place of the calls.
  abbrev pub Comes : NatMap ℕ → Inst → Type 0
  Comes env j = (i : Inst) × In i l × (j.id ≡ i.id) × (j.op ≡ used_op env i.op)

  abbrev Kept : List Inst × NatMap ℕ → Type 0
  Kept r = Loaded r.1 × All (λ (i : Inst). In i l) r.0

  at_value :
      (env : NatMap ℕ) (i : Inst) (is : List Inst) (v : Option ℕ) (r : List Inst × NatMap ℕ)
      → load_value pools big (used_op env i.op) ≡ some v
      → In i l
      → Loaded env
      → ((env' : NatMap ℕ) (x : List Inst × NatMap ℕ)
          → Loaded env'
          → replace_loads pools big env' is ≡ some x
          → Kept x)
      → (elim v [
        | some n ↦ replace_loads pools big (insert i.id n env) is
        | none ↦ (do rest ← replace_loads pools big env is; some (i ∷ rest.0, rest.1))
      ])
        ≡ some r
      → Kept r
  at_value env i is (some n) r ev m h ih e = ih (insert i.id n env) r (loaded env i n h m ev) e
  at_value env i is none r ev m h ih e =
      let (rest, er, e1) = >>=-eq-some (replace_loads pools big env is) _ e in
      let (more, all) = ih env rest h er in subst Kept (some_inj e1) (more, (m, all))

  replace_loads-Kept :
      (env : NatMap ℕ) (is : List Inst) (r : List Inst × NatMap ℕ)
      → ((i : Inst) → In i is → In i l)
      → Loaded env
      → replace_loads pools big env is ≡ some r
      → Kept r
  unfolding replace_loads
  replace_loads-Kept env [] r m h e = subst Kept (some_inj e) (h, tt)
  replace_loads-Kept env (i ∷ is) r m h e =
      let (v, ev, e1) = >>=-eq-some (load_value pools big (used_op env i.op)) _ e in
      at_value env i is v r ev (m i (here refl)) h
        (λ env' x. replace_loads-Kept env' is x (λ j k. m j (there k))) e1

  abbrev KeptBlocks : List Block × NatMap ℕ → Type 0
  KeptBlocks r = Loaded r.1 × All (λ (b : Block). All (λ (i : Inst). In i l) b.insts) r.0

  replace_in_blocks-Kept :
      (env : NatMap ℕ) (bs : List Block) (r : List Block × NatMap ℕ)
      → ((i : Inst) → In i (all_insts bs) → In i l)
      → Loaded env
      → replace_in_blocks pools big env bs ≡ some r
      → KeptBlocks r
  unfolding replace_in_blocks
  replace_in_blocks-Kept env [] r m h e = subst KeptBlocks (some_inj e) (h, tt)
  replace_in_blocks-Kept env (b ∷ bs) r m h e =
      let (x, ex, e1) = >>=-eq-some (replace_loads pools big env b.insts) _ e in
      let (rest, er, e2) = >>=-eq-some (replace_in_blocks pools big x.1 bs) _ e1 in
      let (now, first) =
        replace_loads-Kept env b.insts x (λ i k. m i (In-append-left i b.insts (all_insts bs) k)) h
          ex in
      let (more, all) =
        replace_in_blocks-Kept x.1 bs rest (λ i k. m i (In-append-right i b.insts (all_insts bs) k))
          now er in
      subst KeptBlocks (some_inj e2) (more, (first, all))

  module _ (tables : NatMap JumpTableInfo) (env : NatMap ℕ) where
    annotated-Comes :
        (is js : List Inst)
        → All (λ (i : Inst). In i l) is
        → map_option (annotate_inst pools big tables) (map (used_inst env) is) ≡ some js
        → All (Comes env) js
    unfolding map_option
    annotated-Comes [] js h e = subst (All (Comes env)) (some_inj e) tt
    annotated-Comes (i ∷ is) js (h, hs) e =
        let (j, ej, e1) = >>=-eq-some (annotate_inst pools big tables (used_inst env i)) _ e in
        let (rest, er, e2) =
          >>=-eq-some (map_option (annotate_inst pools big tables) (map (used_inst env) is)) _ e1 in
        subst (All (Comes env)) (some_inj e2) (
          (
            i,
            h,
            annotate_inst-id pools big tables (used_inst env i) j ej,
            annotate_inst-op pools big tables (used_inst env i) j ej,
          ),
          annotated-Comes is rest hs er,
        )

    blocks-Comes :
        (bs cs : List Block)
        → All (λ (b : Block). All (λ (i : Inst). In i l) b.insts) bs
        → map_option (annotate_block pools big tables) (map (use_values pools big env) bs) ≡ some cs
        → All (λ (b : Block). All (Comes env) b.insts) cs
    unfolding map_option annotate_block
    blocks-Comes [] cs h e = subst (All (λ (b : Block). All (Comes env) b.insts)) (some_inj e) tt
    blocks-Comes (b ∷ bs) cs (h, hs) e =
        let (c, ec, e1) =
          >>=-eq-some (annotate_block pools big tables (use_values pools big env b)) _ e in
        let (rest, er, e2) =
          >>=-eq-some
            (map_option (annotate_block pools big tables) (map (use_values pools big env) bs)) _
            e1 in
        let (is, ei, e3) =
          >>=-eq-some (map_option (annotate_inst pools big tables) (map (used_inst env) b.insts)) _
            ec in
        subst (All (λ (b : Block). All (Comes env) b.insts)) (some_inj e2) (
          subst (λ (x : Block). All (Comes env) x.insts) (some_inj e3)
              (annotated-Comes b.insts is h ei),
          blocks-Comes bs rest hs er,
        )

-- Each instruction of the result is one of the function, with the values in the place of the calls,
-- and none of its operands is an instruction that is erased.
abbrev pub Replaced : List MemoryPool → Bool → Function → Function → Type 0
Replaced pools big f g =
    (env : NatMap ℕ) × Loaded pools big (all_insts f.blocks) env
    × All (λ (b : Block). All (Comes pools big (all_insts f.blocks) env) b.insts) g.blocks
    × All (λ (b : Block). NoDangling (ids_of f.blocks) (ids_of g.blocks) b.insts) g.blocks

-- Where the pass succeeds, each instruction of its result is one of the function, in which calls are
-- replaced by values. The values are loaded one after the other: each is what memory holds at the
-- constant address of a load call of the function, which an earlier value may have made constant. No
-- operand of the result is an instruction that the pass has erased.
pub replace_constant_loads-Replaced :
    (pools : List MemoryPool) (big : Bool) (tables : NatMap JumpTableInfo) (f : Function)
    (r : Function × Bool)
    → replace_constant_loads pools big tables f ≡ some r
    → Replaced pools big f r.0
unfolding replace_constant_loads
replace_constant_loads-Replaced pools big tables f r e =
    let (k, ek, e1) = >>=-eq-some (replace_in_blocks pools big [] f.blocks) _ e in
    let (bs, eb, e2) =
      >>=-eq-some
        (map_option (annotate_block pools big tables) (map (use_values pools big k.1) k.0)) _ e1 in
    let l = all_insts f.blocks in
    let (values, kept) = replace_in_blocks-Kept pools big l [] f.blocks k (λ i m. m) nothing ek in
    (
      k.1,
      values,
      subst
          (λ (x : Function × Bool).
            All (λ (b : Block). All (Comes pools big l k.1) b.insts) x.0.blocks)
          (some_inj e2) (blocks-Comes pools big l tables k.1 k.0 bs kept eb),
      replace_constant_loads-NoDangling pools big tables f r e,
    )
