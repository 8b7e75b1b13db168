-- ===== src/Memory/Loads/Erased.antt =====
-- What the replacement of constant loads leaves of the uses of the erased calls.
use mathlib.Core.Logic.{⊎_elim}
use bin2llvm.Base.{
  ℕ, Bool, true, false, ◌||◌, ◌==◌, ==_iff, List, [], ◌∷◌, ◌++◌, Option, none, some, map, ◌≡◌, refl,
  ◌∙◌, sym, ap, subst, All, All-imp, ◌⊎◌, inl, inr, In, here, there, In-cons, In-append-left,
  In-append-right, In-append-cases, arith,
}
use bin2llvm.Base.Map.{NatMap, insert, has, has-insert}
use bin2llvm.Base.Abort.{◌>>=◌, >>=-eq-some, some_inj, map_option}
use bin2llvm.Ir.{
  Value, const_int, inst_ref, global_var, cast_expr, other_value, Op, store, load, binary, call,
  branch, switch, ret, other_inst, Inst, Block, Function,
}
use bin2llvm.Ir.Pc.{any}
use bin2llvm.JumpTable.{JumpTableInfo}
use bin2llvm.Memory.{MemoryPool}
use bin2llvm.Memory.Tables.{annotate_inst, annotate_inst-id}
use bin2llvm.Memory.Loads.{
  used_op, used_inst, load_value, replace_loads, replace_in_blocks, use_values, annotate_block,
  replace_constant_loads, mentions, op_mentions, NoneMention, replace_constant_loads-no_uses,
}

abbrev ids : List Inst → List ℕ
ids is = map (λ (i : Inst). i.id) is

-- The instructions of a function, by their ids.
abbrev pub ids_of : List Block → List ℕ
ids_of [] = []
ids_of (b ∷ bs) = ids b.insts ++ ids_of bs

-- The value is the instruction n.
abbrev pub refers : ℕ → Value → Bool
refers n (inst_ref k) = k == n
refers n _ = false

-- An operand is the instruction n.
abbrev pub op_refers : ℕ → Op → Bool
op_refers n (store v p) = refers n v || refers n p
op_refers n (load p) = refers n p
op_refers n (binary o a b) = refers n a || refers n b
op_refers n (call f args) = any (refers n) args
op_refers n (switch v d cs) = refers n v
op_refers n (other_inst vs) = any (refers n) vs
op_refers n op = false

mentions-refers :
    (env : NatMap ℕ) (n : ℕ) (v : Value)
    → has n env ≡ true
    → refers n v ≡ true
    → mentions env v ≡ true
mentions-refers env n (inst_ref k) h r = let e : k ≡ n = ground arith in rw e h
mentions-refers env n (const_int k) h r = cc
mentions-refers env n (global_var g) h r = cc
mentions-refers env n (cast_expr c to) h r = cc
mentions-refers env n (other_value k) h r = cc

mentions-any :
    (env : NatMap ℕ) (n : ℕ) (vs : List Value)
    → has n env ≡ true
    → any (refers n) vs ≡ true
    → any (mentions env) vs ≡ true
unfolding any
mentions-any env n [] h r = cc
mentions-any env n (v ∷ vs) h r = ground (arith, mentions-refers env n v h, mentions-any env n vs h)

op_mentions-refers :
    (env : NatMap ℕ) (n : ℕ) (op : Op)
    → has n env ≡ true
    → op_refers n op ≡ true
    → op_mentions env op ≡ true
op_mentions-refers env n (store v p) h r =
    ground (arith, mentions-refers env n v h, mentions-refers env n p h)
op_mentions-refers env n (load p) h r = mentions-refers env n p h r
op_mentions-refers env n (binary o a b) h r =
    ground (arith, mentions-refers env n a h, mentions-refers env n b h)
op_mentions-refers env n (call f args) h r = mentions-any env n args h r
op_mentions-refers env n (switch v d cs) h r = mentions-refers env n v h r
op_mentions-refers env n (other_inst vs) h r = mentions-any env n vs h r
op_mentions-refers env n (branch l) h r = cc
op_mentions-refers env n ret h r = cc

-- What is not kept is replaced.
abbrev Keeps : NatMap ℕ → List ℕ → List ℕ × NatMap ℕ → Type 0
Keeps env before after =
    ((n : ℕ) → has n env ≡ true → has n after.1 ≡ true)
    × ((n : ℕ) → In n before → In n after.0 ⊎ (has n after.1 ≡ true))

module _ (pools : List MemoryPool) (big : Bool) where
  replace_loads-Keeps :
      (env : NatMap ℕ) (is : List Inst) (r : List Inst × NatMap ℕ)
      → replace_loads pools big env is ≡ some r
      → Keeps env (ids is) (ids r.0, r.1)
  unfolding replace_loads
  replace_loads-Keeps env [] r e =
      subst (λ (x : List Inst × NatMap ℕ). Keeps env [] (ids x.0, x.1)) (some_inj e)
        ((λ n h. h), (λ n h. inl h))
  replace_loads-Keeps env (i ∷ is) r e =
      let (v, ev, e1) = >>=-eq-some (load_value pools big (used_op env i.op)) _ e in
      at_value v (λ env' x. replace_loads-Keeps env' is x) e1
    where
      at_value :
          (v : Option ℕ)
          → ((env' : NatMap ℕ) (x : List Inst × NatMap ℕ)
              → replace_loads pools big env' is ≡ some x
              → Keeps env' (ids is) (ids x.0, x.1))
          → (elim v [
            | some n ↦ replace_loads pools big (insert i.id n env) is
            | none ↦ (do rest ← replace_loads pools big env is; some (i ∷ rest.0, rest.1))
          ])
            ≡ some r
          → Keeps env (ids (i ∷ is)) (ids r.0, r.1)
      at_value (some m) ih e =
          let (mono, keep) = ih (insert i.id m env) r e in
          (
            (λ n h. mono n (has-insert i.id n m env ∙ ground (arith, h))),
            (λ n h. elim (In-cons n i.id (ids is) h) [
              | inl y ↦ inr (mono n (has-insert i.id n m env ∙ rw ((==_iff i.id n).1 (sym y)) refl))
              | inr k ↦ keep n k
            ]),
          )
      at_value none ih e =
          let (rest, er, e1) = >>=-eq-some (replace_loads pools big env is) _ e in
          let (mono, keep) = ih env rest er in
          subst (λ (x : List Inst × NatMap ℕ). Keeps env (ids (i ∷ is)) (ids x.0, x.1))
            (some_inj e1)
            (
              mono,
              (λ n h. elim (In-cons n i.id (ids is) h) [
                | inl y ↦ inl (here y)
                | inr k ↦ ⊎_elim (λ l. inl (there l)) inr (keep n k)
              ]),
            )

  replace_in_blocks-Keeps :
      (env : NatMap ℕ) (bs : List Block) (r : List Block × NatMap ℕ)
      → replace_in_blocks pools big env bs ≡ some r
      → Keeps env (ids_of bs) (ids_of r.0, r.1)
  unfolding replace_in_blocks
  replace_in_blocks-Keeps env [] r e =
      subst (λ (x : List Block × NatMap ℕ). Keeps env [] (ids_of x.0, x.1)) (some_inj e)
        ((λ n h. h), (λ n h. inl h))
  replace_in_blocks-Keeps env (b ∷ bs) r e =
      let (x, ex, e1) = >>=-eq-some (replace_loads pools big env b.insts) _ e in
      let (rest, er, e2) = >>=-eq-some (replace_in_blocks pools big x.1 bs) _ e1 in
      let (mono, keep) = replace_loads-Keeps env b.insts x ex in
      let (more, keep') = replace_in_blocks-Keeps x.1 bs rest er in
      subst (λ (y : List Block × NatMap ℕ). Keeps env (ids_of (b ∷ bs)) (ids_of y.0, y.1))
        (some_inj e2)
        (
          (λ n h. more n (mono n h)),
          (λ n h. elim (In-append-cases n (ids b.insts) (ids_of bs) h) [
            | inl l ↦
                ⊎_elim (λ k. inl (In-append-left n (ids x.0) (ids_of rest.0) k))
                  (λ k. inr (more n k)) (keep n l)
            | inr l ↦
                ⊎_elim (λ k. inl (In-append-right n (ids x.0) (ids_of rest.0) k)) inr (keep' n l)
          ]),
        )

  module _ (tables : NatMap JumpTableInfo) (env : NatMap ℕ) where
    annotated-ids :
        (is js : List Inst)
        → map_option (annotate_inst pools big tables) (map (used_inst env) is) ≡ some js
        → ids js ≡ ids is
    unfolding map_option
    annotated-ids [] js e = ap ids (sym (some_inj e))
    annotated-ids (i ∷ is) js e =
        let (j, ej, e1) = >>=-eq-some (annotate_inst pools big tables (used_inst env i)) _ e in
        let (rest, er, e2) =
          >>=-eq-some (map_option (annotate_inst pools big tables) (map (used_inst env) is)) _ e1 in
        rw (sym (some_inj e2)) (
          rw (annotate_inst-id pools big tables (used_inst env i) j ej, annotated-ids is rest er)
            refl)

    blocks-ids :
        (bs cs : List Block)
        → map_option (annotate_block pools big tables) (map (use_values pools big env) bs) ≡ some cs
        → ids_of cs ≡ ids_of bs
    unfolding map_option annotate_block
    blocks-ids [] cs e = ap ids_of (sym (some_inj e))
    blocks-ids (b ∷ bs) cs e =
        let (c, ec, e1) =
          >>=-eq-some (annotate_block pools big tables (use_values pools big env b)) _ e in
        let (rest, er, e2) =
          >>=-eq-some
            (map_option (annotate_block pools big tables) (map (use_values pools big env) bs)) _
            e1 in
        let (is, ei, e3) =
          >>=-eq-some (map_option (annotate_inst pools big tables) (map (used_inst env) b.insts)) _
            ec in
        let same : ids c.insts ≡ ids b.insts =
          ap (λ (x : Block). ids x.insts) (sym (some_inj e3)) ∙ annotated-ids b.insts is ei in
        ap ids_of (sym (some_inj e2)) ∙ rw (same, blocks-ids bs rest er) refl

-- What an instruction uses is there, if it was there before the pass.
abbrev pub NoDangling : List ℕ → List ℕ → List Inst → Type 0
NoDangling before after is =
    All (λ (i : Inst). (n : ℕ) → op_refers n i.op ≡ true → In n before → In n after) is

-- Where the pass succeeds, no instruction of its result has an operand that is an instruction which
-- the pass has erased.
pub replace_constant_loads-NoDangling :
    (pools : List MemoryPool) (big : Bool) (tables : NatMap JumpTableInfo) (f : Function)
    (r : Function × Bool)
    → replace_constant_loads pools big tables f ≡ some r
    → All (λ (b : Block). NoDangling (ids_of f.blocks) (ids_of r.0.blocks) b.insts) r.0.blocks
unfolding replace_constant_loads
replace_constant_loads-NoDangling pools big tables f r e =
    let (k, ek, e1) = >>=-eq-some (replace_in_blocks pools big [] f.blocks) _ e in
    let (bs, eb, e2) =
      >>=-eq-some
        (map_option (annotate_block pools big tables) (map (use_values pools big k.1) k.0)) _ e1 in
    let none_left = replace_constant_loads-no_uses pools big tables f k r ek e in
    let keep = (replace_in_blocks-Keeps pools big [] f.blocks k ek).1 in
    let same : ids_of r.0.blocks ≡ ids_of k.0 =
      ap (λ (x : Function × Bool). ids_of x.0.blocks) (sym (some_inj e2))
      ∙ blocks-ids pools big tables k.1 k.0 bs eb in
    All-imp (λ (b : Block). NoneMention k.1 b.insts)
      (λ (b : Block). NoDangling (ids_of f.blocks) (ids_of r.0.blocks) b.insts) r.0.blocks
      (λ b.
        All-imp (λ (i : Inst). op_mentions k.1 i.op ≡ false)
          (λ (i : Inst).
            (n : ℕ) → op_refers n i.op ≡ true → In n (ids_of f.blocks) → In n (ids_of r.0.blocks))
          b.insts
          (λ i m n y h. elim (keep n h) [
            | inl l ↦ rw same l
            | inr g ↦ absurd (ground (arith, m, op_mentions-refers k.1 n i.op g y))
          ]))
      none_left
