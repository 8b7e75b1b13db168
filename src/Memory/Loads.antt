-- ===== src/Memory/Loads.antt =====
-- The first loop of ReplaceConstantLoads::runOnFunction: a call of a load function with a constant
-- address becomes the value in memory. The value replaces all uses of the call, so an address that
-- was such a call is a constant for the calls behind it. An instruction with a result has an id that no
-- other one has.
pub mod Erased
pub mod Values
use bin2llvm.Base.{
  ℕ, Bool, true, false, ◌||◌, List, [], ◌∷◌, Option, none, some, String, str_eq, map, if◌then◌else◌,
  ◌≡◌, refl, ◌∙◌, sym, subst, All,
}
use bin2llvm.Base.Map.{NatMap, find, insert, has}
use bin2llvm.Base.Abort.{◌>>=◌, >>=-eq-some, some_inj, map_option}
use bin2llvm.Ir.{
  Value, const_int, inst_ref, global_var, cast_expr, other_value, Op, store, load, binary, call,
  branch, switch, ret, other_inst, Inst, Block, Function,
}
use bin2llvm.Ir.Pc.{any}
use bin2llvm.JumpTable.{JumpTableInfo}
use bin2llvm.Memory.{MemoryPool, get_typed_value}
use bin2llvm.Memory.Tables.{annotate_inst, annotate_inst-op}

-- What replaceAllUsesWith has put in place of a value, for the calls of the map.
unfoldable pub used : NatMap ℕ → Value → Value
used env (inst_ref n) = elim (find n env) [ none ↦ inst_ref n | some v ↦ const_int v ]
used env v = v

unfoldable pub used_op : NatMap ℕ → Op → Op
unfolding used
used_op env (store v p) = store (used env v) (used env p)
used_op env (load p) = load (used env p)
used_op env (binary o a b) = binary o (used env a) (used env b)
used_op env (call f args) = call f (map (used env) args)
used_op env (switch v d cs) = switch (used env v) d cs
used_op env (other_inst vs) = other_inst (map (used env) vs)
used_op env op = op

abbrev pub used_inst : NatMap ℕ → Inst → Inst
used_inst env i = record i { op = used_op env i.op }

-- The width that a load function reads.
abbrev pub load_bits : String → Option ℕ
load_bits f =
    if str_eq f "__ldl_mmu"
    then some 32
    else if str_eq f "__lds_mmu"
    then some 16
    else if str_eq f "__ldb_mmu"
    then some 8
    else none

-- The function and the address of a load with a constant address.
abbrev pub load_call : Op → Option (String × ℕ)
load_call (call f (const_int address ∷ v ∷ [])) = some (f, address)
load_call _ = none

module _ (pools : List MemoryPool) (big : Bool) where
  -- The value of such a load; `some none` where the instruction stays.
  unfoldable pub load_value : Op → Option (Option ℕ)
  unfolding get_typed_value
  load_value op = elim (load_call op) [
    | none ↦ some none
    | some (f, address) ↦ elim (load_bits f) [
      | none ↦ some none
      | some bits ↦ get_typed_value pools address bits big
    ]
  ]

  -- The instructions that stay, and the values of the calls that are replaced.
  unfoldable pub replace_loads : NatMap ℕ → List Inst → Option (List Inst × NatMap ℕ)
  unfolding load_value used_op
  replace_loads env [] = some ([], env)
  replace_loads env (i ∷ is) = do
    v ← load_value (used_op env i.op)
    elim v [
      | some n ↦ replace_loads (insert i.id n env) is
      | none ↦ (do rest ← replace_loads env is; some (i ∷ rest.0, rest.1))
    ]

  unfoldable pub replace_in_blocks : NatMap ℕ → List Block → Option (List Block × NatMap ℕ)
  unfolding replace_loads
  replace_in_blocks env [] = some ([], env)
  replace_in_blocks env (b ∷ bs) = do
    r ← replace_loads env b.insts
    rest ← replace_in_blocks r.1 bs
    some (record b { insts = r.0 } ∷ rest.0, rest.1)

  abbrev pub use_values : NatMap ℕ → Block → Block
  use_values env b = record b { insts = map (used_inst env) b.insts }

  unfoldable pub annotate_block : NatMap JumpTableInfo → Block → Option Block
  unfolding map_option
  annotate_block tables b = do
    is ← map_option (annotate_inst pools big tables) b.insts
    some (record b { insts = is })

  -- The whole pass.
  unfoldable pub replace_constant_loads : NatMap JumpTableInfo → Function → Option (Function × Bool)
  unfolding replace_in_blocks annotate_block
  replace_constant_loads tables f = do
    r ← replace_in_blocks [] f.blocks
    bs ← map_option (annotate_block tables) (map (use_values r.1) r.0)
    some (record f { blocks = bs }, (elim r.1 [ [] ↦ false | e ∷ es ↦ true ]))

-- No operand of the instruction is a call of the map.
abbrev pub mentions : NatMap ℕ → Value → Bool
mentions env (inst_ref n) = has n env
mentions env _ = false

abbrev pub op_mentions : NatMap ℕ → Op → Bool
op_mentions env (store v p) = mentions env v || mentions env p
op_mentions env (load p) = mentions env p
op_mentions env (binary o a b) = mentions env a || mentions env b
op_mentions env (call f args) = any (mentions env) args
op_mentions env (switch v d cs) = mentions env v
op_mentions env (other_inst vs) = any (mentions env) vs
op_mentions env op = false

used_ref :
    (env : NatMap ℕ) (n : ℕ) (o : Option ℕ)
    → find n env ≡ o
    → mentions env (elim o [ none ↦ inst_ref n | some v ↦ const_int v ]) ≡ false
unfolding has
used_ref env n none e = rw (has, e) refl
used_ref env n (some v) e = refl

used-mentions : (env : NatMap ℕ) (v : Value) → mentions env (used env v) ≡ false
unfolding used has
used-mentions env (inst_ref n) = used_ref env n (find n env) refl
used-mentions env (const_int n) = refl
used-mentions env (global_var g) = refl
used-mentions env (cast_expr c to) = refl
used-mentions env (other_value n) = refl

used-any : (env : NatMap ℕ) (vs : List Value) → any (mentions env) (map (used env) vs) ≡ false
unfolding any
used-any env [] = refl
used-any env (v ∷ vs) = rw (used-mentions env v, used-any env vs) refl

used_op-mentions : (env : NatMap ℕ) (op : Op) → op_mentions env (used_op env op) ≡ false
unfolding used_op
used_op-mentions env (store v p) = rw (used-mentions env v, used-mentions env p) refl
used_op-mentions env (load p) = used-mentions env p
used_op-mentions env (binary o a b) = rw (used-mentions env a, used-mentions env b) refl
used_op-mentions env (call f args) = used-any env args
used_op-mentions env (switch v d cs) = used-mentions env v
used_op-mentions env (other_inst vs) = used-any env vs
used_op-mentions env (branch l) = refl
used_op-mentions env ret = refl

-- The list of instructions names no call of the map.
abbrev pub NoneMention : NatMap ℕ → List Inst → Type 0
NoneMention env is = All (λ (i : Inst). op_mentions env i.op ≡ false) is

annotated-none :
    (pools : List MemoryPool) (big : Bool) (tables : NatMap JumpTableInfo) (env : NatMap ℕ)
    (is js : List Inst)
    → map_option (annotate_inst pools big tables) (map (used_inst env) is) ≡ some js
    → NoneMention env js
unfolding map_option
annotated-none pools big tables env [] js e = rw (sym (some_inj e)) tt
annotated-none pools big tables env (i ∷ is) js e =
    let (j, ej, e1) = >>=-eq-some (annotate_inst pools big tables (used_inst env i)) _ e in
    let (rest, er, e2) =
      >>=-eq-some (map_option (annotate_inst pools big tables) (map (used_inst env) is)) _ e1 in
    let same = annotate_inst-op pools big tables (used_inst env i) j ej in
    rw (sym (some_inj e2))
      (rw same (used_op-mentions env i.op), annotated-none pools big tables env is rest er)

blocks-none :
    (pools : List MemoryPool) (big : Bool) (tables : NatMap JumpTableInfo) (env : NatMap ℕ)
    (bs cs : List Block)
    → map_option (annotate_block pools big tables) (map (use_values pools big env) bs) ≡ some cs
    → All (λ (b : Block). NoneMention env b.insts) cs
unfolding map_option annotate_block
blocks-none pools big tables env [] cs e = rw (sym (some_inj e)) tt
blocks-none pools big tables env (b ∷ bs) cs e =
    let (c, ec, e1) =
      >>=-eq-some (annotate_block pools big tables (use_values pools big env b)) _ e in
    let (rest, er, e2) =
      >>=-eq-some (map_option (annotate_block pools big tables) (map (use_values pools big env) bs))
        _ e1 in
    let (is, ei, e3) =
      >>=-eq-some (map_option (annotate_inst pools big tables) (map (used_inst env) b.insts)) _
        ec in
    let made : c ≡ record b { insts = is } = sym (some_inj e3) in
    rw (sym (some_inj e2)) (
      rw made (annotated-none pools big tables env b.insts is ei),
      blocks-none pools big tables env bs rest er,
    )

-- Where the pass succeeds, no operand in its result is one of the calls that it has replaced by their
-- values, whether the use stands behind the call or before it.
pub replace_constant_loads-no_uses :
    (pools : List MemoryPool) (big : Bool) (tables : NatMap JumpTableInfo) (f : Function)
    (kept : List Block × NatMap ℕ) (r : Function × Bool)
    → replace_in_blocks pools big [] f.blocks ≡ some kept
    → replace_constant_loads pools big tables f ≡ some r
    → All (λ (b : Block). NoneMention kept.1 b.insts) r.0.blocks
unfolding replace_constant_loads
replace_constant_loads-no_uses pools big tables f kept r ek e =
    let (k, ek', e1) = >>=-eq-some (replace_in_blocks pools big [] f.blocks) _ e in
    let (bs, eb, e2) =
      >>=-eq-some
        (map_option (annotate_block pools big tables) (map (use_values pools big k.1) k.0)) _ e1 in
    let same : k ≡ kept = some_inj (sym ek' ∙ ek) in
    subst (λ (x : List Block × NatMap ℕ). All (λ (b : Block). NoneMention x.1 b.insts) r.0.blocks)
      same (rw (sym (some_inj e2)) (blocks-none pools big tables k.1 k.0 bs eb))
