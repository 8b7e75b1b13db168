-- ===== src/Mark/Return.antt =====
-- ARMMarkReturn::runOnFunction and usesLR: a store to PC of a value that comes from LR.
pub mod Aborts
pub mod Separate
pub mod Preserve
use Prim.Native.String.{◌++◌ as str_append}
use bin2llvm.Base.{
  ℕ, zero, suc, ◌+◌, ◌-◌, ◌%◌, ◌^◌, ◌<◌, ◌≤◌, Bool, true, false, ◌||◌, List, [], ◌∷◌, ◌++◌, Option,
  none, some, String, str_eq, ◌==◌, if◌then◌else◌, map, ◌&&◌, not, ◌≡◌, ◌≢◌, refl, ap, arith, All,
  All-append, All-append-left, All-append-right, subst, Bool-cases, Option-cases, inl, inr, ◌⊎◌,
  ◌↔◌, eq_iff, sym, ◌∙◌,
}
use bin2llvm.Base.Abort.{◌>>=◌, ◌>>◌, assert, >>=-eq-some}
use bin2llvm.Hex.{hex, strtoll16}
use bin2llvm.Hex.RoundTrip.{strtoll16-hex}
use bin2llvm.Ir.{
  Kind, kind_eq, ins_direct_call, ins_indirect_call, ins_call_return, ins_return, ins_direct_jump,
  ins_indirect_jump, Value, const_int, global_var, inst_ref, Opcode, and_op, Op, store, load,
  binary, call, Inst, Block, Function, bb_pc_start, bb_pc_end,
}
use bin2llvm.Ir.Meta.{
  has_metadata, get_metadata, set_metadata, get_hex_metadata_from_ins, get_pc_start_of_func,
  get_pc_end_of_func, has_metadata-set_metadata, get_metadata-set_metadata, get_hex-set_metadata,
  get_hex_of_has,
}
use bin2llvm.Ir.Pc.{
  as_const, pc_store, lr_store, is_some, clear_bit0, any, all_insts, stored_in, true_text,
}

-- The instruction that an operand refers to.
unfoldable pub find_inst : ℕ → List Inst → Option Inst
find_inst n [] = none
find_inst n (i ∷ is) = if i.id == n then some i else find_inst n is

abbrev def_of : List Inst → Value → Option Op
def_of is (inst_ref n) = elim (find_inst n is) [ none ↦ none | some i ↦ some i.op ]
def_of is _ = none

abbrev loads_lr : Value → Bool
loads_lr (global_var g) = str_eq g "LR"
loads_lr _ = false

-- A use of the call's result: a store of it to LR.
abbrev saves_to_lr : ℕ → Op → Bool
saves_to_lr n (store (inst_ref m) (global_var g)) = m == n && str_eq g "LR"
saves_to_lr n _ = false

-- The second case of usesLR: the first operand is a call whose result some store puts into LR.
abbrev call_saved_in_lr : List Inst → Value → Option Op → Bool
call_saved_in_lr is (inst_ref n) (some (call f args)) = any (λ i. saves_to_lr n i.op) is
call_saved_in_lr is _ _ = false

-- The two cases of usesLR for an `and`, by its operands and the definition of the first.
abbrev and_uses_lr : List Inst → Value → Value → Option Op → Bool
and_uses_lr is a (const_int c) (some (load p)) = loads_lr p
and_uses_lr is a b d = call_saved_in_lr is a d

abbrev op_uses_lr : List Inst → Option Op → Bool
op_uses_lr is (some (binary and_op a b)) = and_uses_lr is a b (def_of is a)
op_uses_lr is _ = false

-- `is` are the instructions of the function.
unfoldable pub uses_lr : List Inst → Value → Bool
unfolding find_inst any
uses_lr is v = op_uses_lr is (def_of is v)

-- A store to PC of no constant, whose value comes from LR.
unfoldable pub is_return : List Inst → Inst → Bool
is_return is i = elim (pc_store i) [
  | none ↦ false
  | some v ↦ not (is_some (as_const v)) && uses_lr is v
]

unfoldable pub mark_return_inst : List Inst → Inst → Option Inst
mark_return_inst is i =
    if is_return is i
    then (do
      assert (not (has_metadata i ins_direct_call))
      assert (not (has_metadata i ins_indirect_call))
      some (set_metadata i ins_return true_text))
    else some i

unfoldable pub mark_return_insts : List Inst → List Inst → Option (List Inst)
unfolding mark_return_inst
mark_return_insts is [] = some []
mark_return_insts is (i ∷ rest) = do
  j ← mark_return_inst is i
  js ← mark_return_insts is rest
  some (j ∷ js)

-- setName("func_return_bb_" + name), once for each return that is marked.
unfoldable pub return_name : List Inst → List Inst → String → String
return_name is [] name = name
return_name is (i ∷ rest) name =
    return_name is rest (if is_return is i then str_append "func_return_bb_" name else name)

unfoldable pub mark_return_block : List Inst → Block → Option Block
unfolding mark_return_insts return_name
mark_return_block is b = do
  js ← mark_return_insts is b.insts
  some (record b { insts = js; name = return_name is b.insts b.name })

unfoldable pub mark_return_blocks : List Inst → List Block → Option (List Block)
unfolding mark_return_block
mark_return_blocks is [] = some []
mark_return_blocks is (b ∷ bs) = do
  c ← mark_return_block is b
  cs ← mark_return_blocks is bs
  some (c ∷ cs)

unfoldable pub mark_return : Function → Option (Function × Bool)
unfolding mark_return_blocks
mark_return f = do
  pc_start ← get_pc_start_of_func f
  pc_end ← get_pc_end_of_func f
  bs ← mark_return_blocks (all_insts f.blocks) f.blocks
  some (record f { blocks = bs }, any (is_return (all_insts f.blocks)) (all_insts f.blocks))
