-- ===== src/Mark/Call.antt =====
-- ARMMarkCall::runOnFunction: a store to PC behind a store of the return address to LR is a call.
pub mod Returns
pub mod Exact
pub mod Preserve
use Prim.Native.String.{◌++◌ as str_append}
use bin2llvm.Base.{
  ℕ, zero, suc, ◌+◌, ◌-◌, ◌%◌, ◌^◌, ◌<◌, ◌≤◌, Bool, true, false, ◌||◌, List, [], ◌∷◌, ◌++◌, Option,
  none, some, String, str_eq, ◌==◌, if◌then◌else◌, map, ◌&&◌, not, ◌≡◌, ◌≢◌, refl, ap, arith, All,
  All-append, All-append-left, All-append-right, get_elem?, length, subst, Bool-cases, Option-cases,
  inl, inr, ◌⊎◌, ◌↔◌, eq_iff, sym, ◌∙◌,
}
use bin2llvm.Base.Abort.{◌>>=◌, ◌>>◌, assert, >>=-eq-some}
use bin2llvm.Hex.{hex, strtoll16}
use bin2llvm.Hex.RoundTrip.{strtoll16-hex}
use bin2llvm.Ir.{
  Kind, kind_eq, ins_direct_call, ins_indirect_call, ins_call_return, ins_return, ins_direct_jump,
  ins_indirect_jump, Value, const_int, global_var, inst_ref, Opcode, and_op, Op, store, load,
  binary, call, Inst, Block, Function, bb_pc_start, bb_pc_end,
}
use bin2llvm.Ir.Meta.{
  has_metadata, get_metadata, set_metadata, get_hex_metadata_from_ins, get_pc_start_of_func,
  get_pc_end_of_func, has_metadata-set_metadata, get_metadata-set_metadata, get_hex-set_metadata,
  get_hex_of_has,
}
use bin2llvm.Ir.Pc.{as_const, pc_store, lr_store, is_some, clear_bit0, any, all_insts, stored_in}

-- The variables of the scan of a block.
pub record LrState : Type 0 where
  pub has_lr_store : Bool
  pub lr_val : ℕ

abbrev pub no_lr : LrState
no_lr = record { has_lr_store = false; lr_val = 0 }

-- pcEnd == lrVal || pcEnd == lrVal-1, in 64 bits.
unfoldable pub returns_to : ℕ → ℕ → Bool
returns_to pc_end lr_val = pc_end == lr_val || pc_end == (lr_val + 2 ^ 64 - 1) % 2 ^ 64

-- A store to LR is looked at only where the store is not to PC.
unfoldable pub next_lr : LrState → Inst → LrState
next_lr st i = elim (lr_store i) [
  | none ↦ st
  | some v ↦ elim (as_const v) [ none ↦ st | some n ↦ record { has_lr_store = true; lr_val = n } ]
]

unfoldable pub mark_as_call : ℕ → Value → Inst → Inst
mark_as_call lr_val v i = elim (as_const v) [
  | some n ↦
      set_metadata (set_metadata i ins_direct_call (hex n)) ins_call_return
        (hex (clear_bit0 lr_val))
  | none ↦
      set_metadata (set_metadata i ins_indirect_call (hex 0xdeadbeef)) ins_call_return
        (hex (clear_bit0 lr_val))
]

-- The store to PC is a call: LR holds the end of this block.
unfoldable pub is_call : ℕ → LrState → Inst → Bool
unfolding returns_to
is_call pc_end st i = is_some (pc_store i) && st.has_lr_store && returns_to pc_end st.lr_val

unfoldable pub mark_call_inst : ℕ → LrState → Inst → Inst
unfolding mark_as_call returns_to
mark_call_inst pc_end st i = elim (pc_store i) [
  | none ↦ i
  | some v ↦
      if st.has_lr_store && returns_to pc_end st.lr_val then mark_as_call st.lr_val v i else i
]

unfoldable pub mark_call_insts : ℕ → LrState → List Inst → List Inst
mark_call_insts pc_end st [] = []
mark_call_insts pc_end st (i ∷ is) =
    mark_call_inst pc_end st i ∷ mark_call_insts pc_end (next_lr st i) is

unfoldable pub calls_in : ℕ → LrState → List Inst → Bool
calls_in pc_end st [] = false
calls_in pc_end st (i ∷ is) = is_call pc_end st i || calls_in pc_end (next_lr st i) is

unfoldable pub mark_call_block : ℕ → Block → Block
unfolding mark_call_insts
mark_call_block pc_end b = record b { insts = mark_call_insts pc_end no_lr b.insts }

unfoldable pub mark_call : Function → Option (Function × Bool)
unfolding mark_call_block calls_in
mark_call f = do
  pc_start ← get_pc_start_of_func f
  pc_end ← get_pc_end_of_func f
  some (
    record f { blocks = map (mark_call_block pc_end) f.blocks },
    any (λ b. calls_in pc_end no_lr b.insts) f.blocks,
  )
