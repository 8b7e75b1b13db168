-- ===== src/Build/Fixup/Calls.antt =====
-- BuildFunctions::fixupCalls: a block that ends in a call goes on at the block behind the call.
use bin2llvm.Base.{ℕ, Bool, not, ◌||◌, List, [], ◌∷◌, ◌++◌, Option, none, some, if◌then◌else◌}
use bin2llvm.Base.Map.{NatMap, find}
use bin2llvm.Base.Abort.{◌>>=◌, ◌>>◌, assert}
use bin2llvm.Ir.{
  ins_direct_call, ins_indirect_call, ins_call_return, ins_unresolved_call, Inst, Block,
}
use bin2llvm.Ir.Meta.{has_metadata, set_metadata, get_hex_metadata_from_ins}
use bin2llvm.Ir.Pc.{is_some, true_text}
use bin2llvm.Build.Fixup.{cleanup_fake_returns, branch_to}

abbrev pub is_marked_call : Inst → Bool
is_marked_call i = has_metadata i ins_direct_call || has_metadata i ins_indirect_call

-- One call, where `t` is the target that the block has already, if it has one: the instruction, and
-- the target of the block.
unfoldable pub call_inst : NatMap ℕ → Option ℕ → Inst → Option (Inst × Option ℕ)
call_inst bb_map t i = do
  assert (has_metadata i ins_call_return)
  next_pc ← get_hex_metadata_from_ins i ins_call_return
  elim (find next_pc bb_map) [
    | none ↦ some (set_metadata i ins_unresolved_call true_text, t)
    | some bb_target ↦ (do assert (not (is_some t)); some (i, some bb_target))
  ]

-- The instructions of a block.
unfoldable pub scan_calls : NatMap ℕ → Option ℕ → List Inst → Option (List Inst × Option ℕ)
unfolding call_inst
scan_calls bb_map t [] = some ([], t)
scan_calls bb_map t (i ∷ is) = do
  r ← if is_marked_call i then call_inst bb_map t i else some (i, t)
  rs ← scan_calls bb_map r.1 is
  some (r.0 ∷ rs.0, rs.1)

unfoldable pub fixup_calls : NatMap ℕ → Block → Option Block
unfolding scan_calls cleanup_fake_returns
fixup_calls bb_map b = do
  r ← scan_calls bb_map none b.insts
  elim r.1 [
    | none ↦ some (record b { insts = r.0 })
    | some bb_target ↦ (do
      is ← cleanup_fake_returns 1 (r.0 ++ branch_to bb_target ∷ [])
      some (record b { insts = is }))
  ]
