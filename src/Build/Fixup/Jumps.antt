-- ===== src/Build/Fixup/Jumps.antt =====
-- BuildFunctions::fixupDirectJumps: a jump with a known target becomes a branch.
use bin2llvm.Base.{ℕ, List, [], ◌∷◌, ◌++◌, Option, none, some, if◌then◌else◌, length, map}
use bin2llvm.Base.Map.{NatMap, find}
use bin2llvm.Base.Abort.{◌>>=◌}
use bin2llvm.Ir.{ins_direct_jump, Inst, Block}
use bin2llvm.Ir.Meta.{has_metadata, get_hex_metadata_from_ins}
use bin2llvm.Build.Fixup.{cleanup_fake_returns, branch_to}

-- The target of a jump, if its block is known.
unfoldable pub jump_target : NatMap ℕ → Inst → Option (Option ℕ)
jump_target bb_map i =
    if has_metadata i ins_direct_jump
    then (do next_pc ← get_hex_metadata_from_ins i ins_direct_jump; some (find next_pc bb_map))
    else some none

-- The instructions that stay, and the targets of those that are erased.
unfoldable pub scan_jumps : NatMap ℕ → List Inst → Option (List Inst × List ℕ)
unfolding jump_target
scan_jumps bb_map [] = some ([], [])
scan_jumps bb_map (i ∷ is) = do
  t ← jump_target bb_map i
  rs ← scan_jumps bb_map is
  some (elim t [ none ↦ (i ∷ rs.0, rs.1) | some l ↦ (rs.0, l ∷ rs.1) ])

-- A block stands in bbToUpdate once for each of its jumps.
unfoldable pub fixup_direct_jumps : NatMap ℕ → Block → Option Block
unfolding scan_jumps cleanup_fake_returns
fixup_direct_jumps bb_map b = do
  r ← scan_jumps bb_map b.insts
  is ← cleanup_fake_returns (length r.1) (r.0 ++ map branch_to r.1)
  some (record b { insts = is })
