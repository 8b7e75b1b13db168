-- ===== src/Build/Fixup.antt =====
-- BuildFunctions::buildBBMap and cleanupFakeReturns, which all fixups of a function share. A BasicBlock *
-- is the label of the block. Each loop of a fixup looks at one block after the other and changes
-- nothing of the others, so a fixup is the function of one block here, with its loops in order.
--
-- A new terminator has no result that an operand could refer to: its id is 0, and the ids of the
-- instructions with a result are others.
pub mod Calls
pub mod Jumps
pub mod Switched
pub mod Indirect
pub mod Returns
use bin2llvm.Base.{
  ℕ, zero, suc, Bool, true, false, not, ◌&&◌, List, [], ◌∷◌, Option, none, some, if◌then◌else◌, ltb,
  ◌==◌, str_eq, filter,
}
use bin2llvm.Base.Map.{NatMap, insert, has}
use bin2llvm.Base.Abort.{◌>>=◌}
use bin2llvm.Ir.{bb_pc_start, Op, branch, Inst, Block}
use bin2llvm.Ir.Meta.{has_metadata, get_bb_start, front_inst}
use bin2llvm.Ir.Pc.{any}
use bin2llvm.Build.Shape.{is_fake, not_fake}

-- One block: the first one that starts at an address stays.
pub add_bb : NatMap ℕ → Block → Option (NatMap ℕ)
add_bb bb_map b = do
  ins ← front_inst b.insts
  if str_eq b.name "fake_indirect_bb"
      then some bb_map
      else if has_metadata ins bb_pc_start
      then (do
        pc_start ← get_bb_start ins
        some (if has pc_start bb_map then bb_map else insert pc_start b.label bb_map))
      else some bb_map

pub add_bbs : NatMap ℕ → List Block → Option (NatMap ℕ)
unfolding add_bb
add_bbs bb_map [] = some bb_map
add_bbs bb_map (b ∷ bs) = do next ← add_bb bb_map b; add_bbs next bs

unfoldable pub build_bb_map : List Block → Option (NatMap ℕ)
unfolding add_bbs
build_bb_map bs = add_bbs [] bs

-- The fake returns of a block that stands `times` times in bbToUpdate. Each is put into removeMe as
-- often, and to erase an instruction twice is undefined: `none`.
unfoldable pub cleanup_fake_returns : ℕ → List Inst → Option (List Inst)
unfolding any
cleanup_fake_returns times is =
    if ltb 1 times && any is_fake is
    then none
    else some (if times == 0 then is else filter not_fake is)

-- BranchInst::Create and ReturnInst::Create.
abbrev pub new_inst : Op → Inst
new_inst op = record { id = 0; op = op; meta = [] }

abbrev pub branch_to : ℕ → Inst
branch_to l = new_inst (branch l)
