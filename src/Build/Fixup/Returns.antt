-- ===== src/Build/Fixup/Returns.antt =====
-- BuildFunctions::fixupReturns: a return becomes a return of LLVM.
use bin2llvm.Base.{Bool, not, ◌++◌, Option, some, length, filter, map}
use bin2llvm.Base.Abort.{◌>>=◌}
use bin2llvm.Ir.{ins_return, ret, Inst, Block}
use bin2llvm.Ir.Meta.{has_metadata}
use bin2llvm.Build.Fixup.{cleanup_fake_returns, new_inst}

abbrev pub is_marked_return : Inst → Bool
is_marked_return i = has_metadata i ins_return

abbrev pub not_marked_return : Inst → Bool
not_marked_return i = not (is_marked_return i)

unfoldable pub fixup_returns : Block → Option Block
unfolding cleanup_fake_returns
fixup_returns b = do
  let returns = filter is_marked_return b.insts
  is ←
      cleanup_fake_returns (length returns)
        (filter not_marked_return b.insts ++ map (λ i. new_inst ret) returns)
  some (record b { insts = is })
