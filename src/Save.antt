-- ===== src/Save.antt =====
-- harvesting-passes/SaveTranslatedBBs.cpp: the translated blocks become one module, and each instruction
-- is told where its block starts and ends. What CloneFunctionInto adds to a function is an argument.
pub mod Reads
mod Tests
use bin2llvm.Base.{
  ℕ, Bool, true, false, List, [], ◌∷◌, ◌++◌, Option, none, some, String, str_eq, map, if◌then◌else◌,
}
use bin2llvm.Hex.{hex}
use bin2llvm.Ir.{Inst, Block, Function, Module, bb_pc_start, bb_pc_end}
use bin2llvm.Ir.Meta.{set_metadata}

-- MyTranslationBasicBlock
pub record TranslatedBb : Type 0 where
  pub bb_function : Function
  pub pc_start : ℕ
  pub pc_end : ℕ

unfoldable pub annotate_inst : ℕ → ℕ → Inst → Inst
unfolding set_metadata hex
annotate_inst pc_start pc_end i =
    set_metadata (set_metadata i bb_pc_start (hex pc_start)) bb_pc_end (hex pc_end)

unfoldable pub annotate_block : ℕ → ℕ → Block → Block
unfolding annotate_inst
annotate_block pc_start pc_end b = record b { insts = map (annotate_inst pc_start pc_end) b.insts }

unfoldable pub annotate_new_function : ℕ → ℕ → Function → Function
unfolding annotate_block
annotate_new_function pc_start pc_end f = record f {
  blocks = map (annotate_block pc_start pc_end) f.blocks;
}

unfoldable pub find_function : String → Module → Option Function
find_function name [] = none
find_function name (f ∷ m) = if str_eq f.name name then some f else find_function name m

module _ (clone : Function → List Block) where
  -- The code of the block is cloned into the function with its name, which is then annotated.
  unfoldable pub clone_into : TranslatedBb → Function → Function
  unfolding annotate_new_function
  clone_into t f =
      annotate_new_function t.pc_start t.pc_end
        (record f { blocks = f.blocks ++ clone t.bb_function })

  -- getOrInsertFunction gives the function that has the name, or a new one at the end.
  unfoldable pub save_block : TranslatedBb → Module → Module
  unfolding clone_into
  save_block t [] = clone_into t (record { name = t.bb_function.name; blocks = [] }) ∷ []
  save_block t (f ∷ m) =
      if str_eq f.name t.bb_function.name then clone_into t f ∷ m else f ∷ save_block t m

  unfoldable pub save_blocks : List TranslatedBb → Module → Module
  unfolding save_block
  save_blocks [] m = m
  save_blocks (t ∷ ts) m = save_blocks ts (save_block t m)

  -- The module that is written.
  unfoldable pub create_and_save : List TranslatedBb → Module
  unfolding save_blocks
  create_and_save all_bbs = save_blocks all_bbs []
