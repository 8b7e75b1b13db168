-- ===== src/Save/Tests.antt =====
-- Two blocks, each of one instruction.
use bin2llvm.Base.{ℕ, List, [], ◌∷◌, All, String, refl, arith}
use bin2llvm.Ir.{Inst, Block, Function, ret}
use bin2llvm.Save.{TranslatedBb, create_and_save}
use bin2llvm.Save.Reads.{Saved, create_and_save-Saved}

abbrev one_inst : Inst
one_inst = record { id = 0; op = ret; meta = [] }

abbrev translated : String → ℕ → ℕ → TranslatedBb
translated name s e = record {
  bb_function = record {
    name = name;
    blocks = record { label = 0; name = "entry"; insts = one_inst ∷ [] } ∷ [];
  };
  pc_start = s;
  pc_end = e;
}

abbrev blocks_of : Function → List Block
blocks_of f = f.blocks

abbrev two_bbs : List TranslatedBb
two_bbs = translated "tcg-llvm-tb-0" 0x1000 0x1004 ∷ translated "tcg-llvm-tb-1" 0x1004 0x1010 ∷ []

create_and_save-Saved_example : All (Saved blocks_of (create_and_save blocks_of two_bbs)) two_bbs
create_and_save-Saved_example =
    let entry : Block = record { label = 0; name = "entry"; insts = one_inst ∷ [] } in
    create_and_save-Saved blocks_of two_bbs ((refl, tt), (tt, tt))
      (
        ((omega arith, omega arith), (entry, one_inst, [], [], refl, refl)),
        (((omega arith, omega arith), (entry, one_inst, [], [], refl, refl)), tt),
      )
