-- ===== src/Linker/Tests.antt =====
-- Two files with the same block, and one that cannot be loaded.
use bin2llvm.Base.{[], ◌∷◌, List, Option, none, some, ◌≡◌, refl, All, if◌then◌else◌}
use bin2llvm.Base.Map.{has, insert}
use bin2llvm.Hex.{hex}
use bin2llvm.Ir.{
  Function, Block, Metadata, Op, Module, ret, store, call, const_int, global_var, bb_pc_start,
  ins_direct_call,
}
use bin2llvm.Linker.Link.{link_files, IsLinked, link_files-IsLinked}
use bin2llvm.Ir.Meta.{has_metadata, get_pc_start_of_func, entry_block}
use bin2llvm.Linker.{Gathered, no_funcs, gather_funcs}
use bin2llvm.Linker.Unique.{count_starts, file_starts, gather_funcs_unique}

abbrev one_func : Function
one_func = record {
  name = "void-tcg-llvm-tb-1";
  blocks =
      record {
        label = 0;
        name = "entry";
        insts = record { id = 0; op = ret; meta = (bb_pc_start, hex 0x1000) ∷ [] } ∷ [];
      }
      ∷ [];
}

abbrev three_files : List (Option Module)
three_files = some (one_func ∷ []) ∷ none ∷ some (one_func ∷ []) ∷ []

abbrev one_gathered : Gathered
one_gathered = record { funcs_map = (0x1000, one_func) ∷ []; funcs_list = one_func ∷ [] }

gather_funcs-three : gather_funcs no_funcs three_files ≡ some one_gathered
unfolding gather_funcs hex entry_block get_pc_start_of_func has insert has_metadata
gather_funcs-three = refl

gather_funcs_unique_example :
    (count_starts 0x1000 one_gathered.funcs_list
      ≡ (if file_starts 0x1000 three_files then 1 else 0))
    × (has 0x1000 one_gathered.funcs_map ≡ file_starts 0x1000 three_files)
gather_funcs_unique_example = gather_funcs_unique three_files one_gathered 0x1000 gather_funcs-three

-- A caller of the block at 0x1000.
abbrev call_func : Metadata → Op → Function
call_func m op = record {
  name = "void-tcg-llvm-tb-2";
  blocks =
      record {
        label = 0;
        name = "entry";
        insts =
            record { id = 0; op = ret; meta = (bb_pc_start, hex 0x2000) ∷ [] }
            ∷ record { id = 1; op = op; meta = m }
            ∷ [];
      }
      ∷ [];
}

abbrev caller : Function
caller = call_func ((ins_direct_call, hex 0x1000) ∷ []) (store (const_int 0x1000) (global_var "PC"))

abbrev two_gathered : Gathered
two_gathered = record {
  funcs_map = (0x1000, one_func) ∷ (0x2000, caller) ∷ [];
  funcs_list = one_func ∷ caller ∷ [];
}

two_files-gathered : gather_funcs no_funcs (some (one_func ∷ caller ∷ []) ∷ []) ≡ some two_gathered
unfolding gather_funcs hex entry_block get_pc_start_of_func has insert has_metadata
two_files-gathered = refl

two_files-linked :
    link_files (λ fs. fs) (some (one_func ∷ caller ∷ []) ∷ [])
    ≡ some (one_func ∷ call_func [] (call "void-tcg-llvm-tb-1" []) ∷ [])
unfolding link_files hex entry_block get_pc_start_of_func has insert has_metadata
two_files-linked = refl

link_files-IsLinked_example :
    All
      (λ (f : Function).
        All (λ (b : Block). All (IsLinked (one_func ∷ caller ∷ [])) b.insts) f.blocks)
      (one_func ∷ call_func [] (call "void-tcg-llvm-tb-1" []) ∷ [])
link_files-IsLinked_example =
    link_files-IsLinked (λ fs. fs) (some (one_func ∷ caller ∷ []) ∷ []) two_gathered _
      two_files-gathered two_files-linked
