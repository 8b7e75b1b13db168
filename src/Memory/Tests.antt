-- ===== src/Memory/Tests.antt =====
-- Reads of a small memory image.
use bin2llvm.Base.{ℕ, zero, suc, ◌<◌, true, false, [], ◌∷◌, none, some, All, ◌≡◌, refl, arith}
use bin2llvm.Base.Map.{find, insert}
use bin2llvm.JumpTable.{JumpTableInfo, IsTable, cnt_entries}
use bin2llvm.Hex.{hex}
use bin2llvm.Ir.{Inst, Function, store, call, const_int, inst_ref, global_var, ins_curr_pc}
use bin2llvm.Memory.Loads.{replace_constant_loads}
use bin2llvm.Memory.Loads.Values.{Replaced, replace_constant_loads-Replaced}
use bin2llvm.Ir.Meta.{get_hex_metadata_from_ins}
use bin2llvm.Ir.Pc.{pc_store}
use bin2llvm.Memory.{MemoryPool, read, inside, get_memory_value, get_typed_value}
use bin2llvm.Memory.Endian.{IsByte, read-value}
use bin2llvm.Memory.Tables.{annotate_inst, IsEntry, IsSolved, annotate_inst-IsSolved}

abbrev one_pool : MemoryPool
one_pool = record { mp_start = 0x100; mp_file = 0x10 ∷ 0x20 ∷ 0 ∷ 0 ∷ 0x30 ∷ 0x20 ∷ 0 ∷ 0 ∷ [] }

one_pool-bytes : All IsByte one_pool.mp_file
one_pool-bytes = ground arith

read-value_example : read one_pool 0x100 4 false ≡ some 0x2010
read-value_example =
    read-value one_pool 0x100 4 false one_pool-bytes (omega arith) (omega arith) (omega arith)
      (omega arith)

in_pool : inside one_pool 0x106 ≡ true
unfolding inside
in_pool = refl

abbrev one_table : JumpTableInfo
one_table = record {
  bb_start = 0x2000;
  bb_end = 0x2008;
  indirect_jmp_pc = 0x2004;
  default_case_pc = 0x2040;
  base_table = 0x100;
  idx_start = 3;
  idx_stop = 4;
}

one_table-IsTable : IsTable one_table
one_table-IsTable = record { ordered = omega arith; few = omega arith; word = omega arith }

two_entries : cnt_entries one_table ≡ some 2
unfolding cnt_entries
two_entries = refl

abbrev table_jump : Inst
table_jump = record {
  id = 0;
  op = store (inst_ref 7) (global_var "PC");
  meta = (ins_curr_pc, hex 0x2004) ∷ [];
}

abbrev one_entry : ℕ → ℕ
one_entry zero = 0x2010
one_entry (suc i) = 0x2030

table_jump-pc : get_hex_metadata_from_ins table_jump ins_curr_pc ≡ some 0x2004
unfolding get_hex_metadata_from_ins hex
table_jump-pc = refl

found_table : find 0x2004 ((0x2004, one_table) ∷ []) ≡ some one_table
unfolding find
found_table = refl

table_jump-store : pc_store table_jump ≡ some (inst_ref 7)
table_jump-store = refl

each-IsEntry : (j : ℕ) → j < 2 → IsEntry (one_pool ∷ []) false one_table j (one_entry j)
unfolding get_memory_value
each-IsEntry zero l = (refl, omega arith)
each-IsEntry (suc zero) l = (refl, omega arith)
each-IsEntry (suc (suc j)) l = absurd (omega arith)

annotate_inst-IsSolved_example :
    (out : Inst) × (annotate_inst (one_pool ∷ []) false ((0x2004, one_table) ∷ []) table_jump
      ≡ some out)
    × IsSolved (one_pool ∷ []) false one_table 2 one_entry out
annotate_inst-IsSolved_example =
    annotate_inst-IsSolved (one_pool ∷ []) false ((0x2004, one_table) ∷ []) one_table table_jump
      (inst_ref 7) 0x2004 2 one_entry table_jump-store table_jump-pc found_table two_entries
      (omega arith) (omega arith) (omega arith) each-IsEntry

-- A 16-bit load from the image, and one from outside it.
typed_inside : get_typed_value (one_pool ∷ []) 0x104 16 false ≡ some (some 0x2030)
unfolding get_typed_value
typed_inside = refl

typed_outside : get_typed_value (one_pool ∷ []) 0x200 16 false ≡ some none
unfolding get_typed_value
typed_outside = refl

-- A load of an address that is loaded itself, and a store of the result.
abbrev load_func : Function
load_func = record {
  name = "f";
  blocks =
      record {
        label = 0;
        name = "entry";
        insts =
            record { id = 1; op = call "__ldb_mmu" (const_int 0x100 ∷ const_int 0 ∷ []); meta = [] }
            ∷ record { id = 0; op = store (inst_ref 1) (global_var "R0"); meta = [] }
            ∷ [];
      }
      ∷ [];
}

abbrev loaded_func : Function
loaded_func = record {
  name = "f";
  blocks =
      record {
        label = 0;
        name = "entry";
        insts = record { id = 0; op = store (const_int 0x10) (global_var "R0"); meta = [] } ∷ [];
      }
      ∷ [];
}

replace_constant_loads-Replaced_example : Replaced (one_pool ∷ []) false load_func loaded_func
unfolding replace_constant_loads get_typed_value inside read insert annotate_inst find
replace_constant_loads-Replaced_example =
    replace_constant_loads-Replaced (one_pool ∷ []) false [] load_func (loaded_func, true) refl
