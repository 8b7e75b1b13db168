-- ===== src/Solve/Tests.antt =====
-- A computed jump whose target the optimised code knows.
use bin2llvm.Base.{ℕ, String, sym, ap, Bool, List, [], ◌∷◌, true, some, none, ◌≡◌, refl}
use bin2llvm.Hex.{hex}
use bin2llvm.Ir.{
  Value, Inst, Function, store, load, const_int, inst_ref, global_var, ins_curr_pc,
  ins_computed_value,
}
use bin2llvm.Ir.Meta.{get_current_pc_of_ins}
use bin2llvm.Solve.{DirectStores, known_store, initialize, perform_annotations}
use bin2llvm.Solve.Returns.{is_plain, PlainStore, IsSolved, perform_annotations-returns}
use bin2llvm.Base.Abort.{some_inj}

abbrev func_of : List Inst → Function
func_of is = record {
  name = "Function_0x00001000";
  blocks = record { label = 0; name = "entry"; insts = is } ∷ [];
}

abbrev jump_of : Value → Inst
jump_of v = record { id = 2; op = store v (global_var "PC"); meta = (ins_curr_pc, hex 0x1000) ∷ [] }

abbrev load_inst : Inst
load_inst = record { id = 1; op = load (global_var "R0"); meta = [] }

abbrev solved_stores : DirectStores
solved_stores = ("PC", (0x1000, 0x2000) ∷ []) ∷ []

initialize_test :
    initialize [] (none ∷ some (func_of (jump_of (const_int 0x2000) ∷ []) ∷ []) ∷ [])
    ≡ solved_stores
unfolding initialize hex get_current_pc_of_ins
initialize_test = refl

abbrev solved_jump : Inst
solved_jump = record {
  id = 2;
  op = store (const_int 0x2000) (global_var "PC");
  meta = (ins_curr_pc, hex 0x1000) ∷ (ins_computed_value, hex 0x2000) ∷ [];
}

run_test :
    perform_annotations solved_stores [] (func_of (load_inst ∷ jump_of (inst_ref 1) ∷ []))
    ≡ some (func_of (load_inst ∷ solved_jump ∷ []), 0x2000 ∷ [], true)
unfolding perform_annotations hex get_current_pc_of_ins
run_test = refl

jump-PlainStore : PlainStore (jump_of (inst_ref 1))
unfolding known_store get_current_pc_of_ins hex
jump-PlainStore g v pc e = sym (ap (λ (r : String × Value × ℕ). is_plain r.1) (some_inj e))

load-PlainStore : PlainStore load_inst
unfolding known_store get_current_pc_of_ins
load-PlainStore g v pc e = cc

perform_annotations-returns_example :
    (r : Function × List ℕ × Bool) × (perform_annotations solved_stores []
        (func_of (load_inst ∷ jump_of (inst_ref 1) ∷ []))
      ≡ some r)
    × IsSolved solved_stores (func_of (load_inst ∷ jump_of (inst_ref 1) ∷ [])) r.0
perform_annotations-returns_example =
    perform_annotations-returns solved_stores [] (func_of (load_inst ∷ jump_of (inst_ref 1) ∷ []))
      ((load-PlainStore, (jump-PlainStore, tt)), tt)
