-- ===== src/Mark/Tests.antt =====
-- Functions of one block, marked.
use bin2llvm.Base.{true, ◌&&◌, List, [], ◌∷◌, none, some, get_elem?, ◌≡◌, ◌↔◌, refl, arith, All}
use bin2llvm.Hex.{hex}
use bin2llvm.Ir.{
  Inst, Function, store, load, binary, and_op, const_int, global_var, inst_ref, bb_pc_start,
  bb_pc_end, ins_direct_call, ins_indirect_call, ins_call_return, ins_return, Metadata,
}
use bin2llvm.Ir.Meta.{has_metadata, set_metadata, get_pc_start_of_func, get_pc_end_of_func}
use bin2llvm.Ir.Pc.{all_insts, any, pc_store, true_text}
use bin2llvm.Mark.Call.{mark_call, mark_call_insts, no_lr, mark_call_inst, next_lr, is_call}
use bin2llvm.Mark.Call.Returns.{CallReturnsTo, LrFits, NoCall, mark_call_returns}
use bin2llvm.Mark.Call.Exact.{
  holds_return, last_const_lr, mark_call_exact, stores_const, stores_unknown,
}
use bin2llvm.Mark.Return.{mark_return, is_return, uses_lr}
use bin2llvm.Mark.Return.Aborts.{clash, mark_return_aborts}
use bin2llvm.Mark.Return.Separate.{IsSeparate, NotReturn, mark_return-IsSeparate}
use bin2llvm.Mark.Jumps.{Marking, NoJump, PcFits, mark_jumps, mark_jumps-Marking}

-- LR = 0x1009; PC = 0x2000, in a block from 0x1000 to 0x1008.
abbrev set_lr : Inst
set_lr = record {
  id = 0;
  op = store (const_int 0x1009) (global_var "LR");
  meta = (bb_pc_start, hex 0x1000) ∷ (bb_pc_end, hex 0x1008) ∷ [];
}

abbrev set_pc : Inst
set_pc = record { id = 1; op = store (const_int 0x2000) (global_var "PC"); meta = [] }

abbrev function_of : List Inst → Function
function_of is = record {
  name = "tb";
  blocks = record { label = 0; name = "entry"; insts = is } ∷ [];
}

abbrev caller : Function
caller = function_of (set_lr ∷ set_pc ∷ [])

caller_end : get_pc_end_of_func caller ≡ some 0x1008
unfolding get_pc_end_of_func hex
caller_end = refl

caller-NoCall : All NoCall (all_insts caller.blocks)
unfolding has_metadata
caller-NoCall = ((refl, refl), ((refl, refl), tt))

caller-LrFits : All LrFits (all_insts caller.blocks)
caller-LrFits = ((λ n e. ground arith), ((λ n e. ground arith), tt))

called_at_1 :
    get_elem? (mark_call_insts 0x1008 no_lr (set_lr ∷ set_pc ∷ [])) 1
    ≡ some (mark_call_inst 0x1008 (record { has_lr_store = true; lr_val = 0x1009 }) set_pc)
unfolding mark_call_insts next_lr
called_at_1 = refl

mark_call_exact_example :
    let called = holds_return 0x1008 (last_const_lr (set_lr ∷ [])) in
    let j = mark_call_inst 0x1008 (record { has_lr_store = true; lr_val = 0x1009 }) set_pc in
    (has_metadata j ins_direct_call ≡ (stores_const (pc_store set_pc) && called))
    × (has_metadata j ins_indirect_call ≡ (stores_unknown (pc_store set_pc) && called))
mark_call_exact_example =
    mark_call_exact 0x1008 (set_lr ∷ []) [] set_pc
      (mark_call_inst 0x1008 (record { has_lr_store = true; lr_val = 0x1009 }) set_pc) (omega arith)
      (caller-LrFits.0, tt) caller-NoCall.1.0 called_at_1

caller-NoJump : All NoJump (all_insts caller.blocks)
unfolding has_metadata
caller-NoJump = ((refl, refl), ((refl, refl), tt))

caller-PcFits : All PcFits (all_insts caller.blocks)
caller-PcFits = ((λ n e. ground arith), ((λ n e. ground arith), tt))

mark_jumps-Marking_example : All Marking (all_insts (mark_jumps caller).0.blocks)
mark_jumps-Marking_example = mark_jumps-Marking caller caller-NoJump caller-PcFits

abbrev marked_pc : Inst
marked_pc = record set_pc {
  meta = (ins_direct_call, hex 0x2000) ∷ (ins_call_return, hex 0x1008) ∷ [];
}

mark_call-caller : mark_call caller ≡ some (function_of (set_lr ∷ marked_pc ∷ []), true)
unfolding mark_call hex get_pc_start_of_func get_pc_end_of_func mark_call_inst any next_lr
    set_metadata is_call
mark_call-caller = refl

mark_call_returns_example : All (CallReturnsTo 0x1008) (set_lr ∷ marked_pc ∷ [])
mark_call_returns_example =
    mark_call_returns caller (function_of (set_lr ∷ marked_pc ∷ [])) true 0x1008 caller_end
      (omega arith) (omega arith) caller-NoCall caller-LrFits mark_call-caller

-- PC = LR & -2, in a block from 0x1000 to 0x1008.
abbrev load_lr : Inst
load_lr = record {
  id = 0;
  op = load (global_var "LR");
  meta = (bb_pc_start, hex 0x1000) ∷ (bb_pc_end, hex 0x1008) ∷ [];
}

abbrev and_inst : Inst
and_inst = record { id = 1; op = binary and_op (inst_ref 0) (const_int 0xfffffffe); meta = [] }

abbrev return_inst : Metadata → Inst
return_inst m = record { id = 2; op = store (inst_ref 1) (global_var "PC"); meta = m }

abbrev returner : Metadata → Function
returner m = function_of (load_lr ∷ and_inst ∷ return_inst m ∷ [])

abbrev returned : Function
returned = record {
  name = "tb";
  blocks =
      record {
        label = 0;
        name = "func_return_bb_entry";
        insts = load_lr ∷ and_inst ∷ return_inst ((ins_return, true_text) ∷ []) ∷ [];
      }
      ∷ [];
}

mark_return-returner : mark_return (returner []) ≡ some (returned, true)
unfolding mark_return hex get_pc_start_of_func get_pc_end_of_func is_return uses_lr has_metadata
    set_metadata
mark_return-returner = refl

returner-NotReturn : All NotReturn (all_insts (returner []).blocks)
unfolding has_metadata
returner-NotReturn = (refl, (refl, (refl, tt)))

mark_return-IsSeparate_example : All IsSeparate (all_insts returned.blocks)
mark_return-IsSeparate_example =
    mark_return-IsSeparate (returner []) returned true returner-NotReturn mark_return-returner

-- A return that is marked as an indirect call.
abbrev clashing : Function
clashing = returner ((ins_indirect_call, hex 0xdeadbeef) ∷ [])

clashing_start : get_pc_start_of_func clashing ≡ some 0x1000
unfolding get_pc_start_of_func hex
clashing_start = refl

clashing_end : get_pc_end_of_func clashing ≡ some 0x1008
unfolding get_pc_end_of_func hex
clashing_end = refl

mark_return_aborts_example :
    (mark_return clashing ≡ none)
    ↔ (any (clash (all_insts clashing.blocks)) (all_insts clashing.blocks) ≡ true)
mark_return_aborts_example = mark_return_aborts clashing 0x1000 0x1008 clashing_start clashing_end
