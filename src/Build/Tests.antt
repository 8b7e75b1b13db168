-- ===== src/Build/Tests.antt =====
-- A block that calls, through all marking passes.
use bin2llvm.Base.{true, false, [], ◌∷◌, some, ◌≡◌, refl, arith, All, get_elem?, if◌then◌else◌}
use bin2llvm.Base.Map.{has, insert}
use bin2llvm.Hex.{hex}
use bin2llvm.Ir.{
  Inst, Function, Metadata, store, const_int, global_var, bb_pc_start, bb_pc_end, ins_direct_call,
  ins_call_return,
}
use bin2llvm.Ir.Meta.{
  has_metadata, set_metadata, get_pc_start_of_func, get_pc_end_of_func, entry_block,
}
use bin2llvm.Ir.Pc.{all_insts, any}
use bin2llvm.Mark.Call.{mark_call, mark_call_inst, next_lr, is_call}
use bin2llvm.Mark.Return.{mark_return, is_return}
use bin2llvm.Mark.Jumps.{mark_jumps}
use bin2llvm.Build.Targets.{Targets, inst_targets}
use bin2llvm.Build.Entry.{mark_func_entry, as_entry, front_calls_directly, mark_func_entry_exact}
use bin2llvm.Build.Ready.{IsRaw, marks_ready}

abbrev set_lr : Inst
set_lr = record {
  id = 0;
  op = store (const_int 0x1009) (global_var "LR");
  meta = (bb_pc_start, hex 0x1000) ∷ (bb_pc_end, hex 0x1008) ∷ [];
}

abbrev set_pc : Metadata → Inst
set_pc m = record { id = 1; op = store (const_int 0x2000) (global_var "PC"); meta = m }

abbrev caller : Metadata → Function
caller m = record {
  name = "tb";
  blocks = record { label = 0; name = "entry"; insts = set_lr ∷ set_pc m ∷ [] } ∷ [];
}

abbrev call_marks : Metadata
call_marks = (ins_direct_call, hex 0x2000) ∷ (ins_call_return, hex 0x1008) ∷ []

caller_end : get_pc_end_of_func (caller []) ≡ some 0x1008
unfolding get_pc_end_of_func hex
caller_end = refl

set_lr-IsRaw : IsRaw set_lr
unfolding has_metadata
set_lr-IsRaw = record {
  no_call = (refl, refl);
  no_jump = (refl, refl);
  lr_fits = λ n e. ground arith;
  pc_fits = λ n e. ground arith;
  switch_whole = λ e. absurd (cc);
}

set_pc-IsRaw : IsRaw (set_pc [])
unfolding has_metadata
set_pc-IsRaw = record {
  no_call = (refl, refl);
  no_jump = (refl, refl);
  lr_fits = λ n e. ground arith;
  pc_fits = λ n e. ground arith;
  switch_whole = λ e. absurd (cc);
}

mark_call-caller : mark_call (caller []) ≡ some (caller call_marks, true)
unfolding mark_call hex get_pc_start_of_func get_pc_end_of_func mark_call_inst any next_lr
    set_metadata is_call
mark_call-caller = refl

mark_return-caller : mark_return (caller call_marks) ≡ some (caller call_marks, false)
unfolding mark_return hex get_pc_start_of_func get_pc_end_of_func is_return any
mark_return-caller = refl

marks_ready_example :
    All
      (λ i. (t : Targets) × (inst_targets i ≡ some t))
      (all_insts (mark_jumps (caller call_marks)).0.blocks)
marks_ready_example =
    marks_ready (caller []) (caller call_marks) (caller call_marks) true false 0x1008 caller_end
      (omega arith) (omega arith) (set_lr-IsRaw, (set_pc-IsRaw, tt)) mark_call-caller
      mark_return-caller

-- A translated block that calls its own start.
abbrev self_call : Inst
self_call = record {
  id = 0;
  op = store (const_int 0x1000) (global_var "PC");
  meta = (bb_pc_start, hex 0x1000) ∷ (ins_direct_call, hex 0x1000) ∷ [];
}

abbrev recursive : Function
recursive = record {
  name = "void-tcg-llvm-tb-1";
  blocks = record { label = 0; name = "entry"; insts = self_call ∷ [] } ∷ [];
}

recursive_start : get_pc_start_of_func recursive ≡ some 0x1000
unfolding get_pc_start_of_func hex
recursive_start = refl

mark_func_entry-recursive : mark_func_entry (recursive ∷ []) ≡ some (as_entry recursive ∷ [], true)
unfolding mark_func_entry hex entry_block get_pc_start_of_func has insert
mark_func_entry-recursive = refl

mark_func_entry_exact_example :
    get_elem? (as_entry recursive ∷ []) 0
    ≡ some (if front_calls_directly 0x1000 (recursive ∷ []) then as_entry recursive else recursive)
mark_func_entry_exact_example =
    mark_func_entry_exact (recursive ∷ []) (as_entry recursive ∷ []) true 0 recursive 0x1000
      mark_func_entry-recursive refl refl recursive_start
