-- ===== src/Build/Assemble/Tests.antt =====
-- Two blocks of a function: a jump to the second one, which returns.
use bin2llvm.Base.{
  true, some, ℕ, false, List, [], ◌∷◌, none, String, ◌≡◌, refl, arith, inl, All, here,
}
use bin2llvm.Hex.{hex}
use bin2llvm.Ir.{
  other_value, ins_indirect_jump, ins_switch_cnt, ins_switch_default, ins_switch_idx_start, Inst,
  Block, Metadata, store, const_int, global_var, ret, bb_pc_start, ins_direct_jump, ins_return,
  ins_fake_return,
}
use bin2llvm.Ir.Pc.{true_text}
use bin2llvm.Base.Map.{find, has, insert}
use bin2llvm.Ir.Meta.{has_metadata, front_inst, get_bb_start}
use bin2llvm.Ir.Pc.{any}
use bin2llvm.Build.Shape.{is_fake, is_exit, no_terms}
use bin2llvm.Build.Fixup.Calls.{fixup_calls}
use bin2llvm.Build.Fixup.Jumps.{fixup_direct_jumps}
use bin2llvm.Build.Fixup.{branch_to, new_inst}
use bin2llvm.Build.Assemble.{fixup_blocks, fixup_entry, has_use}
use bin2llvm.Build.Assemble.Marks.{Exit}
use bin2llvm.Build.Assemble.Ends.{EndsOnce, fixup_blocks-EndsOnce}
use bin2llvm.Build.Assemble.Skipped.{IsSkipped, skipped_jump-no_terms}
use bin2llvm.Build.Fixup.Switched.{get_value_switched_on}
use bin2llvm.Build.Fixup.Indirect.{fixup_indirect_jumps}
use bin2llvm.Build.Assemble.Entry.{IsClosed, entry_used, fixup_entry-first_unused}

abbrev pc_store_with : Metadata → Inst
pc_store_with m = record { id = 1; op = store (const_int 0x2000) (global_var "PC"); meta = m }

abbrev fake_return : Inst
fake_return = record { id = 0; op = ret; meta = (ins_fake_return, true_text) ∷ [] }

abbrev block_of : ℕ → String → List Inst → Block
block_of l name is = record { label = l; name = name; insts = is }

abbrev jumper : Block
jumper = block_of 0 "func_entry_point" (
    pc_store_with ((bb_pc_start, hex 0x1000) ∷ (ins_direct_jump, hex 0x2000) ∷ [])
    ∷ fake_return
    ∷ [])

abbrev returner : Block
returner =
    block_of 1 "bb"
      (pc_store_with ((bb_pc_start, hex 0x2000) ∷ (ins_return, true_text) ∷ []) ∷ fake_return ∷ [])

jumper-Exit : Exit jumper.insts
unfolding has_metadata is_fake
jumper-Exit = record {
  exit = refl;
  plain = refl;
  single = omega arith;
  indexed = ((λ e. absurd (cc)), ((λ e. absurd (cc)), tt));
}

returner-Exit : Exit returner.insts
unfolding has_metadata is_fake
returner-Exit = record {
  exit = refl;
  plain = refl;
  single = omega arith;
  indexed = ((λ e. absurd (cc)), ((λ e. absurd (cc)), tt));
}

fixup_blocks-EndsOnce_example :
    All EndsOnce
      (block_of 0 "func_entry_point" (branch_to 1 ∷ []) ∷ block_of 1 "bb" (new_inst ret ∷ []) ∷ [])
unfolding fixup_blocks hex front_inst has_metadata get_bb_start fixup_calls fixup_direct_jumps find
    has insert is_fake
fixup_blocks-EndsOnce_example =
    fixup_blocks-EndsOnce none (jumper ∷ returner ∷ []) _ (inl jumper-Exit, (inl returner-Exit, tt))
      refl

abbrev entry_loop : Block
entry_loop = block_of 0 "func_entry_point" (branch_to 0 ∷ [])

entry_loop-IsClosed : IsClosed (entry_loop ∷ [])
unfolding IsClosed has_use any
entry_loop-IsClosed l e = here (ground arith)

fixup_entry-first_unused_example :
    entry_used (block_of 1 "fixup_entry" (branch_to 0 ∷ []) ∷ entry_loop ∷ []) ≡ false
unfolding fixup_entry
fixup_entry-first_unused_example = fixup_entry-first_unused entry_loop [] refl entry_loop-IsClosed

abbrev lost_jump : Inst
lost_jump = record {
  id = 1;
  op = store (other_value 0) (global_var "PC");
  meta =
      (ins_indirect_jump, true_text)
      ∷ (ins_switch_cnt, hex 2)
      ∷ (ins_switch_default, hex 0x3000)
      ∷ (ins_switch_idx_start, hex 0)
      ∷ [];
}

abbrev lost_block : Block
lost_block = block_of 0 "bb" (lost_jump ∷ fake_return ∷ [])

lost_block-IsSkipped : IsSkipped lost_block
unfolding has_metadata get_value_switched_on
lost_block-IsSkipped = record {
  before = [];
  at = lost_jump;
  behind = fake_return ∷ [];
  whole = refl;
  none_before = refl;
  none_behind = refl;
  jump = refl;
  count = refl;
  default = refl;
  start = refl;
  no_index = refl;
}

lost_block-is_exit : is_exit lost_block.insts ≡ true
unfolding has_metadata is_fake
lost_block-is_exit = refl

skipped_jump-no_terms_example :
    (c : Block) × (fixup_indirect_jumps [] none lost_block
        (record { my_fake_bb = none; created = []; next_label = 1 })
      ≡ some (c, record { my_fake_bb = none; created = []; next_label = 1 }))
    × (no_terms c.insts ≡ true)
skipped_jump-no_terms_example =
    skipped_jump-no_terms [] none lost_block
      (record { my_fake_bb = none; created = []; next_label = 1 }) lost_block-is_exit
      lost_block-IsSkipped
