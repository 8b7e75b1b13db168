-- ===== src/Clean/Tests.antt =====
-- Small blocks for the clean-up passes.
use bin2llvm.Base.{ℕ, true, List, [], ◌∷◌, some, String, ◌≡◌, refl, arith, All, Pairwise}
use bin2llvm.Hex.{hex}
use bin2llvm.Ir.{
  Inst, Block, Function, Metadata, Op, store, const_int, global_var, cast_expr, ret, call,
  bb_pc_start, bb_pc_end, ins_curr_pc, trans_next_instruction_set,
}
use bin2llvm.Ir.Meta.{set_metadata, has_metadata, get_pc_start_of_func, get_pc_end_of_func}
use bin2llvm.Ir.Pc.{ends_in_ret}
use bin2llvm.Base.Map.{insert}
use bin2llvm.Clean.{leaves}
use bin2llvm.Clean.Trace.{
  remove_branch_trace, delete_instruction_count, cleaned_registers, writes, NoFlag,
}
use bin2llvm.Clean.ExtraPc.{pc_const, remove_extra_store_to_pc}
use bin2llvm.Clean.ExtraPc.Tags.{Fits}
use bin2llvm.Clean.ExtraPc.Final.{Final, remove_extra-Final}
use bin2llvm.Clean.Modes.{merge_pc_thumb, get_instruction_set, thumb, unknown}
use bin2llvm.Clean.Modes.Keeps.{merge_pc_thumb-Kept}
use bin2llvm.Clean.Dump.{dump_thumb_pcs, tagged_thumb, IsFlag, dump_thumb_pcs-zero}

abbrev inst_of : Op → Metadata → Inst
inst_of op m = record { id = 0; op = op; meta = m }

abbrev set_global : String → ℕ → Metadata → Inst
set_global g n m = inst_of (store (const_int n) (global_var g)) m

abbrev func_of : List Inst → Function
func_of is = record { name = "tb"; blocks = record { label = 0; name = "entry"; insts = is } ∷ [] }

abbrev traced : Function
traced = func_of (
    inst_of (store (const_int 1) (cast_expr true (some "s2e_trace"))) []
    ∷ inst_of (store (const_int 2) (cast_expr true (some "R0"))) []
    ∷ set_global "s2e_icount" 5 []
    ∷ set_global "R0" 7 []
    ∷ inst_of (call "helper_s2e_tcg_execution_handler" []) []
    ∷ inst_of ret []
    ∷ [])

traced-NoFlag : All (λ (b : Block). All (NoFlag "R0") b.insts) traced.blocks
traced-NoFlag = ((refl, (refl, (refl, (refl, (refl, (refl, tt)))))), tt)

cleaned_registers_example :
    writes "R0" (delete_instruction_count (remove_branch_trace traced).0).0.blocks
    ≡ some (const_int 7) ∷ []
cleaned_registers_example = cleaned_registers "R0" traced refl traced-NoFlag

abbrev bounds : Metadata
bounds = (bb_pc_start, hex 0x1000) ∷ (bb_pc_end, hex 0x1008) ∷ []

abbrev two_pcs : List Inst
two_pcs = set_global "PC" 0x1004 bounds ∷ set_global "PC" 0x2000 [] ∷ inst_of ret [] ∷ []

abbrev one_pc : Function
one_pc = func_of (
    set_metadata (set_global "PC" 0x2000 []) ins_curr_pc (hex 0x1004)
    ∷ set_metadata (inst_of ret []) ins_curr_pc (hex 0x2000)
    ∷ [])

remove_extra-Final_example : Pairwise Final (func_of two_pcs).blocks one_pc.blocks
unfolding remove_extra_store_to_pc hex get_pc_start_of_func get_pc_end_of_func set_metadata
    ends_in_ret
remove_extra-Final_example = remove_extra-Final (func_of two_pcs) (one_pc, true) refl

two_pcs-Fits : All Fits two_pcs
unfolding pc_const
two_pcs-Fits = ((λ n e. ground arith), ((λ n e. ground arith), ((λ n e. ground arith), tt)))

abbrev to_thumb : Function
to_thumb = func_of (set_global "thumb" 1 [] ∷ set_global "PC" 0x2001 [] ∷ inst_of ret [] ∷ [])

abbrev merged : Function
merged = func_of (
    set_global "PC" 0x2001
      ((trans_next_instruction_set, b't' ∷ b'h' ∷ b'u' ∷ b'm' ∷ b'b' ∷ []) ∷ [])
    ∷ inst_of ret []
    ∷ [])

merge_pc_thumb-Kept_example :
    (leaves "PC" merged.blocks ≡ leaves "PC" to_thumb.blocks)
    × (get_instruction_set ((0x2000, thumb) ∷ []) 0x2001 ≡ unknown)
unfolding merge_pc_thumb set_metadata insert
merge_pc_thumb-Kept_example =
    merge_pc_thumb-Kept "PC" 0x2001 [] to_thumb (merged, (0x2000, thumb) ∷ []) refl (omega arith) tt
      refl

abbrev tagged_mode : Inst
tagged_mode = set_global "thumb" 1 ((ins_curr_pc, hex 0x1000) ∷ [])

abbrev tagged_jump : Inst
tagged_jump = set_global "PC" 0x2000 ((ins_curr_pc, hex 0x1000) ∷ [])

mode_inst-IsFlag : IsFlag tagged_mode
unfolding IsFlag tagged_thumb has_metadata
mode_inst-IsFlag n e = ground arith

jump_inst-IsFlag : IsFlag tagged_jump
unfolding IsFlag tagged_thumb has_metadata
jump_inst-IsFlag n e = ground arith

dump_thumb_pcs-zero_example :
    All (λ (pc : ℕ). pc ≡ 0) (dump_thumb_pcs (func_of (tagged_jump ∷ tagged_mode ∷ []) ∷ []))
dump_thumb_pcs-zero_example =
    dump_thumb_pcs-zero (func_of (tagged_jump ∷ tagged_mode ∷ []) ∷ [])
      ((jump_inst-IsFlag, (mode_inst-IsFlag, tt)), tt)
