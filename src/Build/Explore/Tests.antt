-- ===== src/Build/Explore/Tests.antt =====
-- Runs of the search over the blocks of a function.
use bin2llvm.Base.{ℕ, ◌≤◌, true, false, [], ◌∷◌, length, ◌≡◌, ◌↔◌, refl, arith, count}
use bin2llvm.Base.Map.{NatMap, find, has, insert}
use bin2llvm.Hex.{hex}
use bin2llvm.Ir.{
  Inst, Function, Module, store, const_int, global_var, ins_direct_call, ins_call_return,
  ins_direct_jump,
}
use bin2llvm.Ir.Meta.{has_metadata, get_hex_metadata_from_ins}
use bin2llvm.Build.Targets.{inst_targets}
use bin2llvm.Build.Explore.{Search, done, explore, expand, visit_all, visit}
use bin2llvm.Build.Explore.Visit.{InRange}
use bin2llvm.Build.Explore.Returns.{AllRun, Runs, explore_returns}
use bin2llvm.Build.Explore.Correct.{Reach, explore_correct}

-- A block that calls a function and goes on at 8, one that jumps back to 0, and one apart.
abbrev call_inst : Inst
call_inst = record {
  id = 0;
  op = store (const_int 0x40) (global_var "PC");
  meta = (ins_direct_call, hex 0x40) ∷ (ins_call_return, hex 8) ∷ [];
}

abbrev jump_inst : Inst
jump_inst = record {
  id = 1;
  op = store (const_int 0) (global_var "PC");
  meta = (ins_direct_jump, hex 0) ∷ [];
}

abbrev block_of : Inst → Function
block_of i = record {
  name = "tb";
  blocks = record { label = 0; name = "entry"; insts = i ∷ [] } ∷ [];
}

abbrev two_blocks : Module
two_blocks = block_of call_inst ∷ block_of jump_inst ∷ block_of jump_inst ∷ []

abbrev bbs_of_two : NatMap ℕ
bbs_of_two = (0, 0) ∷ (8, 1) ∷ (16, 2) ∷ []

abbrev found : Search
found = record {
  bbs = 0 ∷ 1 ∷ [];
  pending = [];
  explored = (0, true) ∷ (1, true) ∷ [];
  has_indirect_jump = false;
}

explore-two : explore two_blocks bbs_of_two 0 ≡ done found
unfolding explore inst_targets hex expand has_metadata get_hex_metadata_from_ins visit_all visit
    find has insert
explore-two = refl

explore_correct_example :
    (count 1 found.bbs ≤ 1) × ((count 1 found.bbs ≡ 1) ↔ Reach two_blocks bbs_of_two 0 1)
explore_correct_example = explore_correct two_blocks bbs_of_two 0 found 1 explore-two

two-InRange : InRange (length two_blocks) bbs_of_two
unfolding find
two-InRange pc b e = ground arith

call-Runs : Runs call_inst
unfolding inst_targets hex has_metadata get_hex_metadata_from_ins
call-Runs = (record { pcs = 8 ∷ []; is_indirect = false }, refl)

jump-Runs : Runs jump_inst
unfolding inst_targets hex has_metadata get_hex_metadata_from_ins
jump-Runs = (record { pcs = 0 ∷ []; is_indirect = false }, refl)

two_blocks-AllRun : AllRun two_blocks
two_blocks-AllRun = ((call-Runs, tt), ((jump-Runs, tt), ((jump-Runs, tt), tt)))

explore_returns_example : (t : Search) × (explore two_blocks bbs_of_two 0 ≡ done t)
explore_returns_example =
    explore_returns two_blocks bbs_of_two 0 two_blocks-AllRun two-InRange (omega arith)
