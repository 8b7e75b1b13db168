-- ===== src/Build/Assemble/Skipped.antt =====
-- A jump through a table whose index is not found: `if (!op) continue` in fixupIndirectJumps.
use mathlib.Core.List.{append-nil}
use bin2llvm.Base.{
  ℕ, true, false, List, [], ◌∷◌, ◌++◌, Option, none, some, filter, ◌≡◌, refl, arith,
}
use bin2llvm.Base.Map.{NatMap}
use bin2llvm.Ir.{
  ins_indirect_jump, ins_switch_cnt, ins_switch_default, ins_switch_idx_start, Inst, Block,
}
use bin2llvm.Ir.Meta.{has_metadata}
use bin2llvm.Build.Shape.{not_fake, is_exit, no_terms, no_terms-filter_exit}
use bin2llvm.Build.Fixup.{cleanup_fake_returns}
use bin2llvm.Build.Fixup.Switched.{get_value_switched_on}
use bin2llvm.Build.Fixup.Indirect.{
  Fake, Found, skipped, add_solved, solve_switch, solve_jump, scan_indirect, branches_to_fake,
  fixup_indirect_jumps,
}
use bin2llvm.Build.Assemble.Marks.{sum_of, is_indirect_mark}

-- The instructions of `is`, the last one first, and then `pre`.
abbrev pub onto : List Inst → List Inst → List Inst
onto [] pre = pre
onto (i ∷ is) pre = onto is (i ∷ pre)

-- The block has one indirect jump, `at`, with the metadata of a table, and no index is found in it.
pub record IsSkipped (b : Block) : Type 0 where
  pub before : List Inst
  pub at : Inst
  pub behind : List Inst
  pub whole : b.insts ≡ before ++ at ∷ behind
  pub none_before : sum_of is_indirect_mark before ≡ 0
  pub none_behind : sum_of is_indirect_mark behind ≡ 0
  pub jump : has_metadata at ins_indirect_jump ≡ true
  pub count : has_metadata at ins_switch_cnt ≡ true
  pub default : has_metadata at ins_switch_default ≡ true
  pub start : has_metadata at ins_switch_idx_start ≡ true
  pub no_index : get_value_switched_on (onto before []) at ≡ some none

abbrev nothing : Found
nothing = record { switches = []; to_fake = 0; times = 0 }

scan_none :
    (m : NatMap ℕ) (pre is : List Inst) (st : Fake)
    → sum_of is_indirect_mark is ≡ 0
    → scan_indirect m pre is st ≡ some (nothing, st)
unfolding scan_indirect
scan_none m pre [] st h = refl
scan_none m pre (i ∷ is) st h =
    let plain : has_metadata i ins_indirect_jump ≡ false = ground arith in
    rw (scan_indirect, plain) (scan_none m (i ∷ pre) is st (ground arith))

scan_skipped :
    (m : NatMap ℕ) (pre before : List Inst) (i : Inst) (behind : List Inst) (st : Fake)
    → sum_of is_indirect_mark before ≡ 0
    → sum_of is_indirect_mark behind ≡ 0
    → has_metadata i ins_indirect_jump ≡ true
    → solve_jump m (onto before pre) i st ≡ some (skipped, st)
    → scan_indirect m pre (before ++ i ∷ behind) st ≡ some (add_solved skipped nothing, st)
unfolding scan_indirect
scan_skipped m pre [] i behind st h k j e =
    rw (scan_indirect, j, e, scan_none m (i ∷ pre) behind st k) refl
scan_skipped m pre (x ∷ before) i behind st h k j e =
    let plain : has_metadata x ins_indirect_jump ≡ false = ground arith in
    rw (scan_indirect, plain) (scan_skipped m (x ∷ pre) before i behind st (ground arith) k j e)

-- The jump is skipped, but its block loses its fake return: it is left with no terminator.
pub skipped_jump-no_terms :
    (m : NatMap ℕ) (fake_bb : Option ℕ) (b : Block) (st : Fake)
    → is_exit b.insts ≡ true
    → IsSkipped b
    → (c : Block) × (fixup_indirect_jumps m fake_bb b st ≡ some (c, st)) × (no_terms c.insts ≡ true)
unfolding fixup_indirect_jumps solve_jump solve_switch cleanup_fake_returns branches_to_fake
skipped_jump-no_terms m fake_bb b st h s =
    let solved : solve_jump m (onto s.before []) s.at st ≡ some (skipped, st) =
      rw (s.count, s.default, s.start, s.no_index) refl in
    let scanned : scan_indirect m [] b.insts st ≡ some (add_solved skipped nothing, st) =
      rw s.whole
        (scan_skipped m [] s.before s.at s.behind st s.none_before s.none_behind s.jump solved) in
    (
      record b { insts = filter not_fake (b.insts ++ []) },
      rw scanned refl,
      rw (append-nil b.insts) (no_terms-filter_exit b.insts h),
    )
