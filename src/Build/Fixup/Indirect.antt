-- ===== src/Build/Fixup/Indirect.antt =====
-- BuildFunctions::fixupIndirectJumps: a jump through a table becomes a switch, any other goes to the
-- fake block.
use bin2llvm.Base.{
  ℕ, zero, suc, ◌+◌, ◌%◌, ◌^◌, true, false, not, ◌||◌, List, [], ◌∷◌, ◌++◌, Option, none, some,
  String, if◌then◌else◌, replicate, map,
}
use bin2llvm.Base.Map.{NatMap, find}
use bin2llvm.Base.Abort.{◌>>=◌, ◌>>◌, assert}
use bin2llvm.Ir.{
  ins_indirect_jump, ins_switch_cnt, ins_switch_default, ins_switch_idx_start, ins_switch_case,
  Value, Op, switch, ret, Inst, Block,
}
use bin2llvm.Ir.Meta.{has_metadata, get_hex_metadata_from_ins}
use bin2llvm.Build.Fixup.{cleanup_fake_returns, branch_to, new_inst}
use bin2llvm.Build.Fixup.Switched.{get_value_switched_on}

-- myfakeBB, the blocks that were created, and the label of the next one.
pub record Fake : Type 0 where
  pub my_fake_bb : Option ℕ
  pub created : List Block
  pub next_label : ℕ

-- The fake block, created under this name if there is none.
unfoldable pub get_fake : String → Fake → ℕ × Fake
get_fake name st = elim st.my_fake_bb [
  | some l ↦ (l, st)
  | none ↦ (
    st.next_label,
    record {
      my_fake_bb = some st.next_label;
      created =
          st.created
          ++ record { label = st.next_label; name = name; insts = new_inst ret ∷ [] } ∷ [];
      next_label = st.next_label + 1;
    },
  )
]

unfoldable pub find_or_fake : NatMap ℕ → String → ℕ → Fake → ℕ × Fake
unfolding get_fake
find_or_fake bb_map name pc st = elim (find pc bb_map) [
  | some l ↦ (l, st)
  | none ↦ get_fake name st
]

-- The cases i, i + 1, ... of the switch, n of them: the value, in 32 bits, and the block.
unfoldable pub add_cases : NatMap ℕ → Inst → ℕ → ℕ → ℕ → Fake → Option (List (ℕ × ℕ) × Fake)
unfolding find_or_fake
add_cases bb_map ins idx_start zero i st = some ([], st)
add_cases bb_map ins idx_start (suc n) i st = do
  assert (has_metadata ins (ins_switch_case i))
  target_pc ← get_hex_metadata_from_ins ins (ins_switch_case i)
  let found = find_or_fake bb_map "fake_switch_case" target_pc st
  rest ← add_cases bb_map ins idx_start n (i + 1) found.1
  some (((idx_start + i) % 2 ^ 64 % 2 ^ 32, found.0) ∷ rest.0, rest.1)

-- What becomes of a jump with a table: it goes to the fake block, since its metadata are broken; it
-- is skipped, since its index is not found; or it is a switch.
pub data Solved : Type 0 where
  broken skipped : Solved
  solved : Op → Solved

unfoldable pub create_switch : NatMap ℕ → Inst → Value → Fake → Option (Op × Fake)
unfolding add_cases find_or_fake
create_switch bb_map ins op st = do
  default_pc ← get_hex_metadata_from_ins ins ins_switch_default
  cnt_entries ← get_hex_metadata_from_ins ins ins_switch_cnt
  idx_start ← get_hex_metadata_from_ins ins ins_switch_idx_start
  let bb_default = find_or_fake bb_map "fake_switch" default_pc st
  cases ← add_cases bb_map ins idx_start cnt_entries 0 bb_default.1
  some (switch op bb_default.0 cases.0, cases.1)

-- `before` are the instructions of the block above this one, the nearest first.
unfoldable pub solve_switch : NatMap ℕ → List Inst → Inst → Fake → Option (Solved × Fake)
unfolding create_switch get_value_switched_on
solve_switch bb_map before ins st =
    if not (has_metadata ins ins_switch_default)
      || not (has_metadata ins ins_switch_cnt)
      || not (has_metadata ins ins_switch_idx_start)
    then some (broken, st)
    else (do
      op ← get_value_switched_on before ins
      elim op [
        | none ↦ some (skipped, st)
        | some v ↦ (do r ← create_switch bb_map ins v st; some (solved r.0, r.1))
      ])

-- What the indirect jumps of a block add at its end: the switches, the number of branches to the fake
-- block, and how often the block stands in bbToUpdate.
pub record Found : Type 0 where
  pub switches : List Op
  pub to_fake : ℕ
  pub times : ℕ

abbrev pub add_solved : Solved → Found → Found
add_solved broken f = record f { to_fake = suc f.to_fake; times = suc f.times }
add_solved skipped f = record f { times = suc f.times }
add_solved (solved op) f = record f { switches = op ∷ f.switches; times = suc f.times }

-- One jump.
unfoldable pub solve_jump : NatMap ℕ → List Inst → Inst → Fake → Option (Solved × Fake)
unfolding solve_switch
solve_jump bb_map before ins st =
    if has_metadata ins ins_switch_cnt then solve_switch bb_map before ins st else some (broken, st)

unfoldable pub scan_indirect : NatMap ℕ → List Inst → List Inst → Fake → Option (Found × Fake)
unfolding solve_jump
scan_indirect bb_map before [] st = some (record { switches = []; to_fake = 0; times = 0 }, st)
scan_indirect bb_map before (i ∷ is) st = elim (has_metadata i ins_indirect_jump) [
  | true ↦ (do
    r ← solve_jump bb_map before i st
    rs ← scan_indirect bb_map (i ∷ before) is r.1
    some (add_solved r.0 rs.0, rs.1))
  | false ↦ scan_indirect bb_map (i ∷ before) is st
]

-- The branches to fakeBB; where it is null, the branch cannot be created.
unfoldable pub branches_to_fake : Option ℕ → ℕ → Option (List Inst)
branches_to_fake fake_bb zero = some []
branches_to_fake none (suc n) = none
branches_to_fake (some l) (suc n) = some (replicate (suc n) (branch_to l))

unfoldable pub fixup_indirect_jumps : NatMap ℕ → Option ℕ → Block → Fake → Option (Block × Fake)
unfolding scan_indirect branches_to_fake cleanup_fake_returns
fixup_indirect_jumps bb_map fake_bb b st = do
  r ← scan_indirect bb_map [] b.insts st
  fakes ← branches_to_fake fake_bb r.0.to_fake
  is ← cleanup_fake_returns r.0.times (b.insts ++ (map new_inst r.0.switches ++ fakes))
  some (record b { insts = is }, r.1)
