-- ===== src/Build/Assemble.antt =====
-- BuildFunctions::makeFunctionForward and runOnModule: a function from the blocks that the search
-- finds. CloneFunctionInto of LLVM is an argument: `clone bs f` are the blocks that it adds for f to a
-- function that has the blocks bs.
pub mod Marks
pub mod Calls
pub mod Jumps
pub mod Indirect
pub mod Returns
pub mod Ends
pub mod Entry
pub mod Skipped
mod Tests
use Prim.Native.String.{◌++◌ as str_append}
use bin2llvm.Base.{
  ℕ, zero, suc, ◌+◌, Bool, true, false, not, ◌&&◌, ◌||◌, List, [], ◌∷◌, ◌++◌, Option, none, some,
  if◌then◌else◌, ltb, ◌==◌, str_eq, get_elem?,
}
use bin2llvm.Base.Map.{NatMap, insert}
use bin2llvm.Base.Abort.{◌>>=◌, map_option}
use bin2llvm.Ir.{Op, branch, switch, ret, Inst, Block, Function, Module}
use bin2llvm.Ir.Meta.{get_pc_start_of_func}
use bin2llvm.Ir.Pc.{any, contains}
use bin2llvm.Build.Explore.{Search, Outcome, done, aborted, out_of_fuel, explore}
use bin2llvm.Build.Fixup.{build_bb_map, new_inst, branch_to}
use bin2llvm.Build.Fixup.Calls.{fixup_calls}
use bin2llvm.Build.Fixup.Jumps.{fixup_direct_jumps}
use bin2llvm.Build.Fixup.Returns.{fixup_returns}
use bin2llvm.Build.Fixup.Indirect.{Fake, fixup_indirect_jumps}

-- A label that no block of the list has.
abbrev pub fresh_label : List Block → ℕ
fresh_label [] = 0
fresh_label (b ∷ bs) = if ltb b.label (fresh_label bs) then fresh_label bs else suc b.label

-- The fake block, if there is an indirect jump.
pub add_fake : Bool → List Block → List Block × Option ℕ
add_fake has_indirect_jump bs =
    if has_indirect_jump
    then (
      bs
          ++ record { label = fresh_label bs; name = "fake_indirect_bb"; insts = new_inst ret ∷ [] }
            ∷ [],
      some (fresh_label bs),
    )
    else (bs, none)

-- The loop of fixupIndirectJumps over the blocks, with the blocks that it creates behind them.
pub fixup_all_indirect : NatMap ℕ → Option ℕ → List Block → Fake → Option (List Block × Fake)
unfolding fixup_indirect_jumps
fixup_all_indirect bb_map fake_bb [] st = some ([], st)
fixup_all_indirect bb_map fake_bb (b ∷ bs) st = do
  r ← fixup_indirect_jumps bb_map fake_bb b st
  rs ← fixup_all_indirect bb_map fake_bb bs r.1
  some (r.0 ∷ rs.0, rs.1)

-- The fixups, each with a new map of the blocks.
unfoldable pub fixup_blocks : Option ℕ → List Block → Option (List Block)
unfolding map_option build_bb_map fixup_all_indirect fixup_returns
fixup_blocks fake_bb bs = do
  for_calls ← build_bb_map bs
  bs1 ← map_option (fixup_calls for_calls) bs
  for_jumps ← build_bb_map bs1
  bs2 ← map_option (fixup_direct_jumps for_jumps) bs1
  for_indirect ← build_bb_map bs2
  r ←
      fixup_all_indirect for_indirect fake_bb bs2
        (record { my_fake_bb = fake_bb; created = []; next_label = fresh_label bs2 })
  for_returns ← build_bb_map (r.0 ++ r.1.created)
  bs4 ← map_option fixup_returns (r.0 ++ r.1.created)
  last_map ← build_bb_map bs4
  some bs4

module _ (clone : List Block → Function → List Block) where
  -- inlineBBs, without the fake block.
  pub inline_bbs : Module → List ℕ → List Block → List Block
  inline_bbs m [] bs = bs
  inline_bbs m (f ∷ fs) bs =
      inline_bbs m fs (elim (get_elem? m f) [ none ↦ bs | some func ↦ bs ++ clone bs func ])

  pub make_function_forward : Module → NatMap ℕ → ℕ → Option (List Block)
  unfolding inline_bbs add_fake
  make_function_forward m all_bbs start_bb = elim (explore m all_bbs start_bb) [
    | done s ↦ let r = add_fake s.has_indirect_jump (inline_bbs m s.bbs []) in fixup_blocks r.1 r.0
    | aborted ↦ none
    | out_of_fuel ↦ none
  ]

-- allBBs: the last block that starts at an address.
pub build_all_bbs : ℕ → NatMap ℕ → Module → Option (NatMap ℕ)
build_all_bbs i all_bbs [] = some all_bbs
build_all_bbs i all_bbs (f ∷ fs) = elim (contains f.name "void-tcg-llvm-tb") [
  | true ↦ (do
    pc_start ← get_pc_start_of_func f
    build_all_bbs (suc i) (insert pc_start i all_bbs) fs)
  | false ↦ build_all_bbs (suc i) all_bbs fs
]

-- The first basic block of a translated block is marked as an entry.
pub is_entry : Function → Bool
is_entry f =
    contains f.name "void-tcg-llvm-tb"
    && (elim f.blocks [ [] ↦ false | b ∷ bs ↦ str_eq b.name "func_entry_point" ])

-- The uses of a block: the terminators that name it.
abbrev case_uses : ℕ → List (ℕ × ℕ) → Bool
case_uses l [] = false
case_uses l ((v, t) ∷ cs) = t == l || case_uses l cs

abbrev pub op_uses : ℕ → Op → Bool
op_uses l (branch t) = t == l
op_uses l (switch v d cs) = d == l || case_uses l cs
op_uses l _ = false

pub has_use : ℕ → List Block → Bool
unfolding any
has_use l bs = any (λ b. any (λ i. op_uses l i.op) b.insts) bs

abbrev front_meta : Block → List Inst
front_meta b = elim b.insts [
  | [] ↦ branch_to b.label ∷ []
  | i ∷ is ↦ record (branch_to b.label) { meta = i.meta } ∷ []
]

-- The entry that other blocks jump to gets a block before it, with its metadata.
pub fixup_entry : List Block → List Block
unfolding has_use
fixup_entry [] = []
fixup_entry (b ∷ bs) =
    if str_eq b.name "func_entry_point" && has_use b.label (b ∷ bs)
    then record { label = fresh_label (b ∷ bs); name = "fixup_entry"; insts = front_meta b }
      ∷ (b ∷ bs)
    else b ∷ bs

module _ (clone : List Block → Function → List Block) where
  -- The loop over the functions from position i on.
  pub build_functions : Module → NatMap ℕ → ℕ → Module → Option Module
  unfolding is_entry make_function_forward
  build_functions m all_bbs i [] = some []
  build_functions m all_bbs i (f ∷ fs) = elim (is_entry f) [
    | true ↦ (do
      bs ← make_function_forward clone m all_bbs i
      rest ← build_functions m all_bbs (suc i) fs
      some (record { name = str_append "final-func-" f.name; blocks = bs } ∷ rest))
    | false ↦ build_functions m all_bbs (suc i) fs
  ]

  abbrev fixed : Module → Module
  fixed [] = []
  fixed (f ∷ fs) = record f { blocks = fixup_entry f.blocks } ∷ fixed fs

  -- The new module.
  unfoldable pub run_on_module : Module → Option Module
  unfolding build_all_bbs build_functions fixup_entry
  run_on_module m = do
    all_bbs ← build_all_bbs 0 [] m
    fs ← build_functions m all_bbs 0 m
    some (fixed fs)
