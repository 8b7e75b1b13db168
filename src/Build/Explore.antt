-- ===== src/Build/Explore.antt =====
-- BuildFunctions::exploreBB: the work list over the basic blocks of one function. A basic block here
-- is a function of the module that holds the translated code of one block; a Function * is its
-- position in the module.
pub mod Visit
pub mod Loop
pub mod Correct
pub mod Returns
mod Tests
use bin2llvm.Base.{
  ℕ, zero, suc, Bool, true, false, ◌||◌, List, [], ◌∷◌, ◌++◌, Option, none, some, if◌then◌else◌,
  get_elem?, length,
}
use bin2llvm.Base.Map.{NatMap, find, insert, has}
use bin2llvm.Base.Abort.{◌>>=◌}
use bin2llvm.Ir.{Inst, Function, Module}
use bin2llvm.Ir.Pc.{all_insts}
use bin2llvm.Build.Targets.{Targets, inst_targets}

-- BBsForThisFunction, BBsToBeExpanded, exploredBBs and hasIndirectJump.
pub record Search : Type 0 where
  pub bbs : List ℕ
  pub pending : List ℕ
  pub explored : NatMap Bool
  pub has_indirect_jump : Bool

pub data Outcome : Type 0 where
  done : Search → Outcome
  aborted out_of_fuel : Outcome

-- The instructions of the function at a position.
abbrev pub code_of : Module → ℕ → List Inst
code_of m b = elim (get_elem? m b) [ none ↦ [] | some f ↦ all_insts f.blocks ]

-- hasIndirectJump = true, where an indirect jump is seen.
abbrev pub saw : Bool → Search → Search
saw indirect s = record s { has_indirect_jump = s.has_indirect_jump || indirect }

abbrev pub start : ℕ → Search
start b = record {
  bbs = b ∷ [];
  pending = b ∷ [];
  explored = (b, true) ∷ [];
  has_indirect_jump = false;
}

module _ (m : Module) (all_bbs : NatMap ℕ) where
  -- One address of nextPCList: an unknown one is skipped, and so is an explored block.
  pub visit : Search → ℕ → Search
  visit s pc = elim (find pc all_bbs) [
    | none ↦ s
    | some b ↦ if has b s.explored then s else record s {
      bbs = s.bbs ++ b ∷ [];
      pending = s.pending ++ b ∷ [];
      explored = insert b true s.explored;
    }
  ]

  pub visit_all : Search → List ℕ → Search
  visit_all s [] = s
  visit_all s (pc ∷ pcs) = visit_all (visit s pc) pcs

  -- The loops over the instructions of one block.
  pub expand : Search → List Inst → Option Search
  expand s [] = some s
  expand s (i ∷ is) = do t ← inst_targets i; expand (visit_all (saw t.is_indirect s) t.pcs) is

  pub loop : ℕ → Search → Outcome
  loop zero s = elim s.pending [ [] ↦ done s | _ ∷ _ ↦ out_of_fuel ]
  loop (suc fuel) s = elim s.pending [
    | [] ↦ done s
    | b ∷ rest ↦ elim (expand (record s { pending = rest }) (code_of m b)) [
      | none ↦ aborted
      | some s' ↦ loop fuel s'
    ]
  ]

  -- Each block of the module is expanded at most once, so its length is fuel enough.
  pub explore : ℕ → Outcome
  unfolding loop
  explore b = loop (length m) (start b)
