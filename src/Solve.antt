-- ===== src/Solve.antt =====
-- SolveIndirectSingle.cpp: where the optimised code of a function stores a constant to a register, the
-- store at the same address of the original code stores it too. A value that is replaced is an
-- instruction; `none` is a constant expression, of which the uses are not in this function alone.
pub mod Uses
pub mod Settled
pub mod Sources
pub mod Returns
mod Tests
use bin2llvm.Base.{
  ℕ, Bool, true, false, not, ◌&&◌, ◌||◌, List, [], ◌∷◌, ◌++◌, Option, none, some, String, str_eq,
  map, if◌then◌else◌,
}
use bin2llvm.Base.Map.{NatMap, find, insert}
use bin2llvm.Base.Abort.{◌>>=◌}
use bin2llvm.Hex.{hex}
use bin2llvm.Ir.{
  Value, const_int, inst_ref, global_var, cast_expr, other_value, Op, store, Inst, Block, Function,
  Module, ins_curr_pc, ins_computed_value,
}
use bin2llvm.Ir.Meta.{has_metadata, set_metadata, get_current_pc_of_ins}
use bin2llvm.Ir.Pc.{all_insts, is_some}
use bin2llvm.Memory.Loads.{used_op, used_inst}

-- m_directStores: for each global the constants by address.
abbrev pub DirectStores : Type 0
DirectStores = List (String × NatMap ℕ)

unfoldable pub values_of : String → DirectStores → NatMap ℕ
values_of g [] = []
values_of g ((h, m) ∷ ds) = if str_eq h g then m else values_of g ds

-- The constant that the optimised code stores to a global at an address.
unfoldable pub solved_at : DirectStores → String → ℕ → Option ℕ
unfolding values_of find
solved_at ds g pc = find pc (values_of g ds)

unfoldable pub add_store : String → ℕ → ℕ → DirectStores → DirectStores
unfolding insert
add_store g pc v [] = (g, (pc, v) ∷ []) ∷ []
add_store g pc v ((h, m) ∷ ds) =
    if str_eq h g then (h, insert pc v m) ∷ ds else (h, m) ∷ add_store g pc v ds

-- The global and the value, if this is a store to a global.
abbrev pub global_store : Op → Option (String × Value)
global_store (store v (global_var g)) = some (g, v)
global_store _ = none

-- The same at an instruction with the metadata INS_currPC, with the address.
unfoldable pub known_store : Inst → Option (String × Value × ℕ)
known_store i = do pc ← get_current_pc_of_ins i; r ← global_store i.op; some (r.0, r.1, pc)

unfoldable pub expand_inst : DirectStores → Inst → DirectStores
unfolding known_store add_store
expand_inst ds i = elim (known_store i) [
  | none ↦ ds
  | some r ↦ elim (r.1) [
    | const_int v ↦ add_store r.0 r.2 v ds
    | inst_ref n ↦ ds
    | global_var g ↦ ds
    | cast_expr c to ↦ ds
    | other_value n ↦ ds
  ]
]

unfoldable pub expand_insts : DirectStores → List Inst → DirectStores
unfolding expand_inst
expand_insts ds [] = ds
expand_insts ds (i ∷ is) = expand_insts (expand_inst ds i) is

unfoldable pub expand_direct_stores_with_module : DirectStores → Module → DirectStores
unfolding expand_insts
expand_direct_stores_with_module ds [] = ds
expand_direct_stores_with_module ds (f ∷ m) =
    expand_direct_stores_with_module (expand_insts ds (all_insts f.blocks)) m

-- initialize: the files with optimised code, without those that cannot be read.
unfoldable pub initialize : DirectStores → List (Option Module) → DirectStores
unfolding expand_direct_stores_with_module
initialize ds [] = ds
initialize ds (none ∷ ms) = initialize ds ms
initialize ds (some m ∷ ms) = initialize (expand_direct_stores_with_module ds m) ms

-- m_performReplaceOnTheseGlobals and m_performAnnotationOnTheseGlobals, which has all of the first.
abbrev pub performs_replace : String → Bool
performs_replace g = str_eq g "PC" || str_eq g "thumb"

abbrev pub performs_annotation : String → Bool
performs_annotation g = str_eq g "R0" || performs_replace g

-- The constants that have replaced values, m_solvedPCs, and `changed`.
pub record Solved : Type 0 where
  pub env : NatMap ℕ
  pub pcs : List ℕ
  pub changed : Bool

-- value->replaceAllUsesWith(replaceWith)
abbrev pub replace_value : Value → ℕ → NatMap ℕ → Option (NatMap ℕ)
replace_value (inst_ref n) c env = some (insert n c env)
replace_value _ c env = none

-- A store of a computed value for which a constant is known.
unfoldable pub solve : String → Value → ℕ → Solved → Inst → Option (Solved × Inst)
unfolding set_metadata hex insert
solve g v c s i = do
  let pcs = (if str_eq g "PC" then s.pcs ++ c ∷ [] else s.pcs)
  let j = set_metadata i ins_computed_value (hex c)
  env ← if performs_replace g then replace_value v c s.env else some (s.env)
  some (record { env = env; pcs = pcs; changed = true }, j)

-- All uses of the replaced values in a block.
abbrev pub replaced : NatMap ℕ → Block → Block
replaced env b = record b { insts = map (used_inst env) b.insts }

module _ (ds : DirectStores) where
  unfoldable pub perform_store : Solved → Inst → String × Value × ℕ → Option (Solved × Inst)
  unfolding solve solved_at
  perform_store s i (g, const_int n, pc) = some (s, i)
  perform_store s i (g, v, pc) =
      if performs_annotation g
      then elim (solved_at ds g pc) [ none ↦ some (s, i) | some c ↦ solve g v c s i ]
      else some (s, i)

  -- One instruction, in which the values that are replaced so far are constants.
  unfoldable pub perform_inst : Solved → Inst → Option (Solved × Inst)
  unfolding perform_store known_store used_op
  perform_inst s i = elim (known_store (used_inst s.env i)) [
    | none ↦ some (s, i)
    | some r ↦ perform_store s i r
  ]

  unfoldable pub perform_insts : Solved → List Inst → Option (Solved × List Inst)
  unfolding perform_inst
  perform_insts s [] = some (s, [])
  perform_insts s (i ∷ is) = do
    r ← perform_inst s i
    rest ← perform_insts r.0 is
    some (rest.0, r.1 ∷ rest.1)

  unfoldable pub perform_blocks : Solved → List Block → Option (Solved × List Block)
  unfolding perform_insts
  perform_blocks s [] = some (s, [])
  perform_blocks s (b ∷ bs) = do
    r ← perform_insts s b.insts
    rest ← perform_blocks r.0 bs
    some (rest.0, record b { insts = r.1 } ∷ rest.1)

  -- runOnFunction, with m_solvedPCs.
  unfoldable pub perform_annotations : List ℕ → Function → Option (Function × List ℕ × Bool)
  unfolding perform_blocks used_op
  perform_annotations pcs f = do
    r ← perform_blocks (record { env = []; pcs = pcs; changed = false }) f.blocks
    some (record f { blocks = map (replaced r.0.env) r.1 }, r.0.pcs, r.0.changed)
