-- ===== src/Linker.antt =====
-- postprocess/linker/main.cpp: the functions of all files, one for each start address. The modules
-- that ParseIRFile returns are an argument; `none` in their list is a file that it cannot load, and
-- `none` as a result is a function without an entry block or without a first instruction.
pub mod Unique
pub mod Link
mod Tests
use bin2llvm.Base.{
  ℕ, zero, suc, Bool, true, false, List, [], ◌∷◌, ◌++◌, Option, none, some, if◌then◌else◌,
}
use bin2llvm.Base.Map.{NatMap, insert, has}
use bin2llvm.Base.Abort.{◌>>=◌}
use bin2llvm.Ir.{bb_pc_start, Inst, Function, Module}
use bin2llvm.Ir.Meta.{has_metadata, get_pc_start_of_func, entry_block, front_inst}
use bin2llvm.Ir.Pc.{contains}

-- allFuncsMap and allFuncsList.
pub record Gathered : Type 0 where
  pub funcs_map : NatMap Function
  pub funcs_list : List Function

abbrev pub no_funcs : Gathered
no_funcs = record { funcs_map = []; funcs_list = [] }

-- The translated blocks: std::strstr(name, "void-tcg-llvm-tb").
abbrev pub is_linked : Function → Bool
is_linked f = contains f.name "void-tcg-llvm-tb"

-- A function at its start address.
pub gather_at : Gathered → ℕ → Function → Gathered
gather_at g pc f =
    if has pc g.funcs_map
    then g
    else record { funcs_map = insert pc f g.funcs_map; funcs_list = g.funcs_list ++ f ∷ [] }

-- A function behind the test of its name.
pub gather_named : Gathered → Function → Option Gathered
unfolding gather_at
gather_named g f = do
  bb ← entry_block f.blocks
  ins ← front_inst bb.insts
  if has_metadata ins bb_pc_start
      then (do pc ← get_pc_start_of_func f; some (gather_at g pc f))
      else some g

pub gather_func : Gathered → Function → Option Gathered
unfolding gather_named
gather_func g f = if is_linked f then gather_named g f else some g

pub gather_funcs_from_module : Gathered → Module → Option Gathered
unfolding gather_func
gather_funcs_from_module g [] = some g
gather_funcs_from_module g (f ∷ fs) = do h ← gather_func g f; gather_funcs_from_module h fs

unfoldable pub gather_funcs : Gathered → List (Option Module) → Option Gathered
unfolding gather_funcs_from_module
gather_funcs g [] = some g
gather_funcs g (none ∷ ms) = gather_funcs g ms
gather_funcs g (some m ∷ ms) = do h ← gather_funcs_from_module g m; gather_funcs h ms
