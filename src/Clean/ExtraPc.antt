-- ===== src/Clean/ExtraPc.antt =====
-- RemoveExtraStoreToPC::runOnFunction: each instruction is tagged with the address that was last
-- stored to PC, and of the constants only the last store of a block that is left stays.
pub mod Final
pub mod Tags
use bin2llvm.Base.{
  ℕ, zero, suc, ◌<◌, ◌^◌, Bool, true, false, not, ◌&&◌, ◌||◌, List, [], ◌∷◌, ◌++◌, Option, none,
  some, String, str_eq, leb, get_elem?, if◌then◌else◌, ◌≡◌, refl, sym, arith, ◌⊎◌, inl, inr,
  Bool-cases, Option-cases, All,
}
use bin2llvm.Base.Abort.{◌>>=◌, ◌>>◌, assert, map_option, >>=-eq-some, some_inj}
use bin2llvm.Hex.{hex}
use bin2llvm.Ir.{ins_curr_pc, Value, Inst, Block, Function}
use bin2llvm.Ir.Meta.{
  set_metadata, get_current_pc_of_ins, get_pc_start_of_func, get_pc_end_of_func,
  get_hex-set_metadata,
}
use bin2llvm.Ir.Pc.{as_const, pc_store, is_some, any, ends_in_ret}
use bin2llvm.Clean.{last_stored}

-- The constant that is stored to PC.
unfoldable pub pc_const : Inst → Option ℕ
pc_const i = do v ← pc_store i; as_const v

unfoldable pub next_pc : ℕ → Inst → ℕ
unfolding pc_const
next_pc pc i = elim (pc_const i) [ some n ↦ n | none ↦ pc ]

-- The tags of a block, and pcMeta behind it.
unfoldable pub tag_insts : ℕ → List Inst → List Inst × ℕ
unfolding next_pc
tag_insts pc [] = ([], pc)
tag_insts pc (i ∷ is) =
    let rest = tag_insts (next_pc pc i) is in (set_metadata i ins_curr_pc (hex pc) ∷ rest.0, rest.1)

-- A constant for PC goes, where the block is no exit or stores to PC once more.
unfoldable pub is_extra : Bool → Inst → List Inst → Bool
unfolding pc_const any
is_extra is_exit_bb i later =
    is_some (pc_const i) && (any (λ j. is_some (pc_store j)) later || not is_exit_bb)

-- The first instruction of a list, where the others give `rest`.
unfoldable pub erase_one : Bool → ℕ → ℕ → Inst → List Inst × Bool → Option (List Inst × Bool)
unfolding pc_const
erase_one false pc_start pc_end i rest = some (i ∷ rest.0, rest.1)
erase_one true pc_start pc_end i rest = do
  n ← pc_const i
  assert (leb pc_start n && leb n pc_end)
  some (rest.0, true)

unfoldable pub erase_extra : Bool → ℕ → ℕ → List Inst → Option (List Inst × Bool)
unfolding is_extra erase_one
erase_extra is_exit_bb pc_start pc_end [] = some ([], false)
erase_extra is_exit_bb pc_start pc_end (i ∷ is) = do
  rest ← erase_extra is_exit_bb pc_start pc_end is
  erase_one (is_extra is_exit_bb i is) pc_start pc_end i rest

-- The blocks, in their order in the function.
unfoldable pub remove_from_blocks : ℕ → ℕ → ℕ → List Block → Option (List Block × Bool)
unfolding tag_insts erase_extra
remove_from_blocks pc_start pc_end pc [] = some ([], false)
remove_from_blocks pc_start pc_end pc (b ∷ bs) = do
  let tagged = tag_insts pc b.insts
  r ← erase_extra (ends_in_ret b.insts) pc_start pc_end tagged.0
  rest ← remove_from_blocks pc_start pc_end tagged.1 bs
  some (record b { insts = r.0 } ∷ rest.0, r.1 || rest.1)

unfoldable pub remove_extra_store_to_pc : Function → Option (Function × Bool)
unfolding remove_from_blocks
remove_extra_store_to_pc f = do
  pc_start ← get_pc_start_of_func f
  pc_end ← get_pc_end_of_func f
  r ← remove_from_blocks pc_start pc_end pc_start f.blocks
  some (record f { blocks = r.0 }, r.1)
