-- ===== src/Mark/Return/Aborts.antt =====
-- When the assertions of ARMMarkReturn fail.
use bin2llvm.Base.{
  ℕ, Bool, true, ◌||◌, List, [], ◌∷◌, ◌++◌, none, some, ◌&&◌, ◌≡◌, refl, arith, ◌↔◌,
}
use bin2llvm.Ir.{ins_direct_call, ins_indirect_call, Inst, Block, Function}
use bin2llvm.Ir.Meta.{has_metadata, get_pc_start_of_func, get_pc_end_of_func}
use bin2llvm.Ir.Pc.{any, all_insts}
use bin2llvm.Mark.Return.{is_return, mark_return_insts, mark_return_blocks, mark_return}

-- A return that the pass for calls has marked before: the assertions of the pass fail at it.
abbrev pub clash : List Inst → Inst → Bool
clash is i = is_return is i && (has_metadata i ins_direct_call || has_metadata i ins_indirect_call)

mark_return_insts_aborts :
    (is xs : List Inst) → (mark_return_insts is xs ≡ none) ↔ (any (clash is) xs ≡ true)
unfolding mark_return_insts any
mark_return_insts_aborts is [] = ground arith
mark_return_insts_aborts is (x ∷ xs) = ground (arith, mark_return_insts_aborts is xs)

any-append : (p : Inst → Bool) (xs ys : List Inst) → any p (xs ++ ys) ≡ (any p xs || any p ys)
unfolding any
any-append p [] ys = refl
any-append p (x ∷ xs) ys = ground (arith, any-append p xs ys)

mark_return_blocks_aborts :
    (is : List Inst) (bs : List Block)
    → (mark_return_blocks is bs ≡ none) ↔ (any (clash is) (all_insts bs) ≡ true)
unfolding mark_return_blocks any
mark_return_blocks_aborts is [] = ground arith
mark_return_blocks_aborts is (b ∷ bs) = ground (
  arith,
  mark_return_insts_aborts is b.insts,
  mark_return_blocks_aborts is bs,
  any-append (clash is) b.insts (all_insts bs),
)

-- On a function with its two PC marks, the pass stops at a failed assertion exactly if some return
-- is marked as a call.
pub mark_return_aborts :
    (f : Function) (s e : ℕ)
    → get_pc_start_of_func f ≡ some s
    → get_pc_end_of_func f ≡ some e
    → (mark_return f ≡ none) ↔ (any (clash (all_insts f.blocks)) (all_insts f.blocks) ≡ true)
unfolding mark_return
mark_return_aborts f s e hs he =
    ground (arith, mark_return_blocks_aborts (all_insts f.blocks) f.blocks)
