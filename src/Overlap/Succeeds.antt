-- ===== src/Overlap/Succeeds.antt =====
-- When truncateFuncAndLinkWith succeeds.
use Prim.Native.String.{◌++◌ as str_append}
use bin2llvm.Base.{
  ℕ, ◌<◌, true, false, List, [], ◌∷◌, ◌++◌, none, some, String, ltb, ◌==◌, ◌≡◌, ◌≢◌, refl, arith,
  All,
}
use bin2llvm.Hex.{Text, hex}
use bin2llvm.Ir.{Inst, Block, Function}
use bin2llvm.Ir.Meta.{get_current_pc_of_ins, get_pc_start_of_func}
use bin2llvm.Overlap.{
  link_store, link_return, cut_at, cut_insts, cut_blocks, truncate_func_and_link_with,
}
use bin2llvm.Overlap.Cut.{Elsewhere, Found, Cut}

cut_insts-none : (pc : ℕ) (is : List Inst) → All (Elsewhere pc) is → cut_insts pc is ≡ some none
unfolding cut_insts cut_at
cut_insts-none pc [] h = refl
cut_insts-none pc (i ∷ is) ((n, e, k), h) =
    let other : (n == pc) ≡ false = ground (arith, k) in
    rw (cut_insts, e, other, cut_insts-none pc is h) refl

cut_insts-found :
    (pc : ℕ) (before : List Inst) (at : Inst) (behind : List Inst)
    → All (Elsewhere pc) before
    → get_current_pc_of_ins at ≡ some pc
    → behind ≢ []
    → cut_insts pc (before ++ at ∷ behind) ≡ some (some (before ++ at ∷ []))
unfolding cut_insts cut_at
cut_insts-found pc [] at [] h e k = absurd (k refl)
cut_insts-found pc [] at (j ∷ js) h e k =
    let same : (pc == pc) ≡ true = ground arith in rw (cut_insts, e, same) refl
cut_insts-found pc (i ∷ before) at behind ((n, x, y), h) e k =
    let other : (n == pc) ≡ false = ground (arith, y) in
    rw (cut_insts, x, other, cut_insts-found pc before at behind h e k) refl

cut_blocks-found :
    (pc : ℕ) (before : List Block) (b : Block) (behind : List Block) (front : List Inst)
    → All (λ (x : Block). All (Elsewhere pc) x.insts) before
    → Found pc b.insts front
    → cut_blocks pc (before ++ b ∷ behind)
      ≡ some (before ++ record b { insts = front ++ link_store pc ∷ link_return ∷ [] } ∷ behind)
unfolding cut_blocks
cut_blocks-found pc [] b behind front h f =
    let found : cut_insts pc b.insts ≡ some (some front) =
      rw (f.whole, f.kept) (cut_insts-found pc f.before f.at f.behind f.first f.at_pc f.inside) in
    rw (cut_blocks, found) refl
cut_blocks-found pc (x ∷ before) b behind front h f =
    rw (cut_blocks, cut_insts-none pc x.insts h.0, cut_blocks-found pc before b behind front h.1 f)
      refl

-- If the function starts before the other one, its instructions have addresses up to the first one at
-- the start of the other function, and that one is not the last of its block, the truncation succeeds,
-- and its blocks are those that are cut there.
pub truncate_returns :
    (to_string : Text → String) (a b : Function) (cs : List Block) (pc_a pc_b : ℕ)
    → get_pc_start_of_func a ≡ some pc_a
    → get_pc_start_of_func b ≡ some pc_b
    → pc_a < pc_b
    → Cut pc_b a.blocks cs
    → (c : Function) × (truncate_func_and_link_with to_string a b ≡ some c) × (c.blocks ≡ cs)
unfolding truncate_func_and_link_with
truncate_returns to_string a b cs pc_a pc_b ea eb lt cut =
    let less : ltb pc_a pc_b ≡ true = ground arith in
    let made : cut_blocks pc_b a.blocks ≡ some cs =
      rw (cut.whole, cut.result)
        (cut_blocks-found pc_b cut.before cut.overlap cut.behind cut.front cut.earlier cut.found) in
    (
      record {
        name = str_append (str_append a.name "-split-to-") (to_string (hex pc_b));
        blocks = cs;
      },
      rw (truncate_func_and_link_with, ea, eb, less, made) refl,
      refl,
    )
