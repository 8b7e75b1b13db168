-- ===== src/Mark/Return/Preserve.antt =====
-- What ARMMarkReturn leaves as it was.
use mathlib.Core.Logic.{⊎_elim}
use bin2llvm.Base.{Bool, List, [], ◌∷◌, some, ◌≡◌, arith, subst}
use bin2llvm.Base.Abort.{>>=-eq-some}
use bin2llvm.Ir.{Kind, ins_return, Inst, Block, Function}
use bin2llvm.Ir.Meta.{set_metadata, get_pc_start_of_func, get_pc_end_of_func}
use bin2llvm.Ir.Pc.{all_insts, true_text}
use bin2llvm.Mark.Return.{
  mark_return_inst, mark_return_insts, mark_return_block, mark_return_blocks, mark_return,
}
use bin2llvm.Mark.Keeps.{Keeps, Keeps-refl, Keeps-set, All2, nil, cons, All2-append}

abbrev pub return_kinds : List Kind
return_kinds = ins_return ∷ []

mark_return_inst-Keeps :
    (is : List Inst) (i j : Inst) → mark_return_inst is i ≡ some j → Keeps return_kinds i j
unfolding mark_return_inst
mark_return_inst-Keeps is i j h =
    ⊎_elim (λ (e : i ≡ j). subst (Keeps return_kinds i) e (Keeps-refl return_kinds i))
      (λ (e : set_metadata i ins_return true_text ≡ j). subst (Keeps return_kinds i) e (
        Keeps-set return_kinds i i ins_return true_text (λ k a. ground arith)
          (Keeps-refl return_kinds i)))
      (ground arith)

mark_return_insts-Keeps :
    (is xs ys : List Inst) → mark_return_insts is xs ≡ some ys → All2 (Keeps return_kinds) xs ys
unfolding mark_return_insts
mark_return_insts-Keeps is [] ys h = let e : ys ≡ [] = cc in rw e nil
mark_return_insts-Keeps is (x ∷ xs) ys h =
    let (j, ej, h') = >>=-eq-some (mark_return_inst is x) _ h in
    let (js, ejs, last) = >>=-eq-some (mark_return_insts is xs) _ h' in
    let e : ys ≡ j ∷ js = ground arith in
    rw e (cons (mark_return_inst-Keeps is x j ej) (mark_return_insts-Keeps is xs js ejs))

mark_return_blocks-Keeps :
    (is : List Inst) (bs cs : List Block)
    → mark_return_blocks is bs ≡ some cs
    → All2 (Keeps return_kinds) (all_insts bs) (all_insts cs)
unfolding mark_return_blocks
mark_return_blocks-Keeps is [] cs h = let e : cs ≡ [] = cc in rw e nil
mark_return_blocks-Keeps is (b ∷ bs) cs h =
    let (c, ec, h') = >>=-eq-some (mark_return_block is b) _ h in
    let (ds, eds, last) = >>=-eq-some (mark_return_blocks is bs) _ h' in
    let (ys, eys, made) = >>=-eq-some (mark_return_insts is b.insts) _ ec in
    let e : cs ≡ c ∷ ds = ground arith in
    let ei : c.insts ≡ ys = ground arith in
    rw (e, ei)
      (All2-append (Keeps return_kinds) (mark_return_insts-Keeps is b.insts ys eys)
        (mark_return_blocks-Keeps is bs ds eds))

pub mark_return-Keeps :
    (f g : Function) (m : Bool)
    → mark_return f ≡ some (g, m)
    → All2 (Keeps return_kinds) (all_insts f.blocks) (all_insts g.blocks)
unfolding mark_return
mark_return-Keeps f g m h =
    let (s, es, h1) = >>=-eq-some (get_pc_start_of_func f) _ h in
    let (e, ee, h2) = >>=-eq-some (get_pc_end_of_func f) _ h1 in
    let (bs, eb, h3) = >>=-eq-some (mark_return_blocks (all_insts f.blocks) f.blocks) _ h2 in
    let made : bs ≡ g.blocks = ground arith in
    rw (← made) (mark_return_blocks-Keeps (all_insts f.blocks) f.blocks bs eb)
