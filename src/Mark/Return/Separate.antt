-- ===== src/Mark/Return/Separate.antt =====
-- ARMMarkReturn keeps returns and calls apart.
use bin2llvm.Base.{
  Bool, true, false, List, [], ◌∷◌, some, ◌≡◌, arith, All, All-append, All-append-left,
  All-append-right,
}
use bin2llvm.Base.Abort.{>>=-eq-some}
use bin2llvm.Ir.{ins_direct_call, ins_indirect_call, ins_return, Inst, Block, Function}
use bin2llvm.Ir.Meta.{
  has_metadata, get_pc_start_of_func, get_pc_end_of_func, has_metadata-set_metadata,
}
use bin2llvm.Ir.Pc.{all_insts, true_text}
use bin2llvm.Mark.Return.{
  is_return, mark_return_inst, mark_return_insts, mark_return_block, mark_return_blocks,
  mark_return,
}

-- No instruction is marked both as a return and as a call.
abbrev pub IsSeparate : Inst → Type 0
IsSeparate i =
    has_metadata i ins_return ≡ true
    → (has_metadata i ins_direct_call ≡ false) × (has_metadata i ins_indirect_call ≡ false)

mark_return_inst-IsSeparate :
    (is : List Inst) (i j : Inst)
    → has_metadata i ins_return ≡ false
    → mark_return_inst is i ≡ some j
    → IsSeparate j × (has_metadata j ins_return ≡ is_return is i)
unfolding mark_return_inst
mark_return_inst-IsSeparate is i j fresh h = ground (
  arith,
  has_metadata-set_metadata i ins_return ins_return true_text,
  has_metadata-set_metadata i ins_return ins_direct_call true_text,
  has_metadata-set_metadata i ins_return ins_indirect_call true_text,
)

abbrev pub NotReturn : Inst → Type 0
NotReturn i = has_metadata i ins_return ≡ false

mark_return_insts-IsSeparate :
    (is xs ys : List Inst)
    → All NotReturn xs
    → mark_return_insts is xs ≡ some ys
    → All IsSeparate ys
unfolding mark_return_insts
mark_return_insts-IsSeparate is [] ys fresh h = let e : ys ≡ [] = cc in rw e tt
mark_return_insts-IsSeparate is (x ∷ xs) ys fresh h =
    let (j, ej, h') = >>=-eq-some (mark_return_inst is x) _ h in
    let (js, ejs, last) = >>=-eq-some (mark_return_insts is xs) _ h' in
    let e : ys ≡ j ∷ js = ground arith in
    rw e (
      (mark_return_inst-IsSeparate is x j fresh.0 ej).0,
      mark_return_insts-IsSeparate is xs js fresh.1 ejs,
    )

mark_return_blocks-IsSeparate :
    (is : List Inst) (bs cs : List Block)
    → All NotReturn (all_insts bs)
    → mark_return_blocks is bs ≡ some cs
    → All IsSeparate (all_insts cs)
unfolding mark_return_blocks
mark_return_blocks-IsSeparate is [] cs fresh h = let e : cs ≡ [] = cc in rw e tt
mark_return_blocks-IsSeparate is (b ∷ bs) cs fresh h =
    let (c, ec, h') = >>=-eq-some (mark_return_block is b) _ h in
    let (ds, eds, last) = >>=-eq-some (mark_return_blocks is bs) _ h' in
    let (ys, eys, made) = >>=-eq-some (mark_return_insts is b.insts) _ ec in
    let e : cs ≡ c ∷ ds = ground arith in
    let ei : c.insts ≡ ys = ground arith in
    rw (e, ei)
      (All-append IsSeparate ys _
        (mark_return_insts-IsSeparate is b.insts ys (All-append-left NotReturn b.insts _ fresh) eys)
        (mark_return_blocks-IsSeparate is bs ds (All-append-right NotReturn b.insts _ fresh) eds))

-- Where the pass succeeds on a function without return marks, no instruction is marked both as a
-- return and as a call.
pub mark_return-IsSeparate :
    (f g : Function) (m : Bool)
    → All NotReturn (all_insts f.blocks)
    → mark_return f ≡ some (g, m)
    → All IsSeparate (all_insts g.blocks)
unfolding mark_return
mark_return-IsSeparate f g m fresh h =
    let (s, es, h1) = >>=-eq-some (get_pc_start_of_func f) _ h in
    let (e, ee, h2) = >>=-eq-some (get_pc_end_of_func f) _ h1 in
    let (bs, eb, h3) = >>=-eq-some (mark_return_blocks (all_insts f.blocks) f.blocks) _ h2 in
    let made : bs ≡ g.blocks = ground arith in
    rw (← made) (mark_return_blocks-IsSeparate (all_insts f.blocks) f.blocks bs fresh eb)
