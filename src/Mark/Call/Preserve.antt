-- ===== src/Mark/Call/Preserve.antt =====
-- What ARMMarkCall leaves as it was.
use bin2llvm.Base.{
  ℕ, Bool, true, false, List, [], ◌∷◌, Option, none, some, map, ◌&&◌, ◌≡◌, refl, arith, subst,
  Bool-cases, inl, inr,
}
use bin2llvm.Base.Abort.{>>=-eq-some}
use bin2llvm.Ir.{
  Kind, kind_eq, ins_direct_call, ins_indirect_call, ins_call_return, Value, const_int, Inst, Block,
  Function,
}
use bin2llvm.Ir.Meta.{get_pc_start_of_func, get_pc_end_of_func}
use bin2llvm.Ir.Pc.{pc_store, all_insts}
use bin2llvm.Mark.Call.{
  LrState, no_lr, returns_to, next_lr, mark_as_call, mark_call_inst, mark_call_insts,
  mark_call_block, mark_call,
}
use bin2llvm.Mark.Keeps.{Keeps, Keeps-refl, Keeps-set, avoids, All2, nil, cons, All2-append}

abbrev pub call_kinds : List Kind
call_kinds = ins_direct_call ∷ ins_indirect_call ∷ ins_call_return ∷ []

apart_direct : (k : Kind) → avoids k call_kinds ≡ true → kind_eq ins_direct_call k ≡ false
apart_direct k h = ground arith

apart_indirect : (k : Kind) → avoids k call_kinds ≡ true → kind_eq ins_indirect_call k ≡ false
apart_indirect k h = ground arith

apart_return : (k : Kind) → avoids k call_kinds ≡ true → kind_eq ins_call_return k ≡ false
apart_return k h = ground arith

mark_as_call-Keeps :
    (lr_val : ℕ) (v : Value) (i : Inst) → Keeps call_kinds i (mark_as_call lr_val v i)
unfolding mark_as_call
mark_as_call-Keeps lr_val (const_int n) i =
    Keeps-set call_kinds i _ ins_call_return _ apart_return
      (Keeps-set call_kinds i i ins_direct_call _ apart_direct (Keeps-refl call_kinds i))
mark_as_call-Keeps lr_val v i =
    Keeps-set call_kinds i _ ins_call_return _ apart_return
      (Keeps-set call_kinds i i ins_indirect_call _ apart_indirect (Keeps-refl call_kinds i))

mark_call_inst-Keeps :
    (pc_end : ℕ) (st : LrState) (i : Inst) → Keeps call_kinds i (mark_call_inst pc_end st i)
unfolding mark_call_inst
mark_call_inst-Keeps pc_end st i = go (pc_store i) refl
  where
    go : (o : Option Value) → pc_store i ≡ o → Keeps call_kinds i (mark_call_inst pc_end st i)
    go none e = rw (e, mark_call_inst) (Keeps-refl call_kinds i)
    go (some v) e = elim (Bool-cases (st.has_lr_store && returns_to pc_end st.lr_val)) [
      | inl c ↦ rw (e, mark_call_inst, c) (mark_as_call-Keeps st.lr_val v i)
      | inr c ↦ rw (e, mark_call_inst, c) (Keeps-refl call_kinds i)
    ]

mark_call_insts-Keeps :
    (pc_end : ℕ) (st : LrState) (is : List Inst)
    → All2 (Keeps call_kinds) is (mark_call_insts pc_end st is)
unfolding mark_call_insts
mark_call_insts-Keeps pc_end st [] = nil
mark_call_insts-Keeps pc_end st (i ∷ is) =
    cons (mark_call_inst-Keeps pc_end st i) (mark_call_insts-Keeps pc_end (next_lr st i) is)

mark_call_blocks-Keeps :
    (pc_end : ℕ) (bs : List Block)
    → All2 (Keeps call_kinds) (all_insts bs) (all_insts (map (mark_call_block pc_end) bs))
unfolding mark_call_block
mark_call_blocks-Keeps pc_end [] = nil
mark_call_blocks-Keeps pc_end (b ∷ bs) =
    All2-append (Keeps call_kinds) (mark_call_insts-Keeps pc_end no_lr b.insts)
      (mark_call_blocks-Keeps pc_end bs)

pub mark_call-Keeps :
    (f g : Function) (m : Bool)
    → mark_call f ≡ some (g, m)
    → All2 (Keeps call_kinds) (all_insts f.blocks) (all_insts g.blocks)
unfolding mark_call
mark_call-Keeps f g m done =
    let (start, e1, rest) = >>=-eq-some (get_pc_start_of_func f) _ done in
    let (end, e2, result) = >>=-eq-some (get_pc_end_of_func f) _ rest in
    let blocks : map (mark_call_block end) f.blocks ≡ g.blocks = ground arith in
    subst (λ bs. All2 (Keeps call_kinds) (all_insts f.blocks) (all_insts bs)) blocks
      (mark_call_blocks-Keeps end f.blocks)
