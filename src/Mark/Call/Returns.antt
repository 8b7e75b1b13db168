-- ===== src/Mark/Call/Returns.antt =====
-- Where the calls that ARMMarkCall marks return to.
use bin2llvm.Base.{
  ℕ, ◌%◌, ◌^◌, ◌<◌, Bool, true, false, ◌||◌, List, [], ◌∷◌, Option, none, some, map, ◌≡◌, refl,
  arith, All, All-append, All-append-left, All-append-right, subst,
}
use bin2llvm.Base.Abort.{>>=-eq-some}
use bin2llvm.Hex.{hex}
use bin2llvm.Ir.{
  ins_direct_call, ins_indirect_call, ins_call_return, Value, const_int, Inst, Block, Function,
}
use bin2llvm.Ir.Meta.{
  has_metadata, set_metadata, get_hex_metadata_from_ins, get_pc_start_of_func, get_pc_end_of_func,
  get_hex-set_metadata,
}
use bin2llvm.Ir.Pc.{pc_store, lr_store, clear_bit0, all_insts}
use bin2llvm.Mark.Call.{
  LrState, no_lr, returns_to, next_lr, mark_as_call, mark_call_inst, mark_call_insts,
  mark_call_block, mark_call,
}

-- The calls that were marked before the pass.
abbrev pub NoCall : Inst → Type 0
NoCall i = (has_metadata i ins_direct_call ≡ false) × (has_metadata i ins_indirect_call ≡ false)

-- A constant that goes to LR fits a 32-bit register.
abbrev pub LrFits : Inst → Type 0
LrFits i = (n : ℕ) → lr_store i ≡ some (const_int n) → n < 2 ^ 32

-- A marked call returns to the address k.
abbrev pub CallReturnsTo : ℕ → Inst → Type 0
CallReturnsTo k i =
    (has_metadata i ins_direct_call || has_metadata i ins_indirect_call) ≡ true
    → get_hex_metadata_from_ins i ins_call_return ≡ some k

clear_bit0_of_returns_to :
    (pc_end lr_val : ℕ)
    → pc_end % 2 ≡ 0
    → pc_end < 2 ^ 32
    → lr_val < 2 ^ 32
    → returns_to pc_end lr_val ≡ true
    → clear_bit0 lr_val ≡ pc_end
unfolding returns_to
clear_bit0_of_returns_to pc_end lr_val even small lr h = ground arith

mark_as_call_returns :
    (lr_val : ℕ) (v : Value) (i : Inst)
    → lr_val < 2 ^ 32
    → get_hex_metadata_from_ins (mark_as_call lr_val v i) ins_call_return ≡ some (clear_bit0 lr_val)
unfolding mark_as_call
mark_as_call_returns lr_val (const_int n) i lr =
    get_hex-set_metadata (set_metadata i ins_direct_call (hex n)) ins_call_return ins_call_return
      (clear_bit0 lr_val) (omega arith)
mark_as_call_returns lr_val v i lr =
    get_hex-set_metadata (set_metadata i ins_indirect_call (hex 0xdeadbeef)) ins_call_return
      ins_call_return (clear_bit0 lr_val) (omega arith)

mark_call_inst-CallReturnsTo :
    (pc_end : ℕ) (st : LrState) (i : Inst)
    → pc_end % 2 ≡ 0
    → pc_end < 2 ^ 32
    → st.lr_val < 2 ^ 32
    → NoCall i
    → CallReturnsTo pc_end (mark_call_inst pc_end st i)
unfolding mark_call_inst
mark_call_inst-CallReturnsTo pc_end st i even small lr h = go (pc_store i) refl
  where
    go : (o : Option Value) → pc_store i ≡ o → CallReturnsTo pc_end (mark_call_inst pc_end st i)
    go none e = rw (e, mark_call_inst) (ground (arith, h))
    go (some v) e =
        rw (e, mark_call_inst)
          (ground (
            arith,
            h,
            mark_as_call_returns st.lr_val v i lr,
            clear_bit0_of_returns_to pc_end st.lr_val even small lr,
          ))

pub next_lr-fits :
    (st : LrState) (i : Inst) → LrFits i → st.lr_val < 2 ^ 32 → (next_lr st i).lr_val < 2 ^ 32
unfolding next_lr
next_lr-fits st i h lr = go (lr_store i) refl
  where
    go : (o : Option Value) → lr_store i ≡ o → (next_lr st i).lr_val < 2 ^ 32
    go none e = rw (e, next_lr) lr
    go (some (const_int n)) e = rw (e, next_lr) (h n e)
    go (some _) e = rw (e, next_lr) lr

mark_call_insts-CallReturnsTo :
    (pc_end : ℕ) (st : LrState) (is : List Inst)
    → pc_end % 2 ≡ 0
    → pc_end < 2 ^ 32
    → st.lr_val < 2 ^ 32
    → All NoCall is
    → All LrFits is
    → All (CallReturnsTo pc_end) (mark_call_insts pc_end st is)
unfolding mark_call_insts
mark_call_insts-CallReturnsTo pc_end st [] even small lr h fits = tt
mark_call_insts-CallReturnsTo pc_end st (i ∷ is) even small lr h fits = (
  mark_call_inst-CallReturnsTo pc_end st i even small lr h.0,
  mark_call_insts-CallReturnsTo pc_end (next_lr st i) is even small (next_lr-fits st i fits.0 lr)
      h.1 fits.1,
)

mark_call_blocks-CallReturnsTo :
    (pc_end : ℕ) (bs : List Block)
    → pc_end % 2 ≡ 0
    → pc_end < 2 ^ 32
    → All NoCall (all_insts bs)
    → All LrFits (all_insts bs)
    → All (CallReturnsTo pc_end) (all_insts (map (mark_call_block pc_end) bs))
unfolding mark_call_block
mark_call_blocks-CallReturnsTo pc_end [] even small h fits = tt
mark_call_blocks-CallReturnsTo pc_end (b ∷ bs) even small h fits =
    All-append (CallReturnsTo pc_end) _ _
      (mark_call_insts-CallReturnsTo pc_end no_lr b.insts even small (omega arith)
        (All-append-left NoCall b.insts _ h) (All-append-left LrFits b.insts _ fits))
      (mark_call_blocks-CallReturnsTo pc_end bs even small (All-append-right NoCall b.insts _ h)
        (All-append-right LrFits b.insts _ fits))

-- The pass marks calls so that each one carries the address to return to, and that address is the
-- end of the basic block, read back from its text. This holds for a function without call marks,
-- whose end is an even 32-bit address and whose constants for LR fit 32 bits.
pub mark_call_returns :
    (f g : Function) (m : Bool) (pc_end : ℕ)
    → get_pc_end_of_func f ≡ some pc_end
    → pc_end % 2 ≡ 0
    → pc_end < 2 ^ 32
    → All NoCall (all_insts f.blocks)
    → All LrFits (all_insts f.blocks)
    → mark_call f ≡ some (g, m)
    → All (CallReturnsTo pc_end) (all_insts g.blocks)
unfolding mark_call
mark_call_returns f g m pc_end e even small h fits done =
    let marked = mark_call_blocks-CallReturnsTo pc_end f.blocks even small h fits in
    let (start, e1, rest) = >>=-eq-some (get_pc_start_of_func f) _ done in
    let (end, e2, result) = >>=-eq-some (get_pc_end_of_func f) _ rest in
    let same : end ≡ pc_end = cc in
    let blocks : map (mark_call_block end) f.blocks ≡ g.blocks = ground arith in
    subst (λ bs. All (CallReturnsTo pc_end) (all_insts bs))
      (subst (λ k. map (mark_call_block k) f.blocks ≡ g.blocks) same blocks) marked
