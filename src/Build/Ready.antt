-- ===== src/Build/Ready.antt =====
-- The marking passes, one after the other, leave what BuildFunctions::exploreBB asserts. The LLVM
-- passes dce and gvn, which run between them, are not part of this.
use bin2llvm.Base.{
  ℕ, ◌<◌, ◌^◌, ◌%◌, Bool, true, List, [], ◌∷◌, some, ◌≡◌, refl, ◌∙◌, sym, arith, All, All-imp, ap,
}
use bin2llvm.Ir.{
  Inst, Function, Kind, ins_direct_call, ins_indirect_call, ins_call_return, ins_direct_jump,
  ins_indirect_jump, ins_switch_cnt, ins_switch_default, ins_switch_case,
}
use bin2llvm.Ir.Meta.{has_metadata, get_pc_end_of_func, has_of_get_hex}
use bin2llvm.Ir.Pc.{all_insts, pc_store, stored_in}
use bin2llvm.Mark.Keeps.{Keeps, avoids, All2, All2-All, has_metadata-Keeps, get_hex-Keeps}
use bin2llvm.Mark.Call.{mark_call}
use bin2llvm.Mark.Call.Returns.{NoCall, LrFits, CallReturnsTo, mark_call_returns}
use bin2llvm.Mark.Call.Preserve.{call_kinds, mark_call-Keeps}
use bin2llvm.Mark.Return.{mark_return}
use bin2llvm.Mark.Return.Preserve.{return_kinds, mark_return-Keeps}
use bin2llvm.Mark.Jumps.{
  mark_jumps, Marking, NoJump, PcFits, mark_jumps-Marking, jump_kinds, mark_jumps-Keeps,
}
use bin2llvm.Build.Targets.{Targets, inst_targets, HasCallReturn, HasSwitch, inst_targets_total}

-- Whole, where there is one.
abbrev SwitchIsWhole : Inst → Type 0
SwitchIsWhole i = has_metadata i ins_switch_cnt ≡ true → HasSwitch i

-- An instruction before the marking passes.
pub record IsRaw (i : Inst) : Type 0 where
  pub no_call : NoCall i
  pub no_jump : NoJump i
  pub lr_fits : LrFits i
  pub pc_fits : PcFits i
  pub switch_whole : has_metadata i ins_switch_cnt ≡ true → HasSwitch i

pc_store-Keeps : (ks : List Kind) (i j : Inst) → Keeps ks i j → pc_store j ≡ pc_store i
pc_store-Keeps ks i j k = ap (stored_in "PC") k.same_op

PcFits-Keeps : (ks : List Kind) (i j : Inst) → Keeps ks i j → PcFits i → PcFits j
PcFits-Keeps ks i j k h n e = h n (sym (pc_store-Keeps ks i j k) ∙ e)

NoJump-call : (i j : Inst) → Keeps call_kinds i j → NoJump i → NoJump j
NoJump-call i j k h = (
  has_metadata-Keeps call_kinds i j ins_direct_jump k refl ∙ h.0,
  has_metadata-Keeps call_kinds i j ins_indirect_jump k refl ∙ h.1,
)

NoJump-return : (i j : Inst) → Keeps return_kinds i j → NoJump i → NoJump j
NoJump-return i j k h = (
  has_metadata-Keeps return_kinds i j ins_direct_jump k refl ∙ h.0,
  has_metadata-Keeps return_kinds i j ins_indirect_jump k refl ∙ h.1,
)

-- A pass whose names are none of the jump table's keeps the table.
SwitchIsWhole-Keeps :
    (ks : List Kind) (i j : Inst)
    → avoids ins_switch_cnt ks ≡ true
    → avoids ins_switch_default ks ≡ true
    → ((n : ℕ) → avoids (ins_switch_case n) ks ≡ true)
    → Keeps ks i j
    → SwitchIsWhole i
    → SwitchIsWhole j
SwitchIsWhole-Keeps ks i j a b c k h e =
    let s = h (sym (has_metadata-Keeps ks i j ins_switch_cnt k a) ∙ e) in
    record {
      count = s.count;
      read = get_hex-Keeps ks i j ins_switch_cnt k a ∙ s.read;
      cases = λ n l. has_metadata-Keeps ks i j (ins_switch_case n) k (c n) ∙ s.cases n l;
      default = has_metadata-Keeps ks i j ins_switch_default k b ∙ s.default;
    }

HasCallReturn-Keeps :
    (ks : List Kind) (i j : Inst)
    → avoids ins_direct_call ks ≡ true
    → avoids ins_indirect_call ks ≡ true
    → avoids ins_call_return ks ≡ true
    → Keeps ks i j
    → HasCallReturn i
    → HasCallReturn j
HasCallReturn-Keeps ks i j a b c k h e =
    let d = has_metadata-Keeps ks i j ins_direct_call k a in
    let n = has_metadata-Keeps ks i j ins_indirect_call k b in
    has_metadata-Keeps ks i j ins_call_return k c ∙ h (ground arith)

-- What holds of an instruction between two passes.
record IsMid (i : Inst) : Type 0 where
  calls : HasCallReturn i
  switch_whole : SwitchIsWhole i

HasCallReturn-of_CallReturnsTo : (k : ℕ) (i : Inst) → CallReturnsTo k i → HasCallReturn i
HasCallReturn-of_CallReturnsTo k i h e = has_of_get_hex i ins_call_return k (h e)

All-both : (P Q : Inst → Type 0) (is : List Inst) → All P is → All Q is → All (λ i. P i × Q i) is
All-both P Q [] h k = tt
All-both P Q (i ∷ is) h k = ((h.0, k.0), All-both P Q is h.1 k.1)

-- After the passes for calls, returns and jumps, in this order, every instruction passes the
-- assertions of exploreBB. The function before them has no marks of calls and jumps, an even 32-bit
-- end, constants for PC and LR of 32 bits, and only whole jump tables.
pub marks_ready :
    (f g h : Function) (m n : Bool) (pc_end : ℕ)
    → get_pc_end_of_func f ≡ some pc_end
    → pc_end % 2 ≡ 0
    → pc_end < 2 ^ 32
    → All IsRaw (all_insts f.blocks)
    → mark_call f ≡ some (g, m)
    → mark_return g ≡ some (h, n)
    → All (λ i. (t : Targets) × (inst_targets i ≡ some t)) (all_insts (mark_jumps h).0.blocks)
marks_ready f g h m n pc_end e even small raw eg eh =
    All-imp _ _ (all_insts (mark_jumps h).0.blocks)
      (λ i (k, l). inst_targets_total i k l.calls l.switch_whole)
      (All-both Marking IsMid (all_insts (mark_jumps h).0.blocks) marked mid_out)
  where
    to_g : All2 (Keeps call_kinds) (all_insts f.blocks) (all_insts g.blocks)
    to_g = mark_call-Keeps f g m eg

    to_h : All2 (Keeps return_kinds) (all_insts g.blocks) (all_insts h.blocks)
    to_h = mark_return-Keeps g h n eh

    calls_g : All (CallReturnsTo pc_end) (all_insts g.blocks)
    calls_g =
        mark_call_returns f g m pc_end e even small
          (All-imp IsRaw NoCall (all_insts f.blocks) (λ i r. r.no_call) raw)
          (All-imp IsRaw LrFits (all_insts f.blocks) (λ i r. r.lr_fits) raw) eg

    switch_g : All SwitchIsWhole (all_insts g.blocks)
    switch_g =
        All2-All (Keeps call_kinds) IsRaw SwitchIsWhole
          (λ i j k r.
            SwitchIsWhole-Keeps call_kinds i j refl refl (λ n. ground arith) k r.switch_whole)
          to_g raw

    mid_g : All IsMid (all_insts g.blocks)
    mid_g =
        All-imp _ IsMid (all_insts g.blocks)
          (λ i (c, s). record {
            calls = HasCallReturn-of_CallReturnsTo pc_end i c;
            switch_whole = s;
          })
          (All-both (CallReturnsTo pc_end) SwitchIsWhole (all_insts g.blocks) calls_g switch_g)

    mid_h : All IsMid (all_insts h.blocks)
    mid_h =
        All2-All (Keeps return_kinds) IsMid IsMid
          (λ i j k r. record {
            calls = HasCallReturn-Keeps return_kinds i j refl refl refl k r.calls;
            switch_whole =
                SwitchIsWhole-Keeps return_kinds i j refl refl (λ n. ground arith) k r.switch_whole;
          })
          to_h mid_g

    mid_out : All IsMid (all_insts (mark_jumps h).0.blocks)
    mid_out =
        All2-All (Keeps jump_kinds) IsMid IsMid
          (λ i j k r. record {
            calls = HasCallReturn-Keeps jump_kinds i j refl refl refl k r.calls;
            switch_whole =
                SwitchIsWhole-Keeps jump_kinds i j refl refl (λ n. ground arith) k r.switch_whole;
          })
          (mark_jumps-Keeps h) mid_h

    no_jump_h : All NoJump (all_insts h.blocks)
    no_jump_h =
        All2-All (Keeps return_kinds) NoJump NoJump NoJump-return to_h (
          All2-All (Keeps call_kinds) IsRaw NoJump (λ i j k r. NoJump-call i j k r.no_jump) to_g
            raw)

    fits_h : All PcFits (all_insts h.blocks)
    fits_h = All2-All (Keeps return_kinds) PcFits PcFits (PcFits-Keeps return_kinds) to_h (
        All2-All (Keeps call_kinds) IsRaw PcFits
          (λ i j k r. PcFits-Keeps call_kinds i j k r.pc_fits) to_g raw)

    marked : All Marking (all_insts (mark_jumps h).0.blocks)
    marked = mark_jumps-Marking h no_jump_h fits_h
