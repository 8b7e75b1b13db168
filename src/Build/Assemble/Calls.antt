-- ===== src/Build/Assemble/Calls.antt =====
-- The fixup of calls leaves a block in order.
use bin2llvm.Base.{
  ℕ, ◌<◌, List, [], ◌∷◌, ◌++◌, Option, none, some, if◌then◌else◌, ◌==◌, filter, ◌≡◌, refl, ap,
  arith, ◌⊎◌, inl, inr, Bool-cases, Option-cases,
}
use bin2llvm.Base.Map.{NatMap, find}
use bin2llvm.Base.Abort.{assert, >>=-eq-some}
use bin2llvm.Ir.{
  ins_direct_jump, ins_indirect_jump, ins_return, ins_fake_return, ins_unresolved_call,
  ins_call_return, Inst, Block,
}
use bin2llvm.Ir.Meta.{
  has_metadata, set_metadata, has_metadata-set_metadata, get_hex_metadata_from_ins,
}
use bin2llvm.Ir.Pc.{true_text}
use bin2llvm.Build.Shape.{is_fake, not_fake}
use bin2llvm.Build.Fixup.{cleanup_fake_returns, branch_to}
use bin2llvm.Build.Fixup.Calls.{is_marked_call, call_inst, scan_calls, fixup_calls}
use bin2llvm.Build.Assemble.Marks.{
  sum_of, IsIndexed, IsIndexed-none, SameShape, SameInst, SameShape-cons, Exit, Ended, any_mark,
  jump_or_later, Exit-SameShape, SameShape-refl, Ended-retarget, is_fake-branch_to,
  any_mark-branch_to, sum_of-jump_or_later, any_mark-zero,
}

SameInst-unresolved : (i : Inst) → SameInst i (set_metadata i ins_unresolved_call true_text)
unfolding is_fake set_metadata
SameInst-unresolved i = record {
  op = refl;
  fake = has_metadata-set_metadata i ins_unresolved_call ins_fake_return true_text;
  call = simp has_metadata-set_metadata;
  jump = has_metadata-set_metadata i ins_unresolved_call ins_direct_jump true_text;
  indirect = has_metadata-set_metadata i ins_unresolved_call ins_indirect_jump true_text;
  return = has_metadata-set_metadata i ins_unresolved_call ins_return true_text;
}

SameInst-refl : (i : Inst) → SameInst i i
SameInst-refl i = record {
  op = refl;
  fake = refl;
  call = refl;
  jump = refl;
  indirect = refl;
  return = refl;
}

call_inst-SameInst :
    (m : NatMap ℕ) (t : Option ℕ) (i : Inst) (r : Inst × Option ℕ)
    → call_inst m t i ≡ some r
    → SameInst i r.0
unfolding call_inst
call_inst-SameInst m t i r h =
    let (u, eu, h1) = >>=-eq-some (assert (has_metadata i ins_call_return)) _ h in
    let (pc, epc, h2) = >>=-eq-some (get_hex_metadata_from_ins i ins_call_return) _ h1 in
    elim (Option-cases (find pc m)) [
      | inl e ↦
          let out : r.0 ≡ set_metadata i ins_unresolved_call true_text = ground arith in
          rw out (SameInst-unresolved i)
      | inr (l, e) ↦ let out : r.0 ≡ i = ground arith in rw out (SameInst-refl i)
    ]

-- What the scan of a block keeps; without calls it changes nothing.
record Scanned (t : Option ℕ) (is : List Inst) (r : List Inst × Option ℕ) : Type 0 where
  same : SameShape is r.0
  silent : sum_of is_marked_call is ≡ 0 → r ≡ (is, t)

scan_calls-Scanned :
    (m : NatMap ℕ) (t : Option ℕ) (is : List Inst) (r : List Inst × Option ℕ)
    → scan_calls m t is ≡ some r
    → Scanned t is r
unfolding scan_calls
scan_calls-Scanned m t [] r h =
    let e : r ≡ ([], t) = cc in rw e (record { same = SameShape-refl []; silent = λ z. refl })
scan_calls-Scanned m t (i ∷ is) r h =
    let (q, eq, h1) = >>=-eq-some (if is_marked_call i then call_inst m t i else some (i, t)) _ h in
    let (qs, eqs, h2) = >>=-eq-some (scan_calls m q.1 is) _ h1 in
    let e : r ≡ (q.0 ∷ qs.0, qs.1) = cc in
    let s = scan_calls-Scanned m q.1 is qs eqs in
    elim (Bool-cases (is_marked_call i)) [
      | inl c ↦
          let k : SameInst i q.0 = call_inst-SameInst m t i q (rw c at eq) in
          rw e (record {
            same = SameShape-cons i q.0 is qs.0 k s.same;
            silent = λ z. absurd (ground arith);
          })
      | inr c ↦
          let o : q ≡ (i, t) = ground arith in
          let k : SameInst i q.0 = rw o (SameInst-refl i) in
          rw e (record {
            same = SameShape-cons i q.0 is qs.0 k s.same;
            silent = λ z. let b = s.silent (ground arith) in cc;
          })
    ]

-- A block with a call has no indirect jump.
fixup_calls-IsIndexed :
    (b : Block) (r : List Inst × Option ℕ)
    → Scanned none b.insts r
    → Exit b.insts
    → IsIndexed [] r.0
fixup_calls-IsIndexed b r s x = elim (Bool-cases (sum_of is_marked_call b.insts == 0)) [
  | inl z ↦ let same : r.0 ≡ b.insts = ap (λ q. q.0) (s.silent (ground arith)) in rw same x.indexed
  | inr n ↦ IsIndexed-none [] r.0 (let k = s.same.indirects in let e = x.single in ground arith)
]

fixup_calls-called :
    (m : NatMap ℕ) (b : Block) (r : List Inst × Option ℕ) (l : ℕ)
    → Scanned none b.insts r
    → r.1 ≡ some l
    → 0 < sum_of is_marked_call r.0
fixup_calls-called m b r l s e = elim (Bool-cases (sum_of is_marked_call b.insts == 0)) [
  | inl z ↦ let q = s.silent (ground arith) in absurd (cc)
  | inr n ↦ let k = s.same.calls in ground arith
]

-- A block that is left or needs nothing stays so, and has no call to be fixed any more.
pub fixup_calls-Exit :
    (m : NatMap ℕ) (b c : Block)
    → Exit b.insts
    → fixup_calls m b ≡ some c
    → Exit c.insts ⊎ Ended jump_or_later c.insts
unfolding fixup_calls cleanup_fake_returns
fixup_calls-Exit m b c x h =
    let (r, er, h1) = >>=-eq-some (scan_calls m none b.insts) _ h in
    let s = scan_calls-Scanned m none b.insts r er in
    let x' = Exit-SameShape b.insts r.0 s.same x (fixup_calls-IsIndexed b r s x) in
    elim (Option-cases r.1) [
      | inl e ↦ let out : c.insts ≡ r.0 = ground arith in inl (rw out x')
      | inr (l, e) ↦
          let out : c.insts ≡ filter not_fake (r.0 ++ branch_to l ∷ []) = ground arith in
          let called : 0 < sum_of is_marked_call r.0 = fixup_calls-called m b r l s e in
          inr (
            rw out (
              Ended-retarget jump_or_later r.0 (branch_to l) x'.exit
                (omega (arith, x'.single, sum_of-jump_or_later r.0, called)) refl
                (is_fake-branch_to l) (ground (arith, any_mark-branch_to l))))
    ]

pub fixup_calls-Ended :
    (m : NatMap ℕ) (b c : Block)
    → Ended any_mark b.insts
    → fixup_calls m b ≡ some c
    → Ended jump_or_later c.insts
unfolding fixup_calls
fixup_calls-Ended m b c x h =
    let (r, er, h1) = >>=-eq-some (scan_calls m none b.insts) _ h in
    let z = any_mark-zero b.insts x.unmarked in
    let q = (scan_calls-Scanned m none b.insts r er).silent z.0 in
    let out : c.insts ≡ b.insts = ground arith in rw out (record { ends = x.ends; unmarked = z.1 })
