-- ===== src/Build/Assemble/Jumps.antt =====
-- The fixup of direct jumps leaves a block in order.
use mathlib.Core.List.{append-nil}
use bin2llvm.Base.{
  ℕ, ◌+◌, ◌≤◌, true, List, [], ◌∷◌, ◌++◌, some, length, map, filter, ◌≡◌, refl, ap, ◌∙◌, arith, ◌⊎◌,
  inl, inr, Option-cases, List-cases,
}
use bin2llvm.Base.Map.{NatMap}
use bin2llvm.Base.Abort.{◌>>=◌, >>=-eq-some}
use bin2llvm.Ir.{Inst, Block}
use bin2llvm.Build.Shape.{not_fake, is_empty, is_exit}
use bin2llvm.Build.Fixup.{cleanup_fake_returns, branch_to}
use bin2llvm.Build.Fixup.Calls.{is_marked_call}
use bin2llvm.Build.Fixup.Jumps.{jump_target, scan_jumps, fixup_direct_jumps}
use bin2llvm.Build.Assemble.Marks.{
  sum_of, is_jump_mark, is_indirect_mark, is_return_mark, marks_plain, Exit, Ended, jump_or_later,
  indirect_or_later, Ended-retarget, is_fake-branch_to, any_mark-branch_to,
  sum_of-indirect_or_later, jump_or_later-zero,
}

-- An instruction with a target is marked as a jump.
jump_target-mark :
    (m : NatMap ℕ) (i : Inst) (l : ℕ) → jump_target m i ≡ some (some l) → is_jump_mark i ≡ true
unfolding jump_target
jump_target-mark m i l h = ground arith

-- The instructions that stay and the targets of those that go.
record Scanned (is : List Inst) (r : List Inst × List ℕ) : Type 0 where
  empty : is_empty is ≡ true → is_empty r.0 ≡ true
  exit : is_exit is ≡ true → marks_plain is ≡ true → is_exit r.0 ≡ true
  plain : marks_plain is ≡ true → marks_plain r.0 ≡ true
  calls : sum_of is_marked_call r.0 ≤ sum_of is_marked_call is
  jumps : sum_of is_jump_mark r.0 + length r.1 ≡ sum_of is_jump_mark is
  indirects : sum_of is_indirect_mark r.0 ≤ sum_of is_indirect_mark is
  returns : sum_of is_return_mark r.0 ≤ sum_of is_return_mark is
  silent : length r.1 ≡ 0 → r.0 ≡ is

Scanned-keep :
    (i : Inst) (is : List Inst) (r : List Inst × List ℕ)
    → Scanned is r
    → Scanned (i ∷ is) (i ∷ r.0, r.1)
Scanned-keep i is r s = record {
  empty = λ h. h;
  exit = λ h k. ground (arith, s.exit, s.empty);
  plain = λ h. ground (arith, s.plain);
  calls = ground (arith, s.calls);
  jumps = ground (arith, s.jumps);
  indirects = ground (arith, s.indirects);
  returns = ground (arith, s.returns);
  silent = λ z. ap (λ js. i ∷ js) (s.silent z);
}

Scanned-drop :
    (i : Inst) (l : ℕ) (is : List Inst) (r : List Inst × List ℕ)
    → is_jump_mark i ≡ true
    → Scanned is r
    → Scanned (i ∷ is) (r.0, l ∷ r.1)
Scanned-drop i l is r m s = record {
  empty = λ h. cc;
  exit = λ h k. ground (arith, s.exit);
  plain = λ h. ground (arith, s.plain);
  calls = ground (arith, s.calls);
  jumps = ground (arith, s.jumps);
  indirects = ground (arith, s.indirects);
  returns = ground (arith, s.returns);
  silent = λ z. absurd (omega arith);
}

scan_jumps-Scanned :
    (m : NatMap ℕ) (is : List Inst) (r : List Inst × List ℕ)
    → scan_jumps m is ≡ some r
    → Scanned is r
unfolding scan_jumps
scan_jumps-Scanned m [] r h =
    let e : r ≡ ([], []) = cc in
    rw e (record {
      empty = λ h. h;
      exit = λ h k. h;
      plain = λ h. h;
      calls = omega arith;
      jumps = omega arith;
      indirects = omega arith;
      returns = omega arith;
      silent = λ z. refl;
    })
scan_jumps-Scanned m (i ∷ is) r h =
    let (t, et, h1) = >>=-eq-some (jump_target m i) _ h in
    let (rs, ers, h2) = >>=-eq-some (scan_jumps m is) _ h1 in
    let s = scan_jumps-Scanned m is rs ers in
    elim (Option-cases t) [
      | inl e ↦ let out : r ≡ (i ∷ rs.0, rs.1) = ground arith in rw out (Scanned-keep i is rs s)
      | inr (l, e) ↦
          let out : r ≡ (rs.0, l ∷ rs.1) = ground arith in
          rw out (Scanned-drop i l is rs (jump_target-mark m i l (et ∙ ap some e)) s)
    ]

-- A block with no jump to be fixed stays as it is.
fixup_direct_jumps-silent :
    (b c : Block) (r : List Inst × List ℕ)
    → Scanned b.insts r
    → r.1 ≡ []
    → (do
      is ← cleanup_fake_returns (length r.1) (r.0 ++ map branch_to r.1)
      some (record b { insts = is }))
      ≡ some c
    → c.insts ≡ b.insts
unfolding cleanup_fake_returns
fixup_direct_jumps-silent b c r s e h =
    let same = s.silent (ground arith) in let k = append-nil r.0 in ground (arith, same, k)

pub fixup_direct_jumps-Exit :
    (m : NatMap ℕ) (b c : Block)
    → Exit b.insts
    → fixup_direct_jumps m b ≡ some c
    → Exit c.insts ⊎ Ended indirect_or_later c.insts
unfolding fixup_direct_jumps cleanup_fake_returns
fixup_direct_jumps-Exit m b c x h =
    let (r, er, h1) = >>=-eq-some (scan_jumps m b.insts) _ h in
    let s = scan_jumps-Scanned m b.insts r er in
    elim (List-cases r.1) [
      | inl e ↦ let out = fixup_direct_jumps-silent b c r s e h1 in inl (rw out x)
      | inr (l, rest, e) ↦ elim (List-cases rest) [
        | inl d ↦
            let out : c.insts ≡ filter not_fake (r.0 ++ branch_to l ∷ []) = ground arith in
            inr (
              rw out (
                Ended-retarget indirect_or_later r.0 (branch_to l) (s.exit x.exit x.plain)
                  (omega (
                    arith,
                    x.single,
                    s.jumps,
                    s.indirects,
                    s.returns,
                    sum_of-indirect_or_later r.0,
                    ap length e,
                  ))
                  refl (is_fake-branch_to l) (ground (arith, any_mark-branch_to l))))
        | inr (k, rest', d) ↦ absurd (omega (arith, x.single, s.jumps, ap length e, ap length d))
      ]
    ]

pub fixup_direct_jumps-Ended :
    (m : NatMap ℕ) (b c : Block)
    → Ended jump_or_later b.insts
    → fixup_direct_jumps m b ≡ some c
    → Ended indirect_or_later c.insts
unfolding fixup_direct_jumps
fixup_direct_jumps-Ended m b c x h =
    let (r, er, h1) = >>=-eq-some (scan_jumps m b.insts) _ h in
    let s = scan_jumps-Scanned m b.insts r er in
    let z = jump_or_later-zero b.insts x.unmarked in
    elim (List-cases r.1) [
      | inl e ↦
          let out = fixup_direct_jumps-silent b c r s e h1 in
          rw out (record { ends = x.ends; unmarked = z.1 })
      | inr (l, rest, e) ↦ absurd (omega (arith, s.jumps, ap length e, z.0))
    ]
