-- ===== src/Build/Assemble/Returns.antt =====
-- The fixup of returns leaves a block in order.
use mathlib.Core.List.{append-nil}
use bin2llvm.Base.{
  true, false, List, [], ◌∷◌, ◌++◌, some, length, filter, ◌≡◌, refl, ap, arith, inl, inr,
  List-cases,
}
use bin2llvm.Ir.{ret, Inst, Block}
use bin2llvm.Ir.Meta.{has_metadata}
use bin2llvm.Build.Shape.{
  is_fake, not_fake, is_empty, is_exit, ends_once, ends_once_of_exit, ends_once-retarget,
}
use bin2llvm.Build.Fixup.{cleanup_fake_returns, new_inst}
use bin2llvm.Build.Fixup.Returns.{is_marked_return, not_marked_return, fixup_returns}
use bin2llvm.Build.Assemble.Marks.{sum_of, is_return_mark, marks_plain, Exit, Ended}

record Scanned (is : List Inst) : Type 0 where
  empty : is_empty is ≡ true → is_empty (filter not_marked_return is) ≡ true
  exit : is_exit is ≡ true → marks_plain is ≡ true → is_exit (filter not_marked_return is) ≡ true
  returns : length (filter is_marked_return is) ≡ sum_of is_return_mark is
  silent : length (filter is_marked_return is) ≡ 0 → filter not_marked_return is ≡ is

filter-Scanned : (is : List Inst) → Scanned is
filter-Scanned [] = record { empty = λ h. h; exit = λ h k. h; returns = refl; silent = λ z. refl }
filter-Scanned (i ∷ is) =
    let s = filter-Scanned is in
    record {
      empty = λ h. cc;
      exit = λ h k. ground (arith, s.exit, s.empty);
      returns = ground (arith, s.returns);
      silent = λ z. ground (arith, s.silent);
    }

is_fake-ret : is_fake (new_inst ret) ≡ false
unfolding is_fake has_metadata
is_fake-ret = refl

-- With no return the block stays as it is, and with one it gets a new terminator.
pub fixup_returns-Exit :
    (b c : Block) → Exit b.insts → fixup_returns b ≡ some c → ends_once c.insts ≡ true
unfolding fixup_returns cleanup_fake_returns
fixup_returns-Exit b c x h =
    let s = filter-Scanned b.insts in
    elim (List-cases (filter is_marked_return b.insts)) [
      | inl e ↦
          let same = s.silent (ap length e) in
          let k = append-nil b.insts in
          let out : c.insts ≡ b.insts = ground arith in rw out (ends_once_of_exit b.insts x.exit)
      | inr (i, rest, e) ↦ elim (List-cases rest) [
        | inl d ↦
            let out : c.insts
                ≡ filter not_fake (filter not_marked_return b.insts ++ new_inst ret ∷ []) =
              ground arith in
            rw out (
              ends_once-retarget (filter not_marked_return b.insts) (new_inst ret)
                (s.exit x.exit x.plain) refl is_fake-ret)
        | inr (j, rest', d) ↦ absurd (omega (arith, x.single, s.returns, ap length e, ap length d))
      ]
    ]

pub fixup_returns-Ended :
    (b c : Block)
    → Ended is_return_mark b.insts
    → fixup_returns b ≡ some c
    → ends_once c.insts ≡ true
unfolding fixup_returns cleanup_fake_returns
fixup_returns-Ended b c x h =
    let s = filter-Scanned b.insts in
    elim (List-cases (filter is_marked_return b.insts)) [
      | inl e ↦
          let same = s.silent (ap length e) in
          let k = append-nil b.insts in let out : c.insts ≡ b.insts = ground arith in rw out x.ends
      | inr (i, rest, e) ↦ absurd (omega (arith, x.unmarked, s.returns, ap length e))
    ]
