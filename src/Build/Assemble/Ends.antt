-- ===== src/Build/Assemble/Ends.antt =====
-- After all fixups every basic block ends in one terminator.
use bin2llvm.Base.{
  ℕ, Bool, true, List, [], ◌∷◌, ◌++◌, Option, some, ◌≡◌, sym, ◌⊎◌, inl, inr, All, All-append,
  All-imp,
}
use bin2llvm.Base.Map.{NatMap}
use bin2llvm.Base.Abort.{>>=-eq-some, map_option, some_inj}
use bin2llvm.Ir.{Inst, Block}
use bin2llvm.Build.Shape.{ends_once}
use bin2llvm.Build.Fixup.{build_bb_map}
use bin2llvm.Build.Fixup.Calls.{fixup_calls}
use bin2llvm.Build.Fixup.Jumps.{fixup_direct_jumps}
use bin2llvm.Build.Fixup.Returns.{fixup_returns}
use bin2llvm.Build.Fixup.Indirect.{Fake, fixup_indirect_jumps}
use bin2llvm.Build.Assemble.{fixup_all_indirect, fixup_blocks, fresh_label}
use bin2llvm.Build.Assemble.Marks.{
  Exit, Ended, any_mark, jump_or_later, indirect_or_later, is_return_mark,
}
use bin2llvm.Build.Assemble.Calls.{fixup_calls-Exit, fixup_calls-Ended}
use bin2llvm.Build.Assemble.Jumps.{fixup_direct_jumps-Exit, fixup_direct_jumps-Ended}
use bin2llvm.Build.Assemble.Indirect.{
  Created, fixup_indirect_jumps-Exit, fixup_indirect_jumps-Ended,
}
use bin2llvm.Build.Assemble.Returns.{fixup_returns-Exit, fixup_returns-Ended}

-- A block is left by a fake return, or it ends already and has none of the marks p.
abbrev pub InOrder : (Inst → Bool) → Block → Type 0
InOrder p b = Exit b.insts ⊎ Ended p b.insts

-- The block ends in a terminator, and has no other.
abbrev pub EndsOnce : Block → Type 0
EndsOnce b = ends_once b.insts ≡ true

All-map_option :
    (P Q : Block → Type 0) (f : Block → Option Block) (bs cs : List Block)
    → ((b c : Block) → P b → f b ≡ some c → Q c)
    → All P bs
    → map_option f bs ≡ some cs
    → All Q cs
unfolding map_option
All-map_option P Q f [] cs step h e = let out : cs ≡ [] = cc in rw out tt
All-map_option P Q f (b ∷ bs) cs step h e =
    let (c, ec, e1) = >>=-eq-some (f b) _ e in
    let (rest, er, e2) = >>=-eq-some (map_option f bs) _ e1 in
    let out : cs ≡ c ∷ rest = cc in
    rw out (step b c h.0 ec, All-map_option P Q f bs rest step h.1 er)

calls-InOrder :
    (m : NatMap ℕ) (b c : Block)
    → InOrder any_mark b
    → fixup_calls m b ≡ some c
    → InOrder jump_or_later c
calls-InOrder m b c (inl x) e = fixup_calls-Exit m b c x e
calls-InOrder m b c (inr x) e = inr (fixup_calls-Ended m b c x e)

jumps-InOrder :
    (m : NatMap ℕ) (b c : Block)
    → InOrder jump_or_later b
    → fixup_direct_jumps m b ≡ some c
    → InOrder indirect_or_later c
jumps-InOrder m b c (inl x) e = fixup_direct_jumps-Exit m b c x e
jumps-InOrder m b c (inr x) e = inr (fixup_direct_jumps-Ended m b c x e)

indirect-InOrder :
    (m : NatMap ℕ) (fake : Option ℕ) (b : Block) (st : Fake) (r : Block × Fake)
    → InOrder indirect_or_later b
    → Created st
    → fixup_indirect_jumps m fake b st ≡ some r
    → InOrder is_return_mark r.0 × Created r.1
indirect-InOrder m fake b st r (inl x) h e = fixup_indirect_jumps-Exit m fake b st r x h e
indirect-InOrder m fake b st r (inr x) h e =
    let (a, c) = fixup_indirect_jumps-Ended m fake b st r x h e in (inr a, c)

returns-EndsOnce : (b c : Block) → InOrder is_return_mark b → fixup_returns b ≡ some c → EndsOnce c
returns-EndsOnce b c (inl x) e = fixup_returns-Exit b c x e
returns-EndsOnce b c (inr x) e = fixup_returns-Ended b c x e

indirect_blocks-InOrder :
    (m : NatMap ℕ) (fake : Option ℕ) (bs : List Block) (st : Fake) (r : List Block × Fake)
    → All (InOrder indirect_or_later) bs
    → Created st
    → fixup_all_indirect m fake bs st ≡ some r
    → All (InOrder is_return_mark) r.0 × Created r.1
unfolding fixup_all_indirect
indirect_blocks-InOrder m fake [] st r h c e = let out : r ≡ ([], st) = cc in rw out (tt, c)
indirect_blocks-InOrder m fake (b ∷ bs) st r h c e =
    let (q, eq, e1) = >>=-eq-some (fixup_indirect_jumps m fake b st) _ e in
    let (qs, eqs, e2) = >>=-eq-some (fixup_all_indirect m fake bs q.1) _ e1 in
    let (first, c') = indirect-InOrder m fake b st q h.0 c eq in
    let (rest, c'') = indirect_blocks-InOrder m fake bs q.1 qs h.1 c' eqs in
    let out : r ≡ (q.0 ∷ qs.0, qs.1) = cc in rw out ((first, rest), c'')

-- The fixups turn blocks that are left by a fake return, with at most one marked instruction each,
-- into blocks that end in exactly one terminator, the blocks that they create included. This holds
-- where no assertion fails, each jump through a table stores a value in which an index is found, and
-- the other blocks end in one terminator and have no marks.
pub fixup_blocks-EndsOnce :
    (fake : Option ℕ) (bs cs : List Block)
    → All (InOrder any_mark) bs
    → fixup_blocks fake bs ≡ some cs
    → All EndsOnce cs
unfolding fixup_blocks
fixup_blocks-EndsOnce fake bs cs h e =
    let (m0, e0, k0) = >>=-eq-some (build_bb_map bs) _ e in
    let (bs1, e1, k1) = >>=-eq-some (map_option (fixup_calls m0) bs) _ k0 in
    let (m1, e2, k2) = >>=-eq-some (build_bb_map bs1) _ k1 in
    let (bs2, e3, k3) = >>=-eq-some (map_option (fixup_direct_jumps m1) bs1) _ k2 in
    let (m2, e4, k4) = >>=-eq-some (build_bb_map bs2) _ k3 in
    let st : Fake = record { my_fake_bb = fake; created = []; next_label = fresh_label bs2 } in
    let (r, e5, k5) = >>=-eq-some (fixup_all_indirect m2 fake bs2 st) _ k4 in
    let (m3, e6, k6) = >>=-eq-some (build_bb_map (r.0 ++ r.1.created)) _ k5 in
    let (bs4, e7, k7) = >>=-eq-some (map_option fixup_returns (r.0 ++ r.1.created)) _ k6 in
    let (m4, e8, k8) = >>=-eq-some (build_bb_map bs4) _ k7 in
    let h1 =
      All-map_option (InOrder any_mark) (InOrder jump_or_later) (fixup_calls m0) bs bs1
        (calls-InOrder m0) h e1 in
    let h2 =
      All-map_option (InOrder jump_or_later) (InOrder indirect_or_later) (fixup_direct_jumps m1) bs1
        bs2 (jumps-InOrder m1) h1 e3 in
    let (h3, c) = indirect_blocks-InOrder m2 fake bs2 st r h2 tt e5 in
    let created =
      All-imp (λ (b : Block). Ended is_return_mark b.insts) (InOrder is_return_mark) r.1.created
        (λ b x. inr x) c in
    let h4 = All-append (InOrder is_return_mark) r.0 r.1.created h3 created in
    let out : cs ≡ bs4 = sym (some_inj k8) in
    rw out (
      All-map_option (InOrder is_return_mark) EndsOnce fixup_returns (r.0 ++ r.1.created) bs4
        returns-EndsOnce h4 e7)
