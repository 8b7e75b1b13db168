-- ===== src/Build/Assemble/Indirect.antt =====
-- The fixup of indirect jumps leaves a block in order.
use mathlib.Core.List.{append-nil}
use bin2llvm.Base.{
  ℕ, zero, suc, ◌+◌, true, false, not, ◌||◌, List, [], ◌∷◌, ◌++◌, Option, none, some, ◌==◌, length,
  map, filter, ◌≡◌, ◌≢◌, refl, ap, ◌∙◌, arith, ◌⊎◌, inl, inr, Bool-cases, Option-cases, List-cases,
  All, All-append, String,
}
use bin2llvm.Base.Map.{NatMap, find}
use bin2llvm.Base.Abort.{◌>>=◌, assert, >>=-eq-some}
use bin2llvm.Ir.{
  ret, ins_switch_cnt, ins_switch_default, ins_switch_idx_start, ins_switch_case, ins_indirect_jump,
  Op, switch, branch, Value, Inst, Block,
}
use bin2llvm.Ir.Meta.{has_metadata, get_hex_metadata_from_ins}
use bin2llvm.Build.Shape.{is_term, is_fake, not_fake}
use bin2llvm.Build.Fixup.{cleanup_fake_returns, branch_to, new_inst}
use bin2llvm.Build.Fixup.Switched.{get_value_switched_on}
use bin2llvm.Build.Fixup.Indirect.{
  Fake, Solved, broken, skipped, solved, Found, add_solved, get_fake, find_or_fake, add_cases,
  create_switch, solve_switch, solve_jump, scan_indirect, branches_to_fake, fixup_indirect_jumps,
}
use bin2llvm.Build.Assemble.Marks.{
  sum_of, is_indirect_mark, is_return_mark, IsIndexed, Exit, Ended, indirect_or_later,
  IsIndexed-none, Ended-retarget, indirect_or_later-zero,
}

-- The blocks that are created end in one terminator, and have no marks.
abbrev pub Created : Fake → Type 0
Created st = All (λ (b : Block). Ended is_return_mark b.insts) st.created

ret-Ended : (l : ℕ) (name : String) → Ended is_return_mark (new_inst ret ∷ [])
unfolding has_metadata
ret-Ended l name = record { ends = refl; unmarked = refl }

get_fake-Created : (name : String) (st : Fake) → Created st → Created (get_fake name st).1
unfolding get_fake
get_fake-Created name st h = elim (Option-cases st.my_fake_bb) [
  | inl e ↦ rw (e, get_fake) (All-append _ st.created _ h (ret-Ended 0 name, tt))
  | inr (l, e) ↦ rw (e, get_fake) h
]

find_or_fake-Created :
    (m : NatMap ℕ) (name : String) (pc : ℕ) (st : Fake)
    → Created st
    → Created (find_or_fake m name pc st).1
unfolding find_or_fake
find_or_fake-Created m name pc st h = elim (Option-cases (find pc m)) [
  | inl e ↦ rw (e, find_or_fake) (get_fake-Created name st h)
  | inr (l, e) ↦ rw (e, find_or_fake) h
]

add_cases-Created :
    (m : NatMap ℕ) (ins : Inst) (start n i : ℕ) (st : Fake) (r : List (ℕ × ℕ) × Fake)
    → Created st
    → add_cases m ins start n i st ≡ some r
    → Created r.1
unfolding add_cases
add_cases-Created m ins start zero i st r h e = let out : r ≡ ([], st) = cc in rw out h
add_cases-Created m ins start (suc n) i st r h e =
    let (u, eu, e1) = >>=-eq-some (assert (has_metadata ins (ins_switch_case i))) _ e in
    let (pc, ep, e2) = >>=-eq-some (get_hex_metadata_from_ins ins (ins_switch_case i)) _ e1 in
    let next = find_or_fake m "fake_switch_case" pc st in
    let (rest, er, e3) = >>=-eq-some (add_cases m ins start n (i + 1) next.1) _ e2 in
    let out : r.1 ≡ rest.1 = ground arith in
    rw out
      (add_cases-Created m ins start n (i + 1) next.1 rest (find_or_fake-Created m _ pc st h) er)

create_switch-Created :
    (m : NatMap ℕ) (ins : Inst) (v : Value) (st : Fake) (r : Op × Fake)
    → Created st
    → create_switch m ins v st ≡ some r
    → Created r.1 × (is_term r.0 ≡ true)
unfolding create_switch
create_switch-Created m ins v st r h e =
    let (pc, ep, e1) = >>=-eq-some (get_hex_metadata_from_ins ins ins_switch_default) _ e in
    let (cnt, ec, e2) = >>=-eq-some (get_hex_metadata_from_ins ins ins_switch_cnt) _ e1 in
    let (start, es, e3) = >>=-eq-some (get_hex_metadata_from_ins ins ins_switch_idx_start) _ e2 in
    let d = find_or_fake m "fake_switch" pc st in
    let (cs, ecs, e4) = >>=-eq-some (add_cases m ins start cnt 0 d.1) _ e3 in
    let out : r ≡ (switch v d.0 cs.0, cs.1) = cc in
    rw out (add_cases-Created m ins start cnt 0 d.1 cs (find_or_fake-Created m _ pc st h) ecs, refl)

-- A jump that is not skipped becomes a terminator or goes to the fake block.
abbrev Leaves : Solved → Type 0
Leaves broken = Unit {0}
Leaves skipped = ⊥
Leaves (solved op) = is_term op ≡ true

solve_found :
    (m : NatMap ℕ) (before : List Inst) (i : Inst) (st : Fake) (r : Solved × Fake)
    → Created st
    → get_value_switched_on before i ≢ some none
    → (do
      op ← get_value_switched_on before i
      elim op [
        | none ↦ some (skipped, st)
        | some v ↦ (do q ← create_switch m i v st; some (solved q.0, q.1))
      ])
      ≡ some r
    → Leaves r.0 × Created r.1
solve_found m before i st r h idx e =
    let (op, eop, e1) = >>=-eq-some (get_value_switched_on before i) _ e in
    elim (Option-cases op) [
      | inl n ↦ absurd (idx (eop ∙ ap some n))
      | inr (v, y) ↦
          let made : (do q ← create_switch m i v st; some (solved q.0, q.1)) ≡ some r =
            ground arith in
          let (q, eq, e2) = >>=-eq-some (create_switch m i v st) _ made in
          let (c, t) = create_switch-Created m i v st q h eq in
          let out : r ≡ (solved q.0, q.1) = cc in rw out (t, c)
    ]

solve_jump-Leaves :
    (m : NatMap ℕ) (before : List Inst) (i : Inst) (st : Fake) (r : Solved × Fake)
    → Created st
    → (has_metadata i ins_switch_cnt ≡ true → get_value_switched_on before i ≢ some none)
    → solve_jump m before i st ≡ some r
    → Leaves r.0 × Created r.1
unfolding solve_jump solve_switch
solve_jump-Leaves m before i st r h idx e = elim (Bool-cases (has_metadata i ins_switch_cnt)) [
  | inr plain ↦ let out : r ≡ (broken, st) = ground arith in rw out (tt, h)
  | inl table ↦
      elim (Bool-cases (
        not (has_metadata i ins_switch_default)
        || not (has_metadata i ins_switch_cnt)
        || not (has_metadata i ins_switch_idx_start))) [
          | inl bad ↦ let out : r ≡ (broken, st) = ground arith in rw out (tt, h)
          | inr good ↦
              let found : (do
                op ← get_value_switched_on before i
                elim op [
                  | none ↦ some (skipped, st)
                  | some v ↦ (do q ← create_switch m i v st; some (solved q.0, q.1))
                ])
                  ≡ some r =
                ground arith in
              solve_found m before i st r h (idx table) found
        ]
]

-- What the indirect jumps of a block add to it.
record Scanned (is : List Inst) (r : Found × Fake) : Type 0 where
  created : Created r.1
  times : r.0.times ≡ sum_of is_indirect_mark is
  all : length r.0.switches + r.0.to_fake ≡ r.0.times
  terms : All (λ op. is_term op ≡ true) r.0.switches

Scanned-jump :
    (i : Inst) (is : List Inst) (q : Solved) (qs : Found × Fake)
    → is_indirect_mark i ≡ true
    → Leaves q
    → Scanned is qs
    → Scanned (i ∷ is) (add_solved q qs.0, qs.1)
Scanned-jump i is broken qs jump l s = record {
  created = s.created;
  times = ground (arith, s.times);
  all = omega (arith, s.all);
  terms = s.terms;
}
Scanned-jump i is skipped qs jump l s = absurd l
Scanned-jump i is (solved op) qs jump l s = record {
  created = s.created;
  times = ground (arith, s.times);
  all = omega (arith, s.all);
  terms = (l, s.terms);
}

scan_indirect-Scanned :
    (m : NatMap ℕ) (before is : List Inst) (st : Fake) (r : Found × Fake)
    → Created st
    → IsIndexed before is
    → scan_indirect m before is st ≡ some r
    → Scanned is r
unfolding scan_indirect
scan_indirect-Scanned m before [] st r h x e =
    let out : r ≡ (record { switches = []; to_fake = 0; times = 0 }, st) = cc in
    rw out (record { created = h; times = refl; all = omega arith; terms = tt })
scan_indirect-Scanned m before (i ∷ is) st r h x e =
    elim (Bool-cases (has_metadata i ins_indirect_jump)) [
      | inr other ↦
          let s = scan_indirect-Scanned m (i ∷ before) is st r h x.1 (ground arith) in
          record {
            created = s.created;
            times = ground (arith, s.times);
            all = s.all;
            terms = s.terms;
          }
      | inl jump ↦
          let go : (do
            q ← solve_jump m before i st
            qs ← scan_indirect m (i ∷ before) is q.1
            some (add_solved q.0 qs.0, qs.1))
              ≡ some r =
            ground arith in
          let (q, eq, e1) = >>=-eq-some (solve_jump m before i st) _ go in
          let (qs, eqs, e2) = >>=-eq-some (scan_indirect m (i ∷ before) is q.1) _ e1 in
          let (l, c) = solve_jump-Leaves m before i st q h (x.0 jump) eq in
          let s = scan_indirect-Scanned m (i ∷ before) is q.1 qs c x.1 eqs in
          let out : r ≡ (add_solved q.0 qs.0, qs.1) = cc in
          rw out (Scanned-jump i is q.0 qs jump l s)
    ]

nil_of-length : (ops : List Op) → length ops ≡ 0 → ops ≡ []
nil_of-length [] h = refl
nil_of-length (op ∷ ops) h = absurd (omega arith)

is_fake-new_inst : (op : Op) → is_fake (new_inst op) ≡ false
unfolding is_fake has_metadata
is_fake-new_inst op = refl

is_return_mark-new_inst : (op : Op) → is_return_mark (new_inst op) ≡ false
unfolding has_metadata
is_return_mark-new_inst op = refl

-- A block with one indirect jump is left by one new terminator.
one_jump :
    (b : Block) (t : Inst) (op : Op)
    → Exit b.insts
    → sum_of is_indirect_mark b.insts ≡ 1
    → t ≡ new_inst op
    → is_term op ≡ true
    → Ended is_return_mark (filter not_fake (b.insts ++ t ∷ []))
one_jump b t op x one e term = rw e (
    Ended-retarget is_return_mark b.insts (new_inst op) x.exit (omega (arith, x.single, one)) term
      (is_fake-new_inst op) (is_return_mark-new_inst op))

-- The instructions of the block, with what is added.
record Outcome (b c : Block) (fake : Option ℕ) (f : Found) : Type 0 where
  fakes : List Inst
  made : branches_to_fake fake f.to_fake ≡ some fakes
  cleaned :
      cleanup_fake_returns f.times (b.insts ++ (map new_inst f.switches ++ fakes)) ≡ some c.insts

Outcome-none :
    (b c : Block) (fake : Option ℕ) (f : Found)
    → Outcome b c fake f
    → f.times ≡ 0
    → f.switches ≡ []
    → f.to_fake ≡ 0
    → c.insts ≡ b.insts
unfolding branches_to_fake cleanup_fake_returns
Outcome-none b c fake f o t s z =
    let made = rw z at o.made in
    let nothing : o.fakes ≡ [] = cc in
    let cleaned = rw (t, s, nothing) at o.cleaned in let k = append-nil b.insts in ground arith

Outcome-one :
    (b c : Block) (fake : Option ℕ) (f : Found)
    → Outcome b c fake f
    → Exit b.insts
    → sum_of is_indirect_mark b.insts ≡ 1
    → f.times ≡ 1
    → length f.switches + f.to_fake ≡ 1
    → All (λ op. is_term op ≡ true) f.switches
    → Ended is_return_mark c.insts
unfolding branches_to_fake cleanup_fake_returns
Outcome-one b c fake f o x one t all terms = elim (List-cases f.switches) [
  | inl s ↦
      let z : f.to_fake ≡ suc zero = omega (arith, all, ap length s) in
      elim (Option-cases fake) [
        | inl n ↦ let made = rw (z, n) at o.made in absurd (cc)
        | inr (l, n) ↦
            let made = rw (z, n) at o.made in
            let only : o.fakes ≡ branch_to l ∷ [] = ground arith in
            let cleaned = rw (t, s, only) at o.cleaned in
            let out : c.insts ≡ filter not_fake (b.insts ++ branch_to l ∷ []) = ground arith in
            rw out (one_jump b (branch_to l) (branch l) x one refl refl)
      ]
  | inr (op, rest, s) ↦ elim (List-cases rest) [
    | inr (op', rest', d) ↦ absurd (omega (arith, all, ap length s, ap length d))
    | inl d ↦
        let z : f.to_fake ≡ zero = omega (arith, all, ap length s, ap length d) in
        let made = rw z at o.made in
        let nothing : o.fakes ≡ [] = ground arith in
        let only : f.switches ≡ op ∷ [] = rw d at s in
        let cleaned = rw (t, only, nothing) at o.cleaned in
        let out : c.insts ≡ filter not_fake (b.insts ++ new_inst op ∷ []) = ground arith in
        rw out (one_jump b (new_inst op) op x one refl (rw only at terms).0)
  ]
]

-- A block that is left stays so, or gets its new terminator.
pub fixup_indirect_jumps-Exit :
    (m : NatMap ℕ) (fake : Option ℕ) (b : Block) (st : Fake) (r : Block × Fake)
    → Exit b.insts
    → Created st
    → fixup_indirect_jumps m fake b st ≡ some r
    → (Exit r.0.insts ⊎ Ended is_return_mark r.0.insts) × Created r.1
unfolding fixup_indirect_jumps
fixup_indirect_jumps-Exit m fake b st r x h e =
    let (q, eq, e1) = >>=-eq-some (scan_indirect m [] b.insts st) _ e in
    let (fakes, ef, e2) = >>=-eq-some (branches_to_fake fake q.0.to_fake) _ e1 in
    let (is, ei, e3) =
      >>=-eq-some (cleanup_fake_returns q.0.times (b.insts ++ (map new_inst q.0.switches ++ fakes)))
        _ e2 in
    let s = scan_indirect-Scanned m [] b.insts st q h x.indexed eq in
    let out : r ≡ (record b { insts = is }, q.1) = cc in
    let o : Outcome b (record b { insts = is }) fake q.0 = record {
      fakes = fakes;
      made = ef;
      cleaned = ei;
    } in
    rw out (
      elim (Bool-cases (sum_of is_indirect_mark b.insts == 0)) [
        | inl z ↦
            let none_left : length q.0.switches ≡ 0 = ground (arith, s.all, s.times) in
            let same =
              Outcome-none b (record b { insts = is }) fake q.0 o (ground (arith, s.times))
                (nil_of-length q.0.switches none_left) (ground (arith, s.all, s.times)) in
            inl (rw same x)
        | inr n ↦
            let one : sum_of is_indirect_mark b.insts ≡ 1 = ground (arith, x.single) in
            inr (
              Outcome-one b (record b { insts = is }) fake q.0 o x one (omega (arith, s.times, one))
                (omega (arith, s.all, s.times, one)) s.terms)
      ],
      s.created,
    )

pub fixup_indirect_jumps-Ended :
    (m : NatMap ℕ) (fake : Option ℕ) (b : Block) (st : Fake) (r : Block × Fake)
    → Ended indirect_or_later b.insts
    → Created st
    → fixup_indirect_jumps m fake b st ≡ some r
    → Ended is_return_mark r.0.insts × Created r.1
unfolding fixup_indirect_jumps
fixup_indirect_jumps-Ended m fake b st r x h e =
    let (q, eq, e1) = >>=-eq-some (scan_indirect m [] b.insts st) _ e in
    let (fakes, ef, e2) = >>=-eq-some (branches_to_fake fake q.0.to_fake) _ e1 in
    let (is, ei, e3) =
      >>=-eq-some (cleanup_fake_returns q.0.times (b.insts ++ (map new_inst q.0.switches ++ fakes)))
        _ e2 in
    let z = indirect_or_later-zero b.insts x.unmarked in
    let s = scan_indirect-Scanned m [] b.insts st q h (IsIndexed-none [] b.insts z.0) eq in
    let out : r ≡ (record b { insts = is }, q.1) = cc in
    let o : Outcome b (record b { insts = is }) fake q.0 = record {
      fakes = fakes;
      made = ef;
      cleaned = ei;
    } in
    let none_left : length q.0.switches ≡ 0 = ground (arith, s.all, s.times, z.0) in
    let same =
      Outcome-none b (record b { insts = is }) fake q.0 o (omega (arith, s.times, z.0))
        (nil_of-length q.0.switches none_left) (omega (arith, s.all, s.times, z.0)) in
    rw out (rw same (record { ends = x.ends; unmarked = z.1 }), s.created)
