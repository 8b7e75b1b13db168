-- ===== src/Disasm/Slot/Total.antt =====
-- The handler always leaves in one of its three ways, and no assertion fails.
use bin2llvm.Base.{
  ℕ, zero, suc, ◌+◌, ◌-◌, ◌%◌, ◌^◌, ◌<◌, ◌≤◌, Bool, true, false, ◌||◌, List, [], ◌∷◌, ◌++◌, Option,
  none, some, lt→ltb, ◌==◌, if◌then◌else◌, length, ◌≡◌, refl, arith, All, inl, inr, Bool-cases,
  Option-cases, not, List-cases, ap,
}
use bin2llvm.Base.Map.{find, insert, has}
use bin2llvm.JumpTable.{JumpTableInfo, IsTable, cnt_entries_lem}
use bin2llvm.Disasm.Intervals.Blind.{bsearch_blind}
use bin2llvm.Disasm.WorkList.{
  WorkList, explore_pc_later, get_next_real_pc, more_to_explore, mark_visited,
}
use bin2llvm.Disasm.Slot.{
  BlockFacts, Plugin, Action, retranslate, resume, finished, real_pc, load_table, possible_pcs,
  same, schedule, note_thumb, recorded_thumb, next_valid, add_block, sure_thumb,
  slot_execute_block_start, target_thumb,
}

abbrev pub IsEven : ℕ → Type 0
IsEven n = n % 2 ≡ 0

-- Scheduled addresses are real ones, without the thumb bit.
pub record IsSound (w : WorkList) : Type 0 where
  pub even : All IsEven w.scheduled
  pub few : length w.intervals < 2 ^ 30

pub record Inv (p : Plugin) : Type 0 where
  pub sound : IsSound p.work
  pub tables : (pc : ℕ) (info : JumpTableInfo) → find pc p.jump_tables ≡ some info → IsTable info

explore_total :
    (w : WorkList) (pc : ℕ)
    → IsSound w
    → IsEven pc
    → (r : WorkList × Bool) × (explore_pc_later w pc ≡ some r) × IsSound r.0
unfolding explore_pc_later
explore_total w pc h e = elim (Bool-cases (has pc w.visited || has pc w.scheduled_map)) [
  | inl known ↦ ((w, false), rw known refl, h)
  | inr new ↦ (
    (
      record w { scheduled = pc ∷ w.scheduled; scheduled_map = insert pc true w.scheduled_map },
      true,
    ),
    rw (new, bsearch_blind w.intervals pc h.few) refl,
    record { even = (e, h.even); few = h.few },
  )
]

-- What the scheduling of targets changes.
record Scheduled (p q : Plugin) : Type 0 where
  sound : IsSound q.work
  same_tables : q.jump_tables ≡ p.jump_tables

schedule_total :
    (cpu_thumb : Bool) (facts : BlockFacts) (p : Plugin) (pcs : List ℕ)
    → IsSound p.work
    → (q : Plugin) × (schedule cpu_thumb facts p pcs ≡ some q) × Scheduled p q
unfolding schedule
schedule_total cpu_thumb facts p [] h = (p, refl, record { sound = h; same_tables = refl })
schedule_total cpu_thumb facts p (pc ∷ pcs) h =
    let (r, er, hr) = explore_total p.work (real_pc pc) h (omega arith) in
    let p' : Plugin = record p {
      work = r.0;
      is_pc_thumb = insert (real_pc pc) (target_thumb cpu_thumb facts pc) p.is_pc_thumb;
    } in
    let (q, eq, hq) = schedule_total cpu_thumb facts p' pcs hr in
    (q, simp (er, eq), record { sound = hq.sound; same_tables = hq.same_tables })

same_self : (c : Bool) → same c c ≡ false → ⊥
same_self true h = ground arith
same_self false h = ground arith

same_not : (c b : Bool) → same c b ≡ false → b ≡ not c
same_not true b h = h
same_not false true h = refl
same_not false false h = cc

same_is : (c b : Bool) → same c b ≡ true → b ≡ c
same_is true b h = h
same_is false true h = cc
same_is false false h = refl

-- How the handler goes on: at a valid even address with the flag that is recorded for it, or with
-- nothing left to explore.
abbrev pub GoesOn : (ℕ → Bool) → Plugin → Action → Type 0
GoesOn valid q (retranslate b) = ⊥
GoesOn valid q (resume pc b) = (valid pc ≡ true) × IsEven pc × (recorded_thumb q pc ≡ b)
GoesOn valid q finished = q.work.scheduled ≡ []

-- A recorded mode of the address is the current one.
abbrev pub InMode : Plugin → Bool → ℕ → Type 0
InMode p cpu_thumb pc = (b : Bool) → find (real_pc pc) p.is_pc_thumb ≡ some b → b ≡ cpu_thumb

-- The block is asked for again in the recorded mode, which is not the current one, or it ran in its
-- recorded mode and the handler goes on.
abbrev pub Leaves : (ℕ → Bool) → Plugin → Bool → ℕ → Plugin → Action → Type 0
Leaves valid p cpu_thumb pc q (retranslate b) =
    (q ≡ p) × (find (real_pc pc) p.is_pc_thumb ≡ some b) × (b ≡ not cpu_thumb)
Leaves valid p cpu_thumb pc q (resume next b) =
    InMode p cpu_thumb pc × GoesOn valid q (resume next b)
Leaves valid p cpu_thumb pc q finished = InMode p cpu_thumb pc × GoesOn valid q finished

other_mode :
    (p : Plugin) (pc : ℕ) (cpu_thumb : Bool)
    → same cpu_thumb (sure_thumb p pc cpu_thumb) ≡ false
    → Leaves (λ a. true) p cpu_thumb pc p (retranslate (sure_thumb p pc cpu_thumb))
unfolding sure_thumb
other_mode p pc cpu_thumb h = elim (Option-cases (find (real_pc pc) p.is_pc_thumb)) [
  | inl e ↦ absurd (same_self cpu_thumb (rw (sure_thumb, e) at h))
  | inr (b, e) ↦ rw (sure_thumb, e) (refl, refl, same_not cpu_thumb b (rw (sure_thumb, e) at h))
]

in_mode :
    (p : Plugin) (pc : ℕ) (cpu_thumb : Bool)
    → same cpu_thumb (sure_thumb p pc cpu_thumb) ≡ true
    → InMode p cpu_thumb pc
unfolding sure_thumb
in_mode p pc cpu_thumb h b e = same_is cpu_thumb b (rw (sure_thumb, e) at h)

gone_on :
    (valid : ℕ → Bool) (p : Plugin) (cpu_thumb : Bool) (pc : ℕ) (q : Plugin) (a : Action)
    → InMode p cpu_thumb pc
    → GoesOn valid q a
    → Leaves valid p cpu_thumb pc q a
gone_on valid p cpu_thumb pc q (retranslate b) m h = absurd h
gone_on valid p cpu_thumb pc q (resume next b) m h = (m, h)
gone_on valid p cpu_thumb pc q finished m h = (m, h)

-- The plugin after the next address was taken from the list and its flag was read.
abbrev taken : Plugin → ℕ → List ℕ → Plugin
taken p pc rest =
    note_thumb
      (record p {
        work = record p.work {
          scheduled = rest;
          scheduled_map = insert pc false p.work.scheduled_map;
        };
      })
      pc

Inv-taken :
    (p : Plugin) (pc : ℕ) (rest : List ℕ)
    → p.work.scheduled ≡ pc ∷ rest
    → Inv p
    → Inv (taken p pc rest) × IsEven pc × ((taken p pc rest).work.scheduled ≡ rest)
unfolding note_thumb
Inv-taken p pc rest e inv =
    let all = rw e at inv.sound.even in
    (
      record { sound = record { even = all.1; few = inv.sound.few }; tables = inv.tables },
      all.0,
      refl,
    )

next_valid-step :
    (valid : ℕ → Bool) (fuel : ℕ) (p : Plugin) (pc : ℕ) (rest : List ℕ)
    → p.work.scheduled ≡ pc ∷ rest
    → IsEven pc
    → let q = taken p pc rest in
      next_valid valid (suc fuel) p
      ≡ (if valid pc then some (q, resume pc (recorded_thumb q pc)) else next_valid valid fuel q)
unfolding next_valid more_to_explore get_next_real_pc
next_valid-step valid fuel p pc rest e even = rw (e, even)

next_valid-empty :
    (valid : ℕ → Bool) (fuel : ℕ) (p : Plugin)
    → p.work.scheduled ≡ []
    → next_valid valid fuel p ≡ some (p, finished)
unfolding next_valid more_to_explore
next_valid-empty valid zero p e = rw e
next_valid-empty valid (suc fuel) p e = rw e

abbrev Returns : (ℕ → Bool) → Option (Plugin × Action) → Type 0
Returns valid o = (r : Plugin × Action) × (o ≡ some r) × Inv r.0 × GoesOn valid r.0 r.1

next_valid_total :
    (valid : ℕ → Bool) (fuel : ℕ) (p : Plugin)
    → length p.work.scheduled ≤ fuel
    → Inv p
    → Returns valid (next_valid valid fuel p)
next_valid_total valid zero p h inv =
    let e : p.work.scheduled ≡ [] = ground arith in
    ((p, finished), next_valid-empty valid 0 p e, inv, e)
next_valid_total valid (suc fuel) p h inv = elim (List-cases p.work.scheduled) [
  | inl e ↦ ((p, finished), next_valid-empty valid (suc fuel) p e, inv, e)
  | inr (pc, rest, e) ↦
      let q = taken p pc rest in
      let (inv', even, left) = Inv-taken p pc rest e inv in
      rw (next_valid-step valid fuel p pc rest e even) (elim (Bool-cases (valid pc)) [
        | inl ok ↦ rw ok ((q, resume pc (recorded_thumb q pc)), refl, inv', (ok, even, refl))
        | inr bad ↦
            rw bad (next_valid_total valid fuel q (omega (arith, ap length e, ap length left)) inv')
      ])
]

possible_pcs_total :
    (read_word : ℕ → ℕ) (p : Plugin) (pc : ℕ) (facts : BlockFacts)
    → Inv p
    → (pcs : List ℕ) × (possible_pcs read_word p pc facts ≡ some pcs)
unfolding possible_pcs
possible_pcs_total read_word p pc facts inv = go (find pc p.jump_tables) refl
  where
    table : JumpTableInfo → List ℕ
    table info =
        facts.targets
        ++ (load_table read_word info (info.idx_stop - info.idx_start + 1) 0
            ++ info.default_case_pc ∷ [])

    go :
        (o : Option JumpTableInfo)
        → find pc p.jump_tables ≡ o
        → (pcs : List ℕ) × (possible_pcs read_word p pc facts ≡ some pcs)
    go none e = (facts.targets, rw (e, possible_pcs))
    go (some info) e =
        let cnt = cnt_entries_lem info (inv.tables pc info e) in
        rw (e, possible_pcs, cnt)
          (elim (Bool-cases (info.bb_end == facts.first_pc_after_bb)) [
            | inl hit ↦ (table info, rw hit refl)
            | inr miss ↦ (facts.targets, rw miss refl)
          ])

-- The plugin with the block that is about to run.
abbrev added : Plugin → ℕ → BlockFacts → Plugin
added p pc facts = record p {
  all_basic_blocks =
      p.all_basic_blocks
      ++ record { pc_start = pc; pc_end = facts.first_pc_after_bb; is_entry = p.first_translation }
        ∷ [];
  work = record p.work { visited = insert pc true p.work.visited };
  first_translation = false;
}

Inv-added : (p : Plugin) (pc : ℕ) (facts : BlockFacts) → Inv p → Inv (added p pc facts)
Inv-added p pc facts inv = record {
  sound = record { even = inv.sound.even; few = inv.sound.few };
  tables = inv.tables;
}

Inv-Scheduled : (p q : Plugin) → Inv p → Scheduled p q → Inv q
Inv-Scheduled p q inv h = record {
  sound = h.sound;
  tables = λ pc info e. inv.tables pc info (rw h.same_tables at e);
}

-- The handler of a block whose end lies behind its start returns: no assertion fails, and the loop
-- over the scheduled addresses ends. If a mode other than the current one is recorded for the block,
-- the plugin stays and the block is asked for again in that mode. Otherwise the handler goes on at
-- a valid address without thumb bit in the mode that is recorded for it, or has nothing left to
-- explore. What it needs of the plugin (real addresses in the list, jump tables in order) holds
-- afterwards too.
pub slot_returns :
    (read_word : ℕ → ℕ) (valid : ℕ → Bool) (p : Plugin) (cpu_thumb : Bool) (pc : ℕ)
    (facts : BlockFacts)
    → Inv p
    → pc < facts.first_pc_after_bb
    → (r : Plugin × Action) × (slot_execute_block_start read_word valid p cpu_thumb pc facts
        ≡ some r)
      × Inv r.0
      × Leaves valid p cpu_thumb pc r.0 r.1
unfolding slot_execute_block_start add_block mark_visited
slot_returns read_word valid p cpu_thumb pc facts inv h =
    elim (Bool-cases (same cpu_thumb (sure_thumb p pc cpu_thumb))) [
      | inr other ↦ (
        (p, retranslate (sure_thumb p pc cpu_thumb)),
        rw other refl,
        inv,
        other_mode p pc cpu_thumb other,
      )
      | inl right ↦
          let q = added p pc facts in
          let ends = lt→ltb pc facts.first_pc_after_bb h in
          let (pcs, epcs) = possible_pcs_total read_word q pc facts (Inv-added p pc facts inv) in
          let (r, er, hr) = schedule_total cpu_thumb facts q pcs (Inv-added p pc facts inv).sound in
          let (out, eout, iout, lout) =
            next_valid_total valid (length r.work.scheduled) r (omega arith)
              (Inv-Scheduled q r (Inv-added p pc facts inv) hr) in
          (
            out,
            simp (right, ends, epcs, er, eout),
            iout,
            gone_on valid p cpu_thumb pc out.0 out.1 (in_mode p pc cpu_thumb right) lout,
          )
    ]
