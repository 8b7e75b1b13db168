-- ===== src/Disasm/Slot.antt =====
-- slotExecuteBlockStart and prepareStateForNextRealPC: what happens when a block is about to run.
-- The passes over the block's code and the CPU are arguments: what the passes found in the block,
-- the current thumb flag, the 32-bit words of memory, and which addresses are valid code.
-- `none` is a failed assertion, or too little fuel.
pub mod Total
use bin2llvm.Base.{
  ℕ, zero, suc, ◌+◌, ◌-◌, ◌*◌, ◌%◌, ◌^◌, Bool, true, false, not, ◌&&◌, List, [], ◌∷◌, ◌++◌, Option,
  none, some, ltb, ◌==◌, if◌then◌else◌, length,
}
use bin2llvm.Base.Map.{NatMap, find, insert, has}
use bin2llvm.Base.Abort.{◌>>=◌, ◌>>◌, assert}
use bin2llvm.JumpTable.{JumpTableInfo, cnt_entries}
use bin2llvm.Ir.Pc.{clear_bit0}
use bin2llvm.Disasm.WorkList.{
  WorkList, explore_pc_later, get_next_real_pc, more_to_explore, mark_visited,
}

pub data ThumbBit : Type 0 where
  thumb_bit_undefined thumb_bit_set thumb_bit_unset : ThumbBit

-- getTargets(), getImplicitTarget() if there is one, getThumbBit() and llvm_first_pc_after_bb.
pub record BlockFacts : Type 0 where
  pub targets : List ℕ
  pub implicit : Option ℕ
  pub thumb_bit : ThumbBit
  pub first_pc_after_bb : ℕ

-- m_pcStart, m_pcEnd, and whether the block was named func_entry_point.
pub record TranslatedBlock : Type 0 where
  pub pc_start : ℕ
  pub pc_end : ℕ
  pub is_entry : Bool

pub record Plugin : Type 0 where
  pub work : WorkList
  pub is_pc_thumb : NatMap Bool
  pub jump_tables : NatMap JumpTableInfo
  pub all_basic_blocks : List TranslatedBlock
  pub first_translation : Bool

-- How the handler leaves: a CpuExitException with a new thumb flag, one with a new PC and flag, or
-- the end of the exploration.
pub data Action : Type 0 where
  retranslate : Bool → Action
  resume : ℕ → Bool → Action
  finished : Action

abbrev pub real_pc : ℕ → ℕ
real_pc = clear_bit0

module _ (read_word : ℕ → ℕ) where
  -- The entries i, i + 1, ... of the table, n of them.
  pub load_table : JumpTableInfo → ℕ → ℕ → List ℕ
  load_table info zero i = []
  load_table info (suc n) i =
      read_word ((info.base_table + 4 * i) % 2 ^ 64) ∷ load_table info n (i + 1)

  -- allPossiblePCs
  pub possible_pcs : Plugin → ℕ → BlockFacts → Option (List ℕ)
  unfolding load_table
  possible_pcs p pc facts = elim (find pc p.jump_tables) [
    | none ↦ some facts.targets
    | some info ↦
        if info.bb_end == facts.first_pc_after_bb
        then (do
          cnt ← cnt_entries info
          some (facts.targets ++ (load_table info cnt 0 ++ info.default_case_pc ∷ [])))
        else some facts.targets
  ]

-- Without a constant store to the flag, the current mode goes on.
abbrev bit_of : Bool → ThumbBit → Bool
bit_of cpu_thumb thumb_bit_set = true
bit_of cpu_thumb thumb_bit_unset = false
bit_of cpu_thumb thumb_bit_undefined = cpu_thumb

-- The flag that is stored for a target: an implicit one goes on in the current mode.
pub target_thumb : Bool → BlockFacts → ℕ → Bool
target_thumb cpu_thumb facts pc = elim facts.implicit [
  | some q ↦ if pc == q then cpu_thumb else bit_of cpu_thumb facts.thumb_bit
  | none ↦ bit_of cpu_thumb facts.thumb_bit
]

pub schedule : Bool → BlockFacts → Plugin → List ℕ → Option Plugin
unfolding target_thumb
schedule cpu_thumb facts p [] = some p
schedule cpu_thumb facts p (pc ∷ pcs) = do
  r ← explore_pc_later p.work (real_pc pc)
  schedule cpu_thumb facts
      (record p {
        work = r.0;
        is_pc_thumb = insert (real_pc pc) (target_thumb cpu_thumb facts pc) p.is_pc_thumb;
      })
      pcs

-- m_isPCThumb[realPC] == true, which enters a missing key.
pub recorded_thumb : Plugin → ℕ → Bool
recorded_thumb p pc = elim (find pc p.is_pc_thumb) [ none ↦ false | some b ↦ b ]

note_thumb : Plugin → ℕ → Plugin
unfolding recorded_thumb
note_thumb p pc = record p { is_pc_thumb = insert pc (recorded_thumb p pc) p.is_pc_thumb }

-- The loop over what is scheduled.
pub next_valid : (ℕ → Bool) → ℕ → Plugin → Option (Plugin × Action)
unfolding note_thumb
next_valid valid zero p = if more_to_explore p.work then none else some (p, finished)
next_valid valid (suc fuel) p =
    let go = (do
      r ← get_next_real_pc p.work
      assert (r.0 % 2 == 0)
      let q = note_thumb (record p { work = r.1 }) r.0
      let rest = next_valid valid fuel q
      if valid r.0 then some (q, resume r.0 (recorded_thumb q r.0)) else rest) in
    if more_to_explore p.work then go else some (p, finished)

-- MyTranslationBasicBlock and m_visitedPC for the block that is about to run.
add_block : Plugin → ℕ → ℕ → Option Plugin
add_block p pc pc_end = do
  assert (ltb pc pc_end)
  some (record p {
    all_basic_blocks =
        p.all_basic_blocks
        ++ record { pc_start = pc; pc_end = pc_end; is_entry = p.first_translation } ∷ [];
    work = mark_visited p.work pc;
    first_translation = false;
  })

-- The mode in which the block must be translated.
pub sure_thumb : Plugin → ℕ → Bool → Bool
sure_thumb p pc cpu_thumb = elim (find (real_pc pc) p.is_pc_thumb) [ none ↦ cpu_thumb | some b ↦ b ]

abbrev same : Bool → Bool → Bool
same true b = b
same false b = not b

pub slot_execute_block_start :
    (ℕ → ℕ) → (ℕ → Bool) → Plugin → Bool → ℕ → BlockFacts → Option (Plugin × Action)
unfolding possible_pcs schedule next_valid add_block sure_thumb
slot_execute_block_start read_word valid p cpu_thumb pc facts =
    if same cpu_thumb (sure_thumb p pc cpu_thumb)
    then (do
      q ← add_block p pc facts.first_pc_after_bb
      pcs ← possible_pcs read_word q pc facts
      r ← schedule cpu_thumb facts q pcs
      next_valid valid (length r.work.scheduled) r)
    else some (p, retranslate (sure_thumb p pc cpu_thumb))

-- exit(): the addresses that are written to isThumbOut.
unfoldable pub thumb_pcs : NatMap Bool → List ℕ
thumb_pcs [] = []
thumb_pcs ((pc, b) ∷ m) = if b then pc ∷ thumb_pcs m else thumb_pcs m
