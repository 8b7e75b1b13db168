-- ===== src/Build/Targets.antt =====
-- The body of the instruction loop of BuildFunctions::exploreBB: the addresses at which control can
-- continue within the function, by the marks of a store to PC.
use bin2llvm.Base.{
  ℕ, zero, suc, ◌+◌, ◌<◌, ◌≤◌, Bool, true, false, ◌||◌, List, [], ◌∷◌, ◌++◌, Option, none, some,
  if◌then◌else◌, ◌≡◌, refl, arith, Bool-cases, inl, inr,
}
use bin2llvm.Base.Abort.{◌>>=◌, ◌>>◌, assert}
use bin2llvm.Ir.{
  ins_direct_call, ins_indirect_call, ins_call_return, ins_return, ins_direct_jump,
  ins_indirect_jump, ins_switch_cnt, ins_switch_default, ins_switch_case, Inst, Value,
}
use bin2llvm.Ir.Meta.{has_metadata, get_hex_metadata_from_ins, get_hex_of_has, has_of_get_hex}
use bin2llvm.Ir.Pc.{pc_store}
use bin2llvm.Mark.Jumps.{Marking, not_pc, tagged, direct, indirect, is_tagged, tagged_return}

-- The next addresses, and whether the store is an indirect jump.
pub record Targets : Type 0 where
  pub pcs : List ℕ
  pub is_indirect : Bool

-- The cases i, i + 1, ... of a solved jump table, n of them.
pub switch_targets : ℕ → ℕ → Inst → Option (List ℕ)
switch_targets zero i ins = some []
switch_targets (suc n) i ins = do
  assert (has_metadata ins (ins_switch_case i))
  pc ← get_hex_metadata_from_ins ins (ins_switch_case i)
  pcs ← switch_targets n (i + 1) ins
  some (pc ∷ pcs)

call_targets : Inst → Option Targets
call_targets ins = do
  assert (has_metadata ins ins_call_return)
  next_pc ← get_hex_metadata_from_ins ins ins_call_return
  some (record { pcs = next_pc ∷ []; is_indirect = false })

jump_targets : Inst → Option Targets
jump_targets ins = do
  next_pc ← get_hex_metadata_from_ins ins ins_direct_jump
  some (record { pcs = next_pc ∷ []; is_indirect = false })

indirect_targets : Inst → Option Targets
unfolding switch_targets
indirect_targets ins =
    if has_metadata ins ins_switch_cnt
    then (do
      cnt_entries ← get_hex_metadata_from_ins ins ins_switch_cnt
      cases ← switch_targets cnt_entries 0 ins
      default_pc ← get_hex_metadata_from_ins ins ins_switch_default
      some (record { pcs = cases ++ default_pc ∷ []; is_indirect = true }))
    else some (record { pcs = []; is_indirect = true })

pc_store_targets : Inst → Option Targets
unfolding call_targets jump_targets indirect_targets
pc_store_targets ins =
    if has_metadata ins ins_direct_call || has_metadata ins ins_indirect_call
    then call_targets ins
    else if has_metadata ins ins_direct_jump
    then jump_targets ins
    else if has_metadata ins ins_indirect_jump
    then indirect_targets ins
    else (do assert (has_metadata ins ins_return); some (record { pcs = []; is_indirect = false }))

-- `none` is a failed assertion.
unfoldable pub inst_targets : Inst → Option Targets
unfolding pc_store_targets
inst_targets ins = elim (pc_store ins) [
  | none ↦ some (record { pcs = []; is_indirect = false })
  | some _ ↦ pc_store_targets ins
]

-- A call carries the address that it returns to, as ARMMarkCall leaves it.
abbrev pub HasCallReturn : Inst → Type 0
HasCallReturn i =
    (has_metadata i ins_direct_call || has_metadata i ins_indirect_call) ≡ true
    → has_metadata i ins_call_return ≡ true

-- The jump table of a solved indirect jump is whole.
pub record HasSwitch (i : Inst) : Type 0 where
  pub count : ℕ
  pub read : get_hex_metadata_from_ins i ins_switch_cnt ≡ some count
  pub cases : (k : ℕ) → k < count → has_metadata i (ins_switch_case k) ≡ true
  pub default : has_metadata i ins_switch_default ≡ true

switch_targets_total :
    (c n i : ℕ) (ins : Inst)
    → i + n ≤ c
    → ((k : ℕ) → k < c → has_metadata ins (ins_switch_case k) ≡ true)
    → (pcs : List ℕ) × (switch_targets n i ins ≡ some pcs)
unfolding switch_targets
switch_targets_total c zero i ins le h = ([], refl)
switch_targets_total c (suc n) i ins le h =
    let here = h i (omega arith) in
    let (pc, e) = get_hex_of_has ins (ins_switch_case i) here in
    let (pcs, es) = switch_targets_total c n (i + 1) ins (omega arith) h in
    (pc ∷ pcs, simp (here, e, es))

abbrev Runs : Option Targets → Type 0
Runs o = (t : Targets) × (o ≡ some t)

call_targets_total : (i : Inst) → has_metadata i ins_call_return ≡ true → Runs (call_targets i)
unfolding call_targets
call_targets_total i h =
    let (pc, e) = get_hex_of_has i ins_call_return h in
    (record { pcs = pc ∷ []; is_indirect = false }, simp (h, e))

jump_targets_total : (i : Inst) → has_metadata i ins_direct_jump ≡ true → Runs (jump_targets i)
unfolding jump_targets
jump_targets_total i h =
    let (pc, e) = get_hex_of_has i ins_direct_jump h in
    (record { pcs = pc ∷ []; is_indirect = false }, simp e)

indirect_targets_total :
    (i : Inst) → (has_metadata i ins_switch_cnt ≡ true → HasSwitch i) → Runs (indirect_targets i)
unfolding indirect_targets
indirect_targets_total i sw = elim (Bool-cases (has_metadata i ins_switch_cnt)) [
  | inr c ↦ (record { pcs = []; is_indirect = true }, simp c)
  | inl c ↦
      let s = sw c in
      let (cases, ec) = switch_targets_total s.count s.count 0 i (omega arith) s.cases in
      let (d, ed) = get_hex_of_has i ins_switch_default s.default in
      (record { pcs = cases ++ d ∷ []; is_indirect = true }, simp (c, s.read, ec, ed))
]

pc_store_targets_total :
    (i : Inst)
    → HasCallReturn i
    → (has_metadata i ins_switch_cnt ≡ true → HasSwitch i)
    → ((is_tagged i || has_metadata i ins_direct_jump || has_metadata i ins_indirect_jump) ≡ true)
    → Runs (pc_store_targets i)
unfolding pc_store_targets
pc_store_targets_total i calls sw marked =
    elim (Bool-cases (has_metadata i ins_direct_call || has_metadata i ins_indirect_call)) [
      | inl c ↦ rw c (call_targets_total i (calls c))
      | inr c ↦ rw c (elim (Bool-cases (has_metadata i ins_direct_jump)) [
        | inl d ↦ rw d (jump_targets_total i d)
        | inr d ↦ rw d (elim (Bool-cases (has_metadata i ins_indirect_jump)) [
          | inl e ↦ rw e (indirect_targets_total i sw)
          | inr e ↦
              let r : has_metadata i ins_return ≡ true = returned c d e in
              (record { pcs = []; is_indirect = false }, simp (e, r))
        ])
      ])
    ]
  where
    returned :
        (has_metadata i ins_direct_call || has_metadata i ins_indirect_call) ≡ false
        → has_metadata i ins_direct_jump ≡ false
        → has_metadata i ins_indirect_jump ≡ false
        → has_metadata i ins_return ≡ true
    returned c d e = tagged_return i (ground arith) c

-- An instruction whose marks tell what it is passes every assertion of the loop, where a call
-- carries its return address and a jump table is whole.
pub inst_targets_total :
    (i : Inst)
    → Marking i
    → HasCallReturn i
    → (has_metadata i ins_switch_cnt ≡ true → HasSwitch i)
    → (t : Targets) × (inst_targets i ≡ some t)
unfolding inst_targets
inst_targets_total i m calls sw = go (pc_store i) refl m
  where
    marked :
        ((is_tagged i || has_metadata i ins_direct_jump || has_metadata i ins_indirect_jump) ≡ true)
        → Runs (pc_store_targets i)
    marked h = pc_store_targets_total i calls sw h

    go : (o : Option Value) → pc_store i ≡ o → Marking i → Runs (inst_targets i)
    go none e k = (record { pcs = []; is_indirect = false }, rw (e, inst_targets))
    go (some v) e (not_pc n _) = absurd (cc)
    go (some v) e (tagged t _) = rw (e, inst_targets) (marked (ground arith))
    go (some v) e (direct n t s d _) =
        rw (e, inst_targets) (marked (ground (arith, has_of_get_hex i ins_direct_jump n d)))
    go (some v) e (indirect w t s u d k) = rw (e, inst_targets) (marked (ground arith))
