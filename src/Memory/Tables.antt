-- ===== src/Memory/Tables.antt =====
-- The second loop of ReplaceConstantLoads::runOnFunction: a store to PC at the address of a known
-- indirect jump is given the jump table.
use native.Mathlib.Decide.{ℕ_discrete}
use bin2llvm.Base.{
  ℕ, zero, suc, ◌+◌, ◌*◌, ◌%◌, ◌^◌, ◌≤◌, ◌<◌, Bool, true, false, List, Option, none, some,
  if◌then◌else◌, ◌≡◌, refl, ◌∙◌, ap, sym, arith, ◌==◌, Bool-cases, Option-cases, inl, inr,
}
use bin2llvm.Base.Map.{NatMap, find}
use bin2llvm.Base.Abort.{◌>>=◌, >>=-eq-some, some_inj}
use bin2llvm.Hex.{hex}
use bin2llvm.JumpTable.{JumpTableInfo, cnt_entries}
use bin2llvm.Ir.{
  Kind, kind_eq, ins_curr_pc, ins_switch_cnt, ins_switch_default, ins_switch_idx_start,
  ins_switch_case, Value, Inst,
}
use bin2llvm.Ir.Meta.{
  has_metadata, set_metadata, get_hex_metadata_from_ins, get_hex-set_metadata, has_of_get_hex,
}
use bin2llvm.Ir.Pc.{pc_store}
use bin2llvm.Memory.{MemoryPool, get_memory_value}

eq_self : (n : ℕ) → (n == n) ≡ true
eq_self n = ground arith

module _ (pools : List MemoryPool) (big : Bool) where
  -- The cases i, i + 1, ... of the table, n of them.
  pub set_cases : JumpTableInfo → ℕ → ℕ → Inst → Option Inst
  set_cases info zero i ins = some ins
  set_cases info (suc n) i ins = do
    loaded_pc ← get_memory_value pools ((info.base_table + 4 * i) % 2 ^ 64) 4 big
    set_cases info n (i + 1) (set_metadata ins (ins_switch_case i) (hex loaded_pc))

  set_head : JumpTableInfo → ℕ → Inst → Inst
  set_head info cnt ins =
      set_metadata
        (set_metadata (set_metadata ins ins_switch_cnt (hex cnt)) ins_switch_default
          (hex info.default_case_pc))
        ins_switch_idx_start (hex info.idx_start)

  pub set_table : JumpTableInfo → Inst → Option Inst
  unfolding set_cases set_head
  set_table info ins = do cnt ← cnt_entries info; set_cases info cnt 0 (set_head info cnt ins)

  unfoldable pub annotate_inst : NatMap JumpTableInfo → Inst → Option Inst
  unfolding set_table
  annotate_inst tables ins = elim (pc_store ins) [
    | none ↦ some ins
    | some _ ↦
        if has_metadata ins ins_curr_pc
        then (do
          curr_pc ← get_hex_metadata_from_ins ins ins_curr_pc
          elim (find curr_pc tables) [ none ↦ some ins | some info ↦ set_table info ins ])
        else some ins
  ]

  -- What setMetadata keeps.
  module _ {ℓ} {A : Type ℓ} (of : Inst → A)
      (keeps : (i : Inst) (k : Kind) (t : List ℕ) → of (set_metadata i k t) ≡ of i) where
    set_cases-keeps :
        (info : JumpTableInfo) (n i : ℕ) (ins out : Inst)
        → set_cases info n i ins ≡ some out
        → of out ≡ of ins
    unfolding set_cases
    set_cases-keeps info zero i ins out e = ap of (sym (some_inj e))
    set_cases-keeps info (suc n) i ins out e =
        let (pc, ep, e1) =
          >>=-eq-some (get_memory_value pools ((info.base_table + 4 * i) % 2 ^ 64) 4 big) _ e in
        set_cases-keeps info n (i + 1) (set_metadata ins (ins_switch_case i) (hex pc)) out e1
        ∙ keeps ins (ins_switch_case i) (hex pc)

    set_table-keeps :
        (info : JumpTableInfo) (ins out : Inst) → set_table info ins ≡ some out → of out ≡ of ins
    unfolding set_table set_head
    set_table-keeps info ins out e =
        let (cnt, en, e1) = >>=-eq-some (cnt_entries info) _ e in
        set_cases-keeps info cnt 0 (set_head info cnt ins) out e1
        ∙ keeps _ ins_switch_idx_start (hex info.idx_start)
        ∙ keeps _ ins_switch_default (hex info.default_case_pc)
        ∙ keeps ins ins_switch_cnt (hex cnt)

    annotate_inst-keeps :
        (tables : NatMap JumpTableInfo) (ins out : Inst)
        → annotate_inst tables ins ≡ some out
        → of out ≡ of ins
    unfolding annotate_inst
    annotate_inst-keeps tables ins out e = elim (Option-cases (pc_store ins)) [
      | inl x ↦ ap of (some_inj (sym e ∙ the_same x))
      | inr (v, x) ↦ elim (Bool-cases (has_metadata ins ins_curr_pc)) [
        | inr n ↦ ground (arith, n, x, e)
        | inl y ↦ grind (arith, set_table-keeps, y, x, e)
      ]
    ]
      where
        the_same : pc_store ins ≡ none → annotate_inst tables ins ≡ some ins
        the_same x = rw (annotate_inst, x) refl

  -- The pass changes the metadata only.
  pub annotate_inst-op :
      (tables : NatMap JumpTableInfo) (ins out : Inst)
      → annotate_inst tables ins ≡ some out
      → out.op ≡ ins.op
  unfolding set_metadata
  annotate_inst-op = annotate_inst-keeps (λ i. i.op) (λ i k t. refl)

  pub annotate_inst-id :
      (tables : NatMap JumpTableInfo) (ins out : Inst)
      → annotate_inst tables ins ≡ some out
      → out.id ≡ ins.id
  unfolding set_metadata
  annotate_inst-id = annotate_inst-keeps (λ i. i.id) (λ i k t. refl)

  -- Entry i of the table can be read, and is an address below 2^63.
  abbrev pub IsEntry : JumpTableInfo → ℕ → ℕ → Type 0
  IsEntry info i pc =
      (get_memory_value pools ((info.base_table + 4 * i) % 2 ^ 64) 4 big ≡ some pc) × (pc < 2 ^ 63)

  -- What the loop from entry i on, of n rounds, makes of an instruction.
  record Filled (entry : ℕ → ℕ) (i n : ℕ) (ins out : Inst) : Type 0 where
    others :
        (k : Kind)
        → ((j : ℕ) → i ≤ j → kind_eq (ins_switch_case j) k ≡ false)
        → get_hex_metadata_from_ins out k ≡ get_hex_metadata_from_ins ins k
    cases :
        (k : ℕ)
        → i ≤ k
        → k < i + n
        → get_hex_metadata_from_ins out (ins_switch_case k) ≡ some (entry k)

  set_cases-Filled :
      (info : JumpTableInfo) (entry : ℕ → ℕ) (n i : ℕ) (ins : Inst)
      → ((j : ℕ) → j < i + n → IsEntry info j (entry j))
      → (out : Inst) × (set_cases info n i ins ≡ some out) × Filled entry i n ins out
  unfolding set_cases
  set_cases-Filled info entry zero i ins h =
      (ins, refl, record { others = λ k a. refl; cases = λ k a b. absurd (omega arith) })
  set_cases-Filled info entry (suc n) i ins h =
      let (e, small) = h i (omega arith) in
      let ins' = set_metadata ins (ins_switch_case i) (hex (entry i)) in
      let (out, eout, f) = set_cases-Filled info entry n (i + 1) ins' (λ j l. h j (omega arith)) in
      (
        out,
        simp (e, eout),
        record {
          others = λ k a.
              f.others k (λ j l. a j (omega arith))
              ∙ get_hex-set_metadata ins (ins_switch_case i) k (entry i) small
              ∙ ap (λ b. if b then some (entry i) else get_hex_metadata_from_ins ins k)
                  (a i (omega arith));
          cases = λ k a b. elim (ℕ_discrete k i) [
            | yes same ↦ rw same (
                f.others (ins_switch_case i) (λ j l. ground arith)
                ∙ get_hex-set_metadata ins (ins_switch_case i) (ins_switch_case i) (entry i) small
                ∙ ap
                    (λ b.
                      if b
                      then some (entry i)
                      else get_hex_metadata_from_ins ins (ins_switch_case i))
                    (eq_self (19 + i)))
            | no other ↦ f.cases k (omega arith) (omega arith)
          ];
        },
      )

  -- The marks of a solved jump table: the number of its entries, the default, the first index, and
  -- each entry as memory holds it.
  pub record IsSolved (info : JumpTableInfo) (cnt : ℕ) (entry : ℕ → ℕ) (out : Inst) : Type 0 where
    pub count : get_hex_metadata_from_ins out ins_switch_cnt ≡ some cnt
    pub default : get_hex_metadata_from_ins out ins_switch_default ≡ some info.default_case_pc
    pub start : get_hex_metadata_from_ins out ins_switch_idx_start ≡ some info.idx_start
    pub cases :
        (k : ℕ) → k < cnt → get_hex_metadata_from_ins out (ins_switch_case k) ≡ some (entry k)

  set_head-count :
      (info : JumpTableInfo) (cnt : ℕ) (ins : Inst)
      → cnt < 2 ^ 63
      → info.default_case_pc < 2 ^ 63
      → info.idx_start < 2 ^ 63
      → let out = set_head info cnt ins in
        (get_hex_metadata_from_ins out ins_switch_cnt ≡ some cnt)
        × (get_hex_metadata_from_ins out ins_switch_default ≡ some info.default_case_pc)
        × (get_hex_metadata_from_ins out ins_switch_idx_start ≡ some info.idx_start)
  unfolding set_head
  set_head-count info cnt ins a b c =
      let one = set_metadata ins ins_switch_cnt (hex cnt) in
      let two = set_metadata one ins_switch_default (hex info.default_case_pc) in
      (
        get_hex-set_metadata two ins_switch_idx_start ins_switch_cnt info.idx_start c
            ∙ get_hex-set_metadata one ins_switch_default ins_switch_cnt info.default_case_pc b
            ∙ get_hex-set_metadata ins ins_switch_cnt ins_switch_cnt cnt a,
        get_hex-set_metadata two ins_switch_idx_start ins_switch_default info.idx_start c
            ∙ get_hex-set_metadata one ins_switch_default ins_switch_default info.default_case_pc b,
        get_hex-set_metadata two ins_switch_idx_start ins_switch_idx_start info.idx_start c,
      )

set_table-cases :
    (pools : List MemoryPool) (big : Bool) (info : JumpTableInfo) (ins out : Inst) (cnt : ℕ)
    → cnt_entries info ≡ some cnt
    → set_cases pools big info cnt 0 (set_head pools big info cnt ins) ≡ some out
    → set_table pools big info ins ≡ some out
unfolding set_table
set_table-cases pools big info ins out cnt n e = rw n e

annotate_inst-hit :
    (pools : List MemoryPool) (big : Bool) (tables : NatMap JumpTableInfo) (info : JumpTableInfo)
    (ins out : Inst) (v : Value) (pc : ℕ)
    → pc_store ins ≡ some v
    → has_metadata ins ins_curr_pc ≡ true
    → get_hex_metadata_from_ins ins ins_curr_pc ≡ some pc
    → find pc tables ≡ some info
    → set_table pools big info ins ≡ some out
    → annotate_inst pools big tables ins ≡ some out
unfolding annotate_inst
annotate_inst-hit pools big tables info ins out v pc st here cur hit e =
    rw (st, annotate_inst, here, cur)
      (ap
          (λ o. elim o as (λ x. Option Inst) [
            | none ↦ some ins
            | some i ↦ set_table pools big i ins
          ])
          hit
        ∙ e)

-- A store to PC at the address of a jump table of cnt entries gets the whole table: its count, its
-- default, its first index, and every entry, each of which a later pass reads back as it stands in
-- memory. The entries are readable, and all numbers are below 2^63.
pub annotate_inst-IsSolved :
    (pools : List MemoryPool) (big : Bool) (tables : NatMap JumpTableInfo) (info : JumpTableInfo)
    (ins : Inst) (v : Value) (pc cnt : ℕ) (entry : ℕ → ℕ)
    → pc_store ins ≡ some v
    → get_hex_metadata_from_ins ins ins_curr_pc ≡ some pc
    → find pc tables ≡ some info
    → cnt_entries info ≡ some cnt
    → cnt < 2 ^ 63
    → info.default_case_pc < 2 ^ 63
    → info.idx_start < 2 ^ 63
    → ((j : ℕ) → j < cnt → IsEntry pools big info j (entry j))
    → (out : Inst) × (annotate_inst pools big tables ins ≡ some out)
      × IsSolved pools big info cnt entry out
unfolding annotate_inst
annotate_inst-IsSolved pools big tables info ins v pc cnt entry st cur hit n small ds ss h =
    let (out, eout, f) =
      set_cases-Filled pools big info entry cnt 0 (set_head pools big info cnt ins)
        (λ j l. h j (omega arith)) in
    let (a, b, c) = set_head-count pools big info cnt ins small ds ss in
    let here = has_of_get_hex ins ins_curr_pc pc cur in
    (
      out,
      annotate_inst-hit pools big tables info ins out v pc st here cur hit
          (set_table-cases pools big info ins out cnt n eout),
      record {
        count = f.others ins_switch_cnt (λ j l. ground arith) ∙ a;
        default = f.others ins_switch_default (λ j l. ground arith) ∙ b;
        start = f.others ins_switch_idx_start (λ j l. ground arith) ∙ c;
        cases = λ k l. f.cases k (omega arith) (omega arith);
      },
    )
