-- ===== src/Mark/Jumps.antt =====
-- ARMMarkJumps::runOnFunction: every other store to PC is a jump.
use bin2llvm.Base.{
  ℕ, ◌^◌, ◌<◌, Bool, true, false, ◌||◌, List, [], ◌∷◌, Option, none, some, if◌then◌else◌, map, ◌&&◌,
  not, ◌≡◌, refl, arith, All, All-map, Bool-cases, inl, inr, ◌⊎◌, ◌∙◌,
}
use bin2llvm.Hex.{hex}
use bin2llvm.Ir.{
  Kind, kind_eq, ins_direct_call, ins_indirect_call, ins_return, ins_direct_jump, ins_indirect_jump,
  Value, const_int, Inst, Block, Function,
}
use bin2llvm.Ir.Meta.{
  has_metadata, set_metadata, get_hex_metadata_from_ins, has_metadata-set_metadata,
  get_hex-set_metadata,
}
use bin2llvm.Ir.Pc.{as_const, pc_store, is_some, any, all_insts, all_insts-map}
use bin2llvm.Mark.Keeps.{Keeps, Keeps-refl, Keeps-set, All2, All2-map}

pub is_tagged : Inst → Bool
is_tagged i =
    has_metadata i ins_direct_call || has_metadata i ins_indirect_call || has_metadata i ins_return

mark_as_jump : Value → Inst → Inst
mark_as_jump v i = elim (as_const v) [
  | some n ↦ set_metadata i ins_direct_jump (hex n)
  | none ↦ set_metadata i ins_indirect_jump (hex 0xdeadbeef)
]

pub mark_jump_inst : Inst → Inst
unfolding is_tagged mark_as_jump
mark_jump_inst i = elim (pc_store i) [
  | none ↦ i
  | some v ↦ if is_tagged i then i else mark_as_jump v i
]

pub is_jump : Inst → Bool
unfolding is_tagged
is_jump i = is_some (pc_store i) && not (is_tagged i)

pub mark_jump_block : Block → Block
unfolding mark_jump_inst
mark_jump_block b = record b { insts = map mark_jump_inst b.insts }

pub mark_jumps : Function → Function × Bool
unfolding mark_jump_block is_jump any
mark_jumps f =
    (record f { blocks = map mark_jump_block f.blocks }, any is_jump (all_insts f.blocks))

-- A constant that goes to PC fits a 32-bit register.
abbrev pub PcFits : Inst → Type 0
PcFits i = (n : ℕ) → pc_store i ≡ some (const_int n) → n < 2 ^ 32

abbrev pub NoJump : Inst → Type 0
NoJump i = (has_metadata i ins_direct_jump ≡ false) × (has_metadata i ins_indirect_jump ≡ false)

-- What the marks of an instruction say of it: it is no store to PC, it is a call or a return, or it
-- is a jump, to a known address or not.
pub data Marking (i : Inst) : Type 0 where
  not_pc : pc_store i ≡ none → NoJump i → Marking i
  tagged : is_tagged i ≡ true → NoJump i → Marking i
  direct :
      (n : ℕ)
      → is_tagged i ≡ false
      → pc_store i ≡ some (const_int n)
      → get_hex_metadata_from_ins i ins_direct_jump ≡ some n
      → has_metadata i ins_indirect_jump ≡ false
      → Marking i
  indirect :
      (v : Value)
      → is_tagged i ≡ false
      → pc_store i ≡ some v
      → as_const v ≡ none
      → has_metadata i ins_direct_jump ≡ false
      → has_metadata i ins_indirect_jump ≡ true
      → Marking i

set_metadata-is_tagged :
    (i : Inst) (k : Kind) (t : List ℕ)
    → kind_eq k ins_direct_call ≡ false
    → kind_eq k ins_indirect_call ≡ false
    → kind_eq k ins_return ≡ false
    → is_tagged (set_metadata i k t) ≡ is_tagged i
unfolding is_tagged
set_metadata-is_tagged i k t a b c = simp (has_metadata-set_metadata, a, b, c)

mark_jump_inst-Marking : (i : Inst) → NoJump i → PcFits i → Marking (mark_jump_inst i)
unfolding mark_jump_inst set_metadata
mark_jump_inst-Marking i fresh fits = go (pc_store i) refl (Bool-cases (is_tagged i))
  where
    go :
        (o : Option Value)
        → pc_store i ≡ o
        → (is_tagged i ≡ true) ⊎ (is_tagged i ≡ false)
        → Marking (mark_jump_inst i)
    go none e t = rw (e, mark_jump_inst) (not_pc e fresh)
    go (some v) e (inl t) = rw (e, mark_jump_inst, t) (tagged t fresh)
    go (some (const_int n)) e (inr t) =
        rw (e, mark_jump_inst, t)
          (direct n (set_metadata-is_tagged i ins_direct_jump (hex n) refl refl refl ∙ t) e
            (get_hex-set_metadata i ins_direct_jump ins_direct_jump n
              (let h = fits n e in omega arith))
            (simp has_metadata-set_metadata fresh.1))
    go (some v) e (inr t) =
        rw (e, mark_jump_inst, t)
          (indirect v
            (set_metadata-is_tagged i ins_indirect_jump (hex 0xdeadbeef) refl refl refl ∙ t) e refl
            (simp has_metadata-set_metadata fresh.0) (simp has_metadata-set_metadata))

mark_jump_block-insts : (b : Block) → (mark_jump_block b).insts ≡ map mark_jump_inst b.insts
unfolding mark_jump_block
mark_jump_block-insts b = refl

-- After the pass a store to PC that is no call and no return has exactly one mark of a jump: that of a
-- direct jump with the constant that is stored, or that of an indirect jump where no constant is
-- stored. Every other instruction has no mark of a jump. This holds for a function without jump marks whose constants for
-- PC fit 32 bits.
pub mark_jumps-Marking :
    (f : Function)
    → All NoJump (all_insts f.blocks)
    → All PcFits (all_insts f.blocks)
    → All Marking (all_insts (mark_jumps f).0.blocks)
unfolding mark_jumps
mark_jumps-Marking f fresh fits =
    rw (all_insts-map mark_jump_inst mark_jump_block f.blocks (λ b. mark_jump_block-insts b))
      (All-map Marking mark_jump_inst (all_insts f.blocks) (each (all_insts f.blocks) fresh fits))
  where
    each :
        (is : List Inst) → All NoJump is → All PcFits is → All (λ i. Marking (mark_jump_inst i)) is
    each [] h k = tt
    each (i ∷ is) h k = (mark_jump_inst-Marking i h.0 k.0, each is h.1 k.1)

pub tagged_return :
    (i : Inst)
    → is_tagged i ≡ true
    → (has_metadata i ins_direct_call || has_metadata i ins_indirect_call) ≡ false
    → has_metadata i ins_return ≡ true
unfolding is_tagged
tagged_return i t c = ground arith

abbrev pub jump_kinds : List Kind
jump_kinds = ins_direct_jump ∷ ins_indirect_jump ∷ []

mark_as_jump-Keeps : (v : Value) (i : Inst) → Keeps jump_kinds i (mark_as_jump v i)
unfolding mark_as_jump
mark_as_jump-Keeps (const_int n) i =
    Keeps-set jump_kinds i i ins_direct_jump _ (λ k a. ground arith) (Keeps-refl jump_kinds i)
mark_as_jump-Keeps v i =
    Keeps-set jump_kinds i i ins_indirect_jump _ (λ k a. ground arith) (Keeps-refl jump_kinds i)

mark_jump_inst-Keeps : (i : Inst) → Keeps jump_kinds i (mark_jump_inst i)
unfolding mark_jump_inst
mark_jump_inst-Keeps i = go (pc_store i) refl
  where
    go : (o : Option Value) → pc_store i ≡ o → Keeps jump_kinds i (mark_jump_inst i)
    go none e = rw (e, mark_jump_inst) (Keeps-refl jump_kinds i)
    go (some v) e = elim (Bool-cases (is_tagged i)) [
      | inl c ↦ rw (e, mark_jump_inst, c) (Keeps-refl jump_kinds i)
      | inr c ↦ rw (e, mark_jump_inst, c) (mark_as_jump-Keeps v i)
    ]

pub mark_jumps-Keeps :
    (f : Function)
    → All2 (Keeps jump_kinds) (all_insts f.blocks) (all_insts (mark_jumps f).0.blocks)
unfolding mark_jumps
mark_jumps-Keeps f =
    rw (all_insts-map mark_jump_inst mark_jump_block f.blocks (λ b. mark_jump_block-insts b))
      (All2-map (Keeps jump_kinds) mark_jump_inst (all_insts f.blocks) mark_jump_inst-Keeps)
