-- ===== src/Disasm/Extract.antt =====
-- harvesting-passes/ExtractPossibleTargetsPass.cpp, the ARM build: the addresses behind a translated
-- block. The pass runs before registers become globals, so a store to a register is a store to an
-- address that is computed from the CPU state. `none` is a failed assertion.
pub mod Listed
use text.Mathlib.Text.{starts_with}
use bin2llvm.Base.{
  ℕ, ◌%◌, ◌^◌, Bool, not, ◌&&◌, List, [], ◌∷◌, ◌++◌, Option, none, some, if◌then◌else◌, ◌==◌, ◌≡◌,
  refl, arith, inl, inr, Option-cases, String,
}
use bin2llvm.Base.Abort.{◌>>=◌, ◌>>◌, assert}
use bin2llvm.Ir.Pc.{is_some}

-- The pointer of a store: an inttoptr of an instruction, of which the name of operand 0 and the
-- constant in operand 1 count, or anything else. A constant is a 64-bit word.
pub data Address : Type 0 where
  int_to_ptr : String → Option ℕ → Address
  other_address : Address

-- The pointer, and the value if it is a constant.
pub record EnvStore : Type 0 where
  pub address : Address
  pub value : Option ℕ

-- A basic block: whether it ends in a return, and its stores.
pub record EnvBlock : Type 0 where
  pub returns : Bool
  pub stores : List EnvStore

abbrev pc_offset : ℕ
pc_offset = 0xc0

abbrev lr_offset : ℕ
lr_offset = 0xbc

-- The constant that goes to the register at this offset.
abbrev pub const_at : ℕ → Address → Option ℕ → Option ℕ
const_at offset (int_to_ptr name (some idx)) value =
    if starts_with name "env_v" && idx % 2 ^ 32 == offset then value else none
const_at offset _ value = none

abbrev pub is_store_to_pc : EnvStore → Option ℕ
is_store_to_pc s = const_at pc_offset s.address s.value

abbrev pub is_store_to_lr : EnvStore → Option ℕ
is_store_to_lr s = const_at lr_offset s.address s.value

-- lastStoreToPCValue and lastStoreToLRValue, with `none` while the flag beside it is false.
pub last_store : (EnvStore → Option ℕ) → Option ℕ → List EnvStore → Option ℕ
last_store reg last [] = last
last_store reg last (s ∷ ss) = last_store reg (elim (reg s) [ none ↦ last | some v ↦ some v ]) ss

-- targetPCs, and implicitTargetPC where hasImplicit is true.
pub record Extracted : Type 0 where
  pub target_pcs : List ℕ
  pub implicit : Option ℕ

add_pc : Extracted → Option ℕ → Extracted
add_pc e none = e
add_pc e (some v) = record e { target_pcs = e.target_pcs ++ v ∷ [] }

add_lr : Extracted → Option ℕ → Option Extracted
add_lr e none = some e
add_lr e (some v) = do
  assert (not (is_some e.implicit))
  some (record { target_pcs = e.target_pcs ++ v ∷ []; implicit = some v })

pub extract_block : Extracted → EnvBlock → Option Extracted
unfolding last_store add_pc add_lr
extract_block e b =
    if b.returns
    then add_lr (add_pc e (last_store is_store_to_pc none b.stores))
        (last_store is_store_to_lr none b.stores)
    else some e

pub extract_blocks : Extracted → List EnvBlock → Option Extracted
unfolding extract_block
extract_blocks e [] = some e
extract_blocks e (b ∷ bs) = do f ← extract_block e b; extract_blocks f bs

unfoldable pub extract_targets : List EnvBlock → Option Extracted
unfolding extract_blocks
extract_targets bs = extract_blocks (record { target_pcs = []; implicit = none }) bs

-- The last constant that the block stores to a register.
abbrev pub last_const : (EnvStore → Option ℕ) → List EnvStore → Option ℕ
last_const reg [] = none
last_const reg (s ∷ ss) = elim (last_const reg ss) [ none ↦ reg s | some v ↦ some v ]

abbrev or_else : Option ℕ → Option ℕ → Option ℕ
or_else (some a) b = some a
or_else none b = b

-- The scan of a block keeps the last constant that is stored, and the one before where there is none.
last_store_lem :
    (reg : EnvStore → Option ℕ) (last : Option ℕ) (ss : List EnvStore)
    → last_store reg last ss ≡ or_else (last_const reg ss) last
unfolding last_store
last_store_lem reg last [] = refl
last_store_lem reg last (s ∷ ss) = elim (Option-cases (reg s)) [
  | inl e ↦ ground (arith, last_store_lem reg last ss)
  | inr (v, e) ↦ ground (arith, last_store_lem reg (some v) ss)
]
