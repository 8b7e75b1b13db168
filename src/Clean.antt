-- ===== src/Clean.antt =====
-- The passes that run before the marking passes, and take stores away that the emulator needs and the
-- program does not: RemoveBranchTrace, S2EDeleteInstructionCount, RemoveExtraStoreToPC,
-- S2EARMMergePcThumbPass; FunctionRename and ARMDumpThumbBit, which run last. An eraseList is erased
-- behind the loop, so the loop sees every instruction.
pub mod Trace
pub mod ExtraPc
pub mod Modes
pub mod Dump
mod Tests
use bin2llvm.Base.{
  ℕ, Bool, true, false, not, ◌||◌, List, [], ◌∷◌, ◌++◌, Option, none, some, String, str_eq, map,
  filter, if◌then◌else◌, ◌≡◌, refl, sym, arith, Bool-cases, ◌⊎◌, inl, inr,
}
use bin2llvm.Ir.{Value, Inst, Block, Function}
use bin2llvm.Ir.Pc.{stored_in, as_const, any, is_some}

-- What eraseFromParent leaves of a function, where the instructions that pass the test are erased.
abbrev pub erase_block : (Inst → Bool) → Block → Block
erase_block p b = record b { insts = filter (λ i. not (p i)) b.insts }

abbrev pub erase : (Inst → Bool) → Function → Function
erase p f = record f { blocks = map (erase_block p) f.blocks }

-- eraseIns.size() > 0
abbrev pub erases : (Inst → Bool) → Function → Bool
erases p f = any (λ b. any p b.insts) f.blocks

abbrev pub or_else {ℓ} : {A : Type ℓ} → Option A → Option A → Option A
or_else none o = o
or_else (some a) o = some a

pub or_else-cases {ℓ} :
    {A : Type ℓ} (o q : Option A) (a : A) → or_else o q ≡ some a → (o ≡ some a) ⊎ (q ≡ some a)
or_else-cases none q a h = inr h
or_else-cases (some x) q a h = inl h

pub or_else-none {ℓ} : {A : Type ℓ} (o : Option A) → or_else o none ≡ o
or_else-none none = refl
or_else-none (some a) = refl

-- The value that a global is left with by the stores of a list of instructions.
abbrev pub last_stored : String → List Inst → Option Value
last_stored g [] = none
last_stored g (i ∷ is) = or_else (last_stored g is) (stored_in g i.op)

-- The blocks leave the global with the same values.
abbrev pub leaves : String → List Block → List (Option Value)
leaves g bs = map (λ b. last_stored g b.insts) bs
