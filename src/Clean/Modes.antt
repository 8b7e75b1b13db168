-- ===== src/Clean/Modes.antt =====
-- S2EARMMergePcThumbPass: a store to PC and a store to thumb side by side become one store to PC that
-- carries the mode, and the mode of its address is recorded.
pub mod Keeps
use bin2llvm.Base.{
  ℕ, zero, suc, ◌-◌, ◌%◌, ◌^◌, Bool, true, false, not, List, [], ◌∷◌, Option, none, some, ◌==◌,
  if◌then◌else◌,
}
use bin2llvm.Base.Map.{NatMap, find, insert}
use bin2llvm.Base.Abort.{◌>>=◌, ◌>>◌, assert}
use bin2llvm.Ir.{trans_next_instruction_set, Inst, Block, Function}
use bin2llvm.Ir.Meta.{set_metadata}
use bin2llvm.Ir.Pc.{as_const, stored_in}
use bin2llvm.Clean.{or_else}
use bin2llvm.Clean.ExtraPc.{pc_const}

pub data InstructionSet : Type 0 where
  arm thumb unknown : InstructionSet

-- m_instructionSet
abbrev pub InstructionSets : Type 0
InstructionSets = NatMap InstructionSet

-- pc & 0xfffffffe
abbrev pub mask : ℕ → ℕ
mask pc = pc % 2 ^ 32 - pc % 2

-- The map is read with operator[], which gives the first of the enumerators for a key that is missing.
unfoldable pub get_instruction_set : InstructionSets → ℕ → InstructionSet
get_instruction_set sets pc = elim (find pc sets) [
  | none ↦ unknown
  | some s ↦ elim (find (mask pc) sets) [ none ↦ arm | some t ↦ t ]
]

unfoldable pub set_instruction_set_to_thumb : InstructionSets → ℕ → InstructionSets
set_instruction_set_to_thumb sets pc = insert (mask pc) thumb sets

-- The constant that is stored to thumb.
unfoldable pub thumb_const : Inst → Option ℕ
thumb_const i = do v ← stored_in "thumb" i.op; as_const v

-- Two neighbours: whether the store to PC is the first, its constant, and whether thumb becomes one.
pub record Pair : Type 0 where
  pub pc_first : Bool
  pub pc : ℕ
  pub is_thumb : Bool

abbrev pub both : Bool → Option ℕ → Option ℕ → Option Pair
both pc_first (some pc) (some t) =
    some (record { pc_first = pc_first; pc = pc; is_thumb = not (t == 0) })
both pc_first _ _ = none

unfoldable pub pair_of : Inst → Inst → Option Pair
unfolding pc_const thumb_const
pair_of i next =
    or_else (both true (pc_const i) (thumb_const next)) (both false (pc_const next) (thumb_const i))

abbrev pub mode_text : Bool → List ℕ
mode_text true = b't' ∷ b'h' ∷ b'u' ∷ b'm' ∷ b'b' ∷ []
mode_text false = b'a' ∷ b'r' ∷ b'm' ∷ []

abbrev pub set_of : Bool → InstructionSet
set_of true = thumb
set_of false = arm

abbrev pub with_mode : Pair → Inst → Inst
with_mode p i = set_metadata i trans_next_instruction_set (mode_text p.is_thumb)

unfoldable pub record_mode : Pair → InstructionSets → InstructionSets
record_mode p sets = insert (mask p.pc) (set_of p.is_thumb) sets

-- One round: the two instructions with the metadata of the pair, whether the first and the second are
-- put into eraseList, and the map.
pub record Merged : Type 0 where
  pub inst : Inst
  pub next : Inst
  pub erase_inst : Bool
  pub erase_next : Bool
  pub sets : InstructionSets

unfoldable pub merge_pair : InstructionSets → Inst → Inst → Merged
unfolding pair_of record_mode
merge_pair sets i n = elim (pair_of i n) [
  | none ↦ record { inst = i; next = n; erase_inst = false; erase_next = false; sets = sets }
  | some p ↦
      if p.pc_first
      then record {
        inst = with_mode p i;
        next = n;
        erase_inst = false;
        erase_next = true;
        sets = record_mode p sets;
      }
      else record {
        inst = i;
        next = with_mode p n;
        erase_inst = true;
        erase_next = false;
        sets = record_mode p sets;
      }
]

-- An instruction, kept unless it is erased; to erase it twice is undefined: `none`.
abbrev pub keep : Bool → Bool → Inst → List Inst → Option (List Inst)
keep true true i is = none
keep false false i is = some (i ∷ is)
keep _ _ i is = some is

-- From instruction i on, where `erased` says that the round before has erased it. There is no round
-- for the last instruction.
unfoldable pub merge_from :
    InstructionSets → Bool → Inst → List Inst → Option (List Inst × InstructionSets)
unfolding merge_pair
merge_from sets erased i [] = do is ← keep erased false i []; some (is, sets)
merge_from sets erased i (n ∷ is) = do
  let m = merge_pair sets i n
  rest ← merge_from m.sets m.erase_next m.next is
  kept ← keep erased m.erase_inst m.inst rest.0
  some (kept, rest.1)

unfoldable pub merge_block : InstructionSets → List Inst → Option (List Inst × InstructionSets)
unfolding merge_from
merge_block sets [] = some ([], sets)
merge_block sets (i ∷ is) = merge_from sets false i is

unfoldable pub merge_blocks : InstructionSets → List Block → Option (List Block × InstructionSets)
unfolding merge_block
merge_blocks sets [] = some ([], sets)
merge_blocks sets (b ∷ bs) = do
  r ← merge_block sets b.insts
  rest ← merge_blocks r.1 bs
  some (record b { insts = r.0 } ∷ rest.0, rest.1)

unfoldable pub merge_pc_thumb : InstructionSets → Function → Option (Function × InstructionSets)
unfolding merge_blocks
merge_pc_thumb sets f = do r ← merge_blocks sets f.blocks; some (record f { blocks = r.0 }, r.1)
