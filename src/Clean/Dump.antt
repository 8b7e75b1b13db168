-- ===== src/Clean/Dump.antt =====
-- ARMDumpThumbBit: the addresses that it lists as Thumb code; FunctionRename: the last names.
use Prim.Native.String.{◌++◌ as str_append}
use bin2llvm.Base.{
  ℕ, ◌≤◌, Bool, true, false, List, [], ◌∷◌, ◌++◌, Option, none, some, String, if◌then◌else◌, ◌==◌,
  ◌≡◌, refl, arith, Bool-cases, Option-cases, inl, inr, All, All-append, All-append-left,
  All-append-right,
}
use bin2llvm.Base.Abort.{◌>>=◌}
use bin2llvm.Hex.{Text, hex}
use bin2llvm.Ir.{ins_curr_pc, Inst, Block, Function, Module}
use bin2llvm.Ir.Meta.{has_metadata, get_hex_metadata_from_ins, front_inst, entry_block}
use bin2llvm.Ir.Pc.{as_const, stored_in, clear_bit0, contains, all_insts}
use bin2llvm.Clean.{or_else, or_else-cases}

-- The constant that a tagged instruction stores to thumb.
unfoldable pub tagged_thumb : Inst → Option ℕ
tagged_thumb i =
    if has_metadata i ins_curr_pc then (do v ← stored_in "thumb" i.op; as_const v) else none

-- The first such constant of a block. The source looks for a store to thumb here too.
unfoldable pub get_store_to_pc_in_bb : List Inst → Option ℕ
unfolding tagged_thumb
get_store_to_pc_in_bb [] = none
get_store_to_pc_in_bb (i ∷ is) = or_else (tagged_thumb i) (get_store_to_pc_in_bb is)

-- What one instruction adds, in a block with the instructions `all`.
unfoldable pub thumb_pc : List Inst → Inst → List ℕ
unfolding tagged_thumb get_store_to_pc_in_bb
thumb_pc all i = elim (tagged_thumb i) [
  | none ↦ []
  | some n ↦
      if n == 1
      then elim (get_store_to_pc_in_bb all) [ none ↦ [] | some pc ↦ clear_bit0 pc ∷ [] ]
      else []
]

unfoldable pub block_thumb_pcs : List Inst → List Inst → List ℕ
unfolding thumb_pc
block_thumb_pcs all [] = []
block_thumb_pcs all (i ∷ is) = thumb_pc all i ++ block_thumb_pcs all is

unfoldable pub func_thumb_pcs : List Block → List ℕ
unfolding block_thumb_pcs
func_thumb_pcs [] = []
func_thumb_pcs (b ∷ bs) = block_thumb_pcs b.insts b.insts ++ func_thumb_pcs bs

unfoldable pub dump_thumb_pcs : Module → List ℕ
unfolding func_thumb_pcs
dump_thumb_pcs [] = []
dump_thumb_pcs (f ∷ fs) = func_thumb_pcs f.blocks ++ dump_thumb_pcs fs

-- Whether "linked-final" is in the name of a function whose first instruction has an address, and then
-- the new name. A name is a list of bytes here: `to_string` makes the name of the text.
module _ (to_string : Text → String) where
  unfoldable pub function_rename : Function → Function × Bool
  unfolding front_inst entry_block
  function_rename f =
      if contains f.name "linked-final"
      then elim (do
        b ← entry_block f.blocks
        i ← front_inst b.insts
        get_hex_metadata_from_ins i ins_curr_pc) [
          | none ↦ (f, false)
          | some pc_start ↦
              (record f { name = str_append "Function_" (to_string (hex pc_start)) }, true)
        ]
      else (f, false)

-- All tagged stores of a constant to thumb store 0 or 1.
unfoldable pub IsFlag : Inst → Type 0
IsFlag i = (n : ℕ) → tagged_thumb i ≡ some n → n ≤ 1

first_flag : (is : List Inst) (n : ℕ) → All IsFlag is → get_store_to_pc_in_bb is ≡ some n → n ≤ 1
unfolding get_store_to_pc_in_bb IsFlag
first_flag [] n h e = cc
first_flag (i ∷ is) n h e = elim (or_else-cases (tagged_thumb i) (get_store_to_pc_in_bb is) n e) [
  | inl x ↦ h.0 n x
  | inr x ↦ first_flag is n h.1 x
]

listed-zero :
    (o : Option ℕ)
    → ((n : ℕ) → o ≡ some n → n ≤ 1)
    → All (λ (pc : ℕ). pc ≡ 0) (elim o [ none ↦ [] | some pc ↦ clear_bit0 pc ∷ [] ])
listed-zero none h = tt
listed-zero (some n) h = (omega (arith, h n refl), tt)

thumb_pc-zero :
    (all : List Inst) (i : Inst) → All IsFlag all → All (λ (pc : ℕ). pc ≡ 0) (thumb_pc all i)
unfolding thumb_pc
thumb_pc-zero all i h = elim (Option-cases (tagged_thumb i)) [
  | inl e ↦ rw (thumb_pc, e) tt
  | inr (n, e) ↦ elim (Bool-cases (n == 1)) [
    | inl y ↦
        rw (thumb_pc, e, y) (listed-zero (get_store_to_pc_in_bb all) (λ m x. first_flag all m h x))
    | inr y ↦ rw (thumb_pc, e, y) tt
  ]
]

block-zero :
    (all is : List Inst) → All IsFlag all → All (λ (pc : ℕ). pc ≡ 0) (block_thumb_pcs all is)
unfolding block_thumb_pcs
block-zero all [] h = tt
block-zero all (i ∷ is) h =
    All-append (λ (pc : ℕ). pc ≡ 0) (thumb_pc all i) _ (thumb_pc-zero all i h) (block-zero all is h)

func-zero :
    (bs : List Block) → All IsFlag (all_insts bs) → All (λ (pc : ℕ). pc ≡ 0) (func_thumb_pcs bs)
unfolding func_thumb_pcs
func-zero [] h = tt
func-zero (b ∷ bs) h =
    All-append (λ (pc : ℕ). pc ≡ 0) (block_thumb_pcs b.insts b.insts) _
      (block-zero b.insts b.insts (All-append-left IsFlag b.insts (all_insts bs) h))
      (func-zero bs (All-append-right IsFlag b.insts (all_insts bs) h))

-- Where all tagged constants for thumb are 0 or 1, every address that the pass lists is 0, since it
-- lists constants for thumb in place of constants for PC.
pub dump_thumb_pcs-zero :
    (m : Module)
    → All (λ (f : Function). All IsFlag (all_insts f.blocks)) m
    → All (λ (pc : ℕ). pc ≡ 0) (dump_thumb_pcs m)
unfolding dump_thumb_pcs
dump_thumb_pcs-zero [] h = tt
dump_thumb_pcs-zero (f ∷ fs) h =
    All-append (λ (pc : ℕ). pc ≡ 0) (func_thumb_pcs f.blocks) _ (func-zero f.blocks h.0)
      (dump_thumb_pcs-zero fs h.1)
