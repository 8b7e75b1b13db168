-- ===== src/Disasm/Thumb.antt =====
-- harvesting-passes/ARMGetThumbBit.cpp: the thumb bit behind a translated block.
use bin2llvm.Base.{
  ℕ, Bool, true, false, ◌&&◌, ◌||◌, List, [], ◌∷◌, Option, none, some, if◌then◌else◌, ◌==◌, ◌≡◌,
  refl, arith, All, inl, inr, Bool-cases, Option-cases,
}
use bin2llvm.Ir.{Inst, Block}
use bin2llvm.Ir.Pc.{as_const, stored_in, is_some, ends_in_ret, any}
use bin2llvm.Disasm.Slot.{ThumbBit, thumb_bit_undefined, thumb_bit_set, thumb_bit_unset}

-- The constant that the instruction stores to the global `thumb`.
abbrev pub const_thumb : Inst → Option ℕ
const_thumb i = elim (stored_in "thumb" i.op) [ none ↦ none | some v ↦ as_const v ]

-- thumbVal after the instructions of a block; `none` while gotConstStoreToThumb is false.
pub block_thumb : Option ThumbBit → List Inst → Option ThumbBit
block_thumb t [] = t
block_thumb t (i ∷ is) =
    block_thumb
      (elim (const_thumb i) [
        | none ↦ t
        | some n ↦ some (if n == 1 then thumb_bit_set else thumb_bit_unset)
      ])
      is

-- thumbBits: one for each block that returns and stores a constant.
pub thumb_bits : List Block → List ThumbBit
unfolding block_thumb ends_in_ret
thumb_bits [] = []
thumb_bits (b ∷ bs) =
    let rest = thumb_bits bs in
    if ends_in_ret b.insts
    then (elim (block_thumb none b.insts) [ none ↦ rest | some t ↦ t ∷ rest ])
    else rest

-- The first one counts, if they differ.
unfoldable pub get_thumb_bit : List Block → ThumbBit
unfolding thumb_bits
get_thumb_bit bs = elim (thumb_bits bs) [ [] ↦ thumb_bit_undefined | t ∷ ts ↦ t ]

abbrev pub bit : Bool → ThumbBit
bit b = if b then thumb_bit_set else thumb_bit_unset

-- The block returns and stores a constant to the flag.
abbrev pub sets_thumb : Block → Bool
sets_thumb b = ends_in_ret b.insts && any (λ i. is_some (const_thumb i)) b.insts

-- A constant that the instruction stores to the flag stands for this mode.
abbrev pub StoresMode : Bool → Inst → Type 0
StoresMode b i = (n : ℕ) → const_thumb i ≡ some n → (n == 1) ≡ b

-- The flag is `b` wherever a block that returns sets it.
abbrev pub Returns : Bool → Block → Type 0
Returns b blk = ends_in_ret blk.insts ≡ true → All (StoresMode b) blk.insts

abbrev seen : Bool → Bool → Option ThumbBit
seen b s = if s then some (bit b) else none

block_thumb-StoresMode :
    (b s : Bool) (is : List Inst)
    → All (StoresMode b) is
    → block_thumb (seen b s) is ≡ seen b (s || any (λ i. is_some (const_thumb i)) is)
unfolding block_thumb any
block_thumb-StoresMode b s [] h = ground arith
block_thumb-StoresMode b s (i ∷ is) h = elim (Option-cases (const_thumb i)) [
  | inl e ↦ ground (arith, block_thumb-StoresMode b s is h.1)
  | inr (n, e) ↦ let m = h.0 n e in ground (arith, block_thumb-StoresMode b true is h.1)
]

-- If all blocks that return and store a constant to the flag store the same mode, the pass gives
-- that mode, and it gives the undefined bit if there is no such block.
pub get_thumb_bit_sure :
    (bs : List Block) (b : Bool)
    → All (Returns b) bs
    → get_thumb_bit bs ≡ (if any sets_thumb bs then bit b else thumb_bit_undefined)
unfolding get_thumb_bit thumb_bits any
get_thumb_bit_sure [] b h = refl
get_thumb_bit_sure (x ∷ bs) b h = elim (Bool-cases (ends_in_ret x.insts)) [
  | inr other ↦ ground (arith, get_thumb_bit_sure bs b h.1)
  | inl ends ↦
      let e = block_thumb-StoresMode b false x.insts (h.0 ends) in
      ground (arith, get_thumb_bit_sure bs b h.1, e)
]
