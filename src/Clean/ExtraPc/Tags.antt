-- ===== src/Clean/ExtraPc/Tags.antt =====
-- The tags INS_currPC that the pass gives to the instructions of a block.
use bin2llvm.Base.{
  ℕ, zero, suc, ◌<◌, ◌^◌, List, [], ◌∷◌, Option, none, some, get_elem?, take, ◌≡◌, refl, ◌∙◌, sym,
  ap, Option-cases, inl, inr, All,
}
use bin2llvm.Base.Abort.{some_inj}
use bin2llvm.Ir.{ins_curr_pc, Inst}
use bin2llvm.Ir.Meta.{get_current_pc_of_ins, get_hex-set_metadata}
use bin2llvm.Clean.{or_else}
use bin2llvm.Clean.ExtraPc.{pc_const, next_pc, tag_insts}

-- The last constant that the instructions store to PC.
unfoldable pub last_const : List Inst → Option ℕ
last_const [] = none
last_const (i ∷ is) = or_else (last_const is) (pc_const i)

abbrev pub get_or : Option ℕ → ℕ → ℕ
get_or none d = d
get_or (some n) d = n

-- The constants for PC fit 63 bits.
abbrev pub Fits : Inst → Type 0
Fits i = (n : ℕ) → pc_const i ≡ some n → n < 2 ^ 63

get_or-or_else : (o p : Option ℕ) (d : ℕ) → get_or o (get_or p d) ≡ get_or (or_else o p) d
get_or-or_else none p d = refl
get_or-or_else (some n) p d = refl

next_pc_or : (pc : ℕ) (i : Inst) → next_pc pc i ≡ get_or (pc_const i) pc
unfolding next_pc
next_pc_or pc i = elim (Option-cases (pc_const i)) [
  | inl e ↦ rw (next_pc, e) refl
  | inr (n, e) ↦ rw (next_pc, e) refl
]

next_pc_lt : (pc : ℕ) (i : Inst) → pc < 2 ^ 63 → Fits i → next_pc pc i < 2 ^ 63
unfolding next_pc
next_pc_lt pc i h f = elim (Option-cases (pc_const i)) [
  | inl e ↦ rw (next_pc, e) h
  | inr (n, e) ↦ rw (next_pc, e) (f n e)
]

-- Every instruction is tagged with the last constant that the instructions above it in the block store
-- to PC, or with the address that the block is entered with if there is none. The address and the
-- constants are below 2^63.
pub tag_insts-last_const :
    (pc k : ℕ) (is : List Inst) (j : Inst)
    → pc < 2 ^ 63
    → All Fits is
    → get_elem? (tag_insts pc is).0 k ≡ some j
    → get_current_pc_of_ins j ≡ some (get_or (last_const (take k is)) pc)
unfolding tag_insts last_const get_current_pc_of_ins
tag_insts-last_const pc k [] j h f e = cc
tag_insts-last_const pc zero (i ∷ is) j h f e =
    rw (sym (some_inj e)) (get_hex-set_metadata i ins_curr_pc ins_curr_pc pc h)
tag_insts-last_const pc (suc k) (i ∷ is) j h f e =
    let deeper = tag_insts-last_const (next_pc pc i) k is j (next_pc_lt pc i h f.0) f.1 e in
    deeper
    ∙ ap some (
        ap (get_or (last_const (take k is))) (next_pc_or pc i)
        ∙ get_or-or_else (last_const (take k is)) (pc_const i) pc)
