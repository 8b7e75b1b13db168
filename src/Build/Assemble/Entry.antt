-- ===== src/Build/Assemble/Entry.antt =====
-- The entry of a finished function: what fixup_entry does for the rule of LLVM that no terminator
-- names the first block.
use bin2llvm.Base.{
  ℕ, ◌<◌, Bool, true, false, List, [], ◌∷◌, map, str_eq, ◌==◌, ◌≡◌, refl, arith, Bool-cases, inl,
  inr, In, here, there,
}
use bin2llvm.Ir.{Inst, Block}
use bin2llvm.Ir.Pc.{any}
use bin2llvm.Build.Assemble.{fresh_label, op_uses, has_use, front_meta, fixup_entry}

-- The terminators name blocks of the function only.
unfoldable pub IsClosed : List Block → Type 0
IsClosed bs = (l : ℕ) → has_use l bs ≡ true → In l (map (λ (b : Block). b.label) bs)

label_lt_fresh :
    (l : ℕ) (bs : List Block) → In l (map (λ (b : Block). b.label) bs) → l < fresh_label bs
label_lt_fresh l [] h = elim h [ ]
label_lt_fresh l (b ∷ bs) (here e) = ground (arith, e)
label_lt_fresh l (b ∷ bs) (there h) = ground (arith, label_lt_fresh l bs h)

fresh_unused : (bs : List Block) → IsClosed bs → has_use (fresh_label bs) bs ≡ false
unfolding IsClosed
fresh_unused bs h = elim (Bool-cases (has_use (fresh_label bs) bs)) [
  | inr e ↦ e
  | inl e ↦ absurd (omega (arith, label_lt_fresh (fresh_label bs) bs (h (fresh_label bs) e)))
]

front_unused :
    (l : ℕ) (b : Block)
    → (b.label == l) ≡ false
    → any (λ (i : Inst). op_uses l i.op) (front_meta b) ≡ false
unfolding any
front_unused l b h = go b.insts
  where
    go :
        (is : List Inst)
        → any (λ (i : Inst). op_uses l i.op) (front_meta (record b { insts = is })) ≡ false
    go [] = rw h refl
    go (i ∷ is) = rw h refl

-- A terminator of the function names its first block.
unfoldable pub entry_used : List Block → Bool
unfolding has_use any
entry_used [] = false
entry_used (b ∷ bs) = has_use b.label (b ∷ bs)

-- The first block of a function is no target of its terminators when the pass is done, if its name is
-- func_entry_point and the terminators name blocks of the function only.
pub fixup_entry-first_unused :
    (b : Block) (bs : List Block)
    → str_eq b.name "func_entry_point" ≡ true
    → IsClosed (b ∷ bs)
    → entry_used (fixup_entry (b ∷ bs)) ≡ false
unfolding fixup_entry entry_used has_use any
fixup_entry-first_unused b bs h closed = elim (Bool-cases (has_use b.label (b ∷ bs))) [
  | inl u ↦
      let front = front_unused (fresh_label (b ∷ bs)) b (ground arith) in
      rw (h, u, front) (fresh_unused (b ∷ bs) closed)
  | inr u ↦ rw (h, u) u
]
