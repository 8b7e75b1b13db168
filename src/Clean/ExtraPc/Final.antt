-- ===== src/Clean/ExtraPc/Final.antt =====
-- The stores to PC that RemoveExtraStoreToPC leaves.
use bin2llvm.Base.{
  ℕ, Bool, true, false, not, ◌&&◌, List, [], ◌∷◌, Option, some, leb, if◌then◌else◌, ◌≡◌, refl, ◌∙◌,
  sym, ap, subst, arith, Bool-cases, Option-cases, inl, inr, Pairwise,
}
use bin2llvm.Base.Abort.{assert, >>=-eq-some, some_inj}
use bin2llvm.Hex.{hex}
use bin2llvm.Ir.{ins_curr_pc, Value, Inst, Block, Function}
use bin2llvm.Ir.Meta.{set_metadata, get_pc_start_of_func, get_pc_end_of_func}
use bin2llvm.Ir.Pc.{pc_store, is_some, any, ends_in_ret}
use bin2llvm.Clean.{last_stored, or_else}
use bin2llvm.Clean.ExtraPc.{
  pc_const, next_pc, tag_insts, is_extra, erase_one, erase_extra, remove_from_blocks,
  remove_extra_store_to_pc,
}

abbrev pub stores_pc : Inst → Bool
stores_pc i = is_some (pc_store i)

-- No store to PC stands behind a constant for PC.
unfoldable pub only_last : List Inst → Bool
unfolding any
only_last [] = true
only_last (i ∷ is) = (if is_some (pc_const i) then not (any stores_pc is) else true) && only_last is

-- No constant is stored to PC.
unfoldable pub no_consts : List Inst → Bool
no_consts [] = true
no_consts (i ∷ is) = not (is_some (pc_const i)) && no_consts is

-- What the pass makes of a block.
pub record Final (b c : Block) : Type 0 where
  pub last : ends_in_ret b.insts ≡ true → last_stored "PC" c.insts ≡ last_stored "PC" b.insts
  pub only : ends_in_ret b.insts ≡ true → only_last c.insts ≡ true
  pub none_inside : ends_in_ret b.insts ≡ false → no_consts c.insts ≡ true

any-last_stored : (is : List Inst) → is_some (last_stored "PC" is) ≡ any stores_pc is
unfolding any
any-last_stored [] = refl
any-last_stored (i ∷ is) = ground (arith, any-last_stored is)

const_stores : (i : Inst) → is_some (pc_const i) ≡ true → stores_pc i ≡ true
unfolding pc_const
const_stores i h = ground arith

erase_one-kept :
    (x : Bool) (s e : ℕ) (i : Inst) (rest r : List Inst × Bool)
    → erase_one x s e i rest ≡ some r
    → r.0 ≡ (if x then rest.0 else i ∷ rest.0)
unfolding erase_one
erase_one-kept false s e i rest r h = rw (sym (some_inj h)) refl
erase_one-kept true s e i rest r h =
    let (n, en, h1) = >>=-eq-some (pc_const i) _ h in
    let (u, eu, h2) = >>=-eq-some (assert (leb s n && leb n e)) _ h1 in rw (sym (some_inj h2)) refl

extra_later : (i : Inst) (is : List Inst) → is_extra true i is ≡ true → any stores_pc is ≡ true
unfolding is_extra
extra_later i is h = ground arith

or_else-last :
    (is : List Inst) (o : Option Value)
    → any stores_pc is ≡ true
    → or_else (last_stored "PC" is) o ≡ last_stored "PC" is
or_else-last is o h = elim (Option-cases (last_stored "PC" is)) [
  | inl e ↦
      absurd
        (let nothing : any stores_pc is ≡ false = sym (any-last_stored is) ∙ ap is_some e in cc)
  | inr (v, e) ↦ rw e refl
]

only_last-cons :
    (i : Inst) (is rs : List Inst)
    → is_extra true i is ≡ false
    → any stores_pc rs ≡ any stores_pc is
    → only_last rs ≡ true
    → only_last (i ∷ rs) ≡ true
unfolding only_last is_extra
only_last-cons i is rs n later only = ground arith

-- Of an exit block.
erase_exit :
    (s e : ℕ) (is : List Inst) (r : List Inst × Bool)
    → erase_extra true s e is ≡ some r
    → (last_stored "PC" r.0 ≡ last_stored "PC" is) × (only_last r.0 ≡ true)
unfolding erase_extra only_last
erase_exit s e [] r h = rw (sym (some_inj h)) (refl, refl)
erase_exit s e (i ∷ is) r h =
    let (rest, er, h1) = >>=-eq-some (erase_extra true s e is) _ h in
    let kept = erase_one-kept (is_extra true i is) s e i rest r h1 in
    let (same, only) = erase_exit s e is rest er in
    let later : any stores_pc rest.0 ≡ any stores_pc is =
      sym (any-last_stored rest.0) ∙ ap is_some same ∙ any-last_stored is in
    elim (Bool-cases (is_extra true i is)) [
      | inl y ↦ rw (kept, y, same, or_else-last is (pc_store i) (extra_later i is y)) (refl, only)
      | inr n ↦ rw (kept, n, same) (refl, only_last-cons i is rest.0 n later only)
    ]

erase_inner :
    (s e : ℕ) (is : List Inst) (r : List Inst × Bool)
    → erase_extra false s e is ≡ some r
    → no_consts r.0 ≡ true
unfolding erase_extra no_consts is_extra
erase_inner s e [] r h = rw (sym (some_inj h)) refl
erase_inner s e (i ∷ is) r h =
    let (rest, er, h1) = >>=-eq-some (erase_extra false s e is) _ h in
    let kept = erase_one-kept (is_extra false i is) s e i rest r h1 in
    let inner = erase_inner s e is rest er in rw kept (ground arith)

tagged_op : (pc : ℕ) (i : Inst) → pc_store (set_metadata i ins_curr_pc (hex pc)) ≡ pc_store i
unfolding set_metadata
tagged_op pc i = refl

last_stored-tag_insts :
    (pc : ℕ) (is : List Inst) → last_stored "PC" (tag_insts pc is).0 ≡ last_stored "PC" is
unfolding tag_insts set_metadata
last_stored-tag_insts pc [] = refl
last_stored-tag_insts pc (i ∷ is) = rw (last_stored-tag_insts (next_pc pc i) is) refl

block-Final :
    (s e pc : ℕ) (b : Block) (r : List Inst × Bool)
    → erase_extra (ends_in_ret b.insts) s e (tag_insts pc b.insts).0 ≡ some r
    → Final b (record b { insts = r.0 })
block-Final s e pc b r h = record {
  last = λ y.
      (erase_exit s e (tag_insts pc b.insts).0 r
        (subst (λ x. erase_extra x s e (tag_insts pc b.insts).0 ≡ some r) y h)).0
      ∙ last_stored-tag_insts pc b.insts;
  only = λ y.
      (erase_exit s e (tag_insts pc b.insts).0 r
        (subst (λ x. erase_extra x s e (tag_insts pc b.insts).0 ≡ some r) y h)).1;
  none_inside = λ n.
      erase_inner s e (tag_insts pc b.insts).0 r
        (subst (λ x. erase_extra x s e (tag_insts pc b.insts).0 ≡ some r) n h);
}

blocks-Final :
    (s e pc : ℕ) (bs : List Block) (r : List Block × Bool)
    → remove_from_blocks s e pc bs ≡ some r
    → Pairwise Final bs r.0
unfolding remove_from_blocks
blocks-Final s e pc [] r h = rw (sym (some_inj h)) tt
blocks-Final s e pc (b ∷ bs) r h =
    let tagged = tag_insts pc b.insts in
    let (q, eq, h1) = >>=-eq-some (erase_extra (ends_in_ret b.insts) s e tagged.0) _ h in
    let (rest, er, h2) = >>=-eq-some (remove_from_blocks s e tagged.1 bs) _ h1 in
    rw (sym (some_inj h2)) (block-Final s e pc b q eq, blocks-Final s e tagged.1 bs rest er)

-- Where the pass succeeds, each block that is left by a return stores the same value to PC last as
-- before, and no constant before it; any other block stores no constant to PC.
pub remove_extra-Final :
    (f : Function) (r : Function × Bool)
    → remove_extra_store_to_pc f ≡ some r
    → Pairwise Final f.blocks r.0.blocks
unfolding remove_extra_store_to_pc
remove_extra-Final f r h =
    let (s, es, h1) = >>=-eq-some (get_pc_start_of_func f) _ h in
    let (e, ee, h2) = >>=-eq-some (get_pc_end_of_func f) _ h1 in
    let (q, eq, h3) = >>=-eq-some (remove_from_blocks s e s f.blocks) _ h2 in
    rw (sym (some_inj h3)) (blocks-Final s e s f.blocks q eq)
