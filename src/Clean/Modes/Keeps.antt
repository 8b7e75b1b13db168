-- ===== src/Clean/Modes/Keeps.antt =====
-- What the pass leaves alone, and which addresses have a mode behind it.
use bin2llvm.Base.{
  ℕ, ◌%◌, Bool, true, false, List, [], ◌∷◌, Option, none, some, String, str_eq, if◌then◌else◌, ◌==◌,
  eq_iff, ◌≡◌, refl, ◌∙◌, sym, ap, subst, arith, Bool-cases, Option-cases, inl, inr, All,
}
use bin2llvm.Base.Map.{find, insert}
use bin2llvm.Base.Abort.{>>=-eq-some, some_inj}
use bin2llvm.Ir.{Op, store, global_var, Value, Inst, Block, Function}
use bin2llvm.Ir.Meta.{set_metadata}
use bin2llvm.Ir.Pc.{stored_in}
use bin2llvm.Clean.{last_stored, or_else, or_else-none, or_else-cases, leaves}
use bin2llvm.Clean.ExtraPc.{pc_const}
use bin2llvm.Clean.Modes.{
  InstructionSet, unknown, InstructionSets, mask, get_instruction_set, Pair, pair_of, record_mode,
  Merged, merge_pair, keep, merge_from, merge_block, merge_blocks, merge_pc_thumb, thumb_const,
  both,
}

-- Every address that has a mode is even.
abbrev pub IsEven : InstructionSets → Type 0
IsEven sets = All (λ e. e.0 % 2 ≡ 0) sets

insert-IsEven :
    (k : ℕ) (s : InstructionSet) (sets : InstructionSets)
    → k % 2 ≡ 0
    → IsEven sets
    → IsEven (insert k s sets)
unfolding insert
insert-IsEven k s [] h e = (h, tt)
insert-IsEven k s ((j, t) ∷ sets) h e = elim (Bool-cases (j == k)) [
  | inl y ↦ rw y (h, e.1)
  | inr n ↦ rw n (e.0, insert-IsEven k s sets h e.1)
]

mask_even : (pc : ℕ) → mask pc % 2 ≡ 0
mask_even pc = omega arith

record_mode-IsEven : (p : Pair) (sets : InstructionSets) → IsEven sets → IsEven (record_mode p sets)
unfolding record_mode
record_mode-IsEven p sets h = insert-IsEven (mask p.pc) _ sets (mask_even p.pc) h

find_odd : (pc : ℕ) (sets : InstructionSets) → IsEven sets → pc % 2 ≡ 1 → find pc sets ≡ none
unfolding find
find_odd pc [] h o = refl
find_odd pc ((j, t) ∷ sets) h o = ground (arith, find_odd pc sets h.1 o, h.0)

-- What one round keeps: the stores to g, with one that is erased as good as none.
record Round (g : String) (i n : Inst) (m : Merged) : Type 0 where
  inst : stored_in g m.inst.op ≡ stored_in g i.op
  next : stored_in g m.next.op ≡ stored_in g n.op
  gone_inst : m.erase_inst ≡ true → stored_in g i.op ≡ none
  gone_next : m.erase_next ≡ true → stored_in g n.op ≡ none

other_global :
    (g : String) (op : Op) (v : Value)
    → str_eq "thumb" g ≡ false
    → stored_in "thumb" op ≡ some v
    → stored_in g op ≡ none
other_global g (store w (global_var x)) v h e = elim (Bool-cases (str_eq x "thumb")) [
  | inr n ↦
      absurd (let nothing : stored_in "thumb" (store w (global_var x)) ≡ none = rw n refl in cc)
  | inl y ↦ rw ((eq_iff x "thumb").0 y, h) refl
]
other_global g _ v h e = ground arith

not_thumb :
    (g : String) (i : Inst) (t : ℕ)
    → str_eq "thumb" g ≡ false
    → thumb_const i ≡ some t
    → stored_in g i.op ≡ none
unfolding thumb_const
not_thumb g i t h e =
    let (v, ev, e1) = >>=-eq-some (stored_in "thumb" i.op) _ e in other_global g i.op v h ev

both-some :
    (x : Bool) (o q : Option ℕ) (p : Pair)
    → both x o q ≡ some p
    → (p.pc_first ≡ x) × (t : ℕ) × (q ≡ some t)
both-some x (some pc) (some t) p e = (rw (sym (some_inj e)) refl, t, refl)
both-some x none q p e = cc
both-some x (some pc) none p e = cc

-- The store that a pair erases is to thumb.
pair_thumb :
    (i n : Inst) (p : Pair)
    → pair_of i n ≡ some p
    → (t : ℕ) × (thumb_const (if p.pc_first then n else i) ≡ some t)
unfolding pair_of
pair_thumb i n p h = elim (or_else-cases (both true (pc_const i) (thumb_const n)) _ p h) [
  | inl e ↦ let (first, t, et) = both-some true (pc_const i) (thumb_const n) p e in (t, rw first et)
  | inr e ↦
      let (first, t, et) = both-some false (pc_const n) (thumb_const i) p e in (t, rw first et)
]

merge_pair-Round :
    (g : String) (sets : InstructionSets) (i n : Inst)
    → str_eq "thumb" g ≡ false
    → Round g i n (merge_pair sets i n)
unfolding merge_pair set_metadata
merge_pair-Round g sets i n h = elim (Option-cases (pair_of i n)) [
  | inl e ↦
      rw (merge_pair, e)
        (record {
          inst = refl;
          next = refl;
          gone_inst = λ x. absurd (cc);
          gone_next = λ x. absurd (cc);
        })
  | inr (p, e) ↦ elim (Bool-cases p.pc_first) [
    | inl y ↦
        let (t, et) = pair_thumb i n p e in
        let erased : thumb_const n ≡ some t =
          subst (λ x. thumb_const (if x then n else i) ≡ some t) y et in
        rw (merge_pair, e, y)
          (record {
            inst = refl;
            next = refl;
            gone_inst = λ x. absurd (cc);
            gone_next = λ x. not_thumb g n t h erased;
          })
    | inr y ↦
        let (t, et) = pair_thumb i n p e in
        let erased : thumb_const i ≡ some t =
          subst (λ x. thumb_const (if x then n else i) ≡ some t) y et in
        rw (merge_pair, e, y)
          (record {
            inst = refl;
            next = refl;
            gone_inst = λ x. not_thumb g i t h erased;
            gone_next = λ x. absurd (cc);
          })
  ]
]

keep_lem :
    (g : String) (a b : Bool) (i : Inst) (is k : List Inst)
    → keep a b i is ≡ some k
    → (a ≡ true → stored_in g i.op ≡ none)
    → (b ≡ true → stored_in g i.op ≡ none)
    → last_stored g k ≡ last_stored g (i ∷ is)
keep_lem g true true i is k e x y = cc
keep_lem g true false i is k e x y =
    rw (sym (some_inj e), x refl) (sym (or_else-none (last_stored g is)))
keep_lem g false true i is k e x y =
    rw (sym (some_inj e), y refl) (sym (or_else-none (last_stored g is)))
keep_lem g false false i is k e x y = rw (sym (some_inj e)) refl

merge_pair-IsEven :
    (sets : InstructionSets) (i n : Inst) → IsEven sets → IsEven (merge_pair sets i n).sets
unfolding merge_pair
merge_pair-IsEven sets i n h = elim (Option-cases (pair_of i n)) [
  | inl e ↦ rw (merge_pair, e) h
  | inr (p, e) ↦ elim (Bool-cases p.pc_first) [
    | inl y ↦ rw (merge_pair, e, y) (record_mode-IsEven p sets h)
    | inr y ↦ rw (merge_pair, e, y) (record_mode-IsEven p sets h)
  ]
]

-- What is kept of a list of instructions and of the map.
record Kept (g : String) (is : List Inst) (r : List Inst × InstructionSets) : Type 0 where
  same : last_stored g r.0 ≡ last_stored g is
  even : IsEven r.1

merge_from-Kept :
    (g : String) (sets : InstructionSets) (x : Bool) (i : Inst) (is : List Inst)
    (r : List Inst × InstructionSets)
    → str_eq "thumb" g ≡ false
    → IsEven sets
    → (x ≡ true → stored_in g i.op ≡ none)
    → merge_from sets x i is ≡ some r
    → Kept g (i ∷ is) r
unfolding merge_from
merge_from-Kept g sets x i [] r h v gone e =
    let (k, ek, e1) = >>=-eq-some (keep x false i []) _ e in
    rw (sym (some_inj e1))
      (record { same = keep_lem g x false i [] k ek gone (λ y. absurd (cc)); even = v })
merge_from-Kept g sets x i (n ∷ is) r h v gone e =
    let m = merge_pair sets i n in
    let round = merge_pair-Round g sets i n h in
    let (rest, er, e1) = >>=-eq-some (merge_from m.sets m.erase_next m.next is) _ e in
    let (k, ek, e2) = >>=-eq-some (keep x m.erase_inst m.inst rest.0) _ e1 in
    let deeper =
      merge_from-Kept g m.sets m.erase_next m.next is rest h (merge_pair-IsEven sets i n v)
        (λ y. round.next ∙ round.gone_next y) er in
    let kept =
      keep_lem g x m.erase_inst m.inst rest.0 k ek (λ y. round.inst ∙ gone y)
        (λ y. round.inst ∙ round.gone_inst y) in
    let whole : last_stored g k ≡ last_stored g (i ∷ n ∷ is) =
      kept
      ∙ ap (λ o. or_else o (stored_in g m.inst.op)) deeper.same
      ∙ ap (λ o. or_else (or_else (last_stored g is) o) (stored_in g m.inst.op)) round.next
      ∙ ap (or_else (last_stored g (n ∷ is))) round.inst in
    rw (sym (some_inj e2)) (record { same = whole; even = deeper.even })

merge_block-Kept :
    (g : String) (sets : InstructionSets) (is : List Inst) (r : List Inst × InstructionSets)
    → str_eq "thumb" g ≡ false
    → IsEven sets
    → merge_block sets is ≡ some r
    → Kept g is r
unfolding merge_block
merge_block-Kept g sets [] r h v e = rw (sym (some_inj e)) (record { same = refl; even = v })
merge_block-Kept g sets (i ∷ is) r h v e =
    merge_from-Kept g sets false i is r h v (λ x. absurd (cc)) e

merge_blocks-Kept :
    (g : String) (sets : InstructionSets) (bs : List Block) (r : List Block × InstructionSets)
    → str_eq "thumb" g ≡ false
    → IsEven sets
    → merge_blocks sets bs ≡ some r
    → (leaves g r.0 ≡ leaves g bs) × IsEven r.1
unfolding merge_blocks
merge_blocks-Kept g sets [] r h v e = rw (sym (some_inj e)) (refl, v)
merge_blocks-Kept g sets (b ∷ bs) r h v e =
    let (q, eq, e1) = >>=-eq-some (merge_block sets b.insts) _ e in
    let (rest, er, e2) = >>=-eq-some (merge_blocks q.1 bs) _ e1 in
    let first = merge_block-Kept g sets b.insts q h v eq in
    let (same, even) = merge_blocks-Kept g q.1 bs rest h first.even er in
    rw (sym (some_inj e2)) (rw (first.same, same) refl, even)

get_odd :
    (pc : ℕ) (sets : InstructionSets)
    → IsEven sets
    → pc % 2 ≡ 1
    → get_instruction_set sets pc ≡ unknown
unfolding get_instruction_set
get_odd pc sets h o = rw (get_instruction_set, find_odd pc sets h o) refl

-- Each block of the result leaves every global but thumb with the same value as before, and an odd
-- address has no mode behind the pass, if no odd address has one before: a Thumb address must be asked
-- for without its lowest bit.
pub merge_pc_thumb-Kept :
    (g : String) (pc : ℕ) (sets : InstructionSets) (f : Function) (r : Function × InstructionSets)
    → str_eq "thumb" g ≡ false
    → pc % 2 ≡ 1
    → IsEven sets
    → merge_pc_thumb sets f ≡ some r
    → (leaves g r.0.blocks ≡ leaves g f.blocks) × (get_instruction_set r.1 pc ≡ unknown)
unfolding merge_pc_thumb
merge_pc_thumb-Kept g pc sets f r h o v e =
    let (q, eq, e1) = >>=-eq-some (merge_blocks sets f.blocks) _ e in
    let (same, even) = merge_blocks-Kept g sets f.blocks q h v eq in
    rw (sym (some_inj e1)) (same, get_odd pc q.1 even o)
