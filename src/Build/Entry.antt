-- ===== src/Build/Entry.antt =====
-- postprocess/translator/MarkFuncEntry.cpp: the blocks that some direct call targets are the entries
-- of functions.
use bin2llvm.Base.{
  ℕ, zero, suc, Bool, true, false, ◌||◌, ◌&&◌, List, [], ◌∷◌, Option, none, some, if◌then◌else◌,
  ◌≡◌, refl, ap, arith, inl, inr, ◌==◌, Bool-cases, Option-cases, get_elem?, List-cases, subst,
}
use bin2llvm.Base.Map.{NatMap, find, insert, has, has-insert}
use bin2llvm.Base.Abort.{◌>>=◌, >>=-eq-some}
use bin2llvm.Ir.{ins_direct_call, Inst, Block, Function, Module}
use bin2llvm.Ir.Meta.{get_hex_metadata_from_ins, get_pc_start_of_func, entry_block}
use bin2llvm.Ir.Pc.{contains, any}

-- The translated blocks: std::strstr(name, "void-tcg-llvm-tb").
abbrev pub is_block : Function → Bool
is_block f = contains f.name "void-tcg-llvm-tb"

-- directCallTargets[target] = true for the calls of one block.
pub block_targets : NatMap Bool → List Inst → NatMap Bool
block_targets m [] = m
block_targets m (i ∷ is) =
    block_targets
      (elim (get_hex_metadata_from_ins i ins_direct_call) [ none ↦ m | some t ↦ insert t true m ])
      is

-- The first loop; assert(funci->size()).
pub direct_call_targets : NatMap Bool → Module → Option (NatMap Bool)
unfolding block_targets
direct_call_targets m [] = some m
direct_call_targets m (f ∷ fs) =
    if is_block f
    then (do b ← entry_block f.blocks; direct_call_targets (block_targets m b.insts) fs)
    else direct_call_targets m fs

pub rename_front : List Block → List Block
rename_front [] = []
rename_front (b ∷ bs) = record b { name = "func_entry_point" } ∷ bs

-- The second loop, and whether a block was marked.
pub mark_entry : NatMap Bool → Function → Option (Function × Bool)
unfolding rename_front
mark_entry m f =
    if is_block f
    then (do
      b ← entry_block f.blocks
      pc_start ← get_pc_start_of_func f
      some (
          if has pc_start m
          then (record f { blocks = rename_front f.blocks }, true)
          else (f, false)))
    else some (f, false)

pub mark_entries : NatMap Bool → Module → Option (Module × Bool)
unfolding mark_entry
mark_entries m [] = some ([], false)
mark_entries m (f ∷ fs) = do
  r ← mark_entry m f
  rs ← mark_entries m fs
  some (r.0 ∷ rs.0, r.1 || rs.1)

unfoldable pub mark_func_entry : Module → Option (Module × Bool)
unfolding direct_call_targets mark_entries
mark_func_entry fs = do m ← direct_call_targets [] fs; mark_entries m fs

-- The instruction calls the address t directly.
abbrev pub is_call_to : ℕ → Inst → Bool
is_call_to t i = elim (get_hex_metadata_from_ins i ins_direct_call) [
  | none ↦ false
  | some u ↦ u == t
]

abbrev pub front_insts : List Block → List Inst
front_insts [] = []
front_insts (b ∷ bs) = b.insts

-- Some translated block calls the address t directly from its first basic block.
abbrev pub front_calls_directly : ℕ → Module → Bool
front_calls_directly t [] = false
front_calls_directly t (f ∷ fs) =
    (is_block f && any (is_call_to t) (front_insts f.blocks)) || front_calls_directly t fs

has-block_targets :
    (m : NatMap Bool) (is : List Inst) (t : ℕ)
    → has t (block_targets m is) ≡ (any (is_call_to t) is || has t m)
unfolding block_targets any
has-block_targets m [] t = refl
has-block_targets m (i ∷ is) t = elim (Option-cases (get_hex_metadata_from_ins i ins_direct_call)) [
  | inl e ↦ ground (arith, has-block_targets m is t)
  | inr (u, e) ↦ (ground (arith, has-block_targets (insert u true m) is t, has-insert u t true m))
]

has-direct_call_targets :
    (fs : Module) (m k : NatMap Bool) (t : ℕ)
    → direct_call_targets m fs ≡ some k
    → has t k ≡ (front_calls_directly t fs || has t m)
unfolding direct_call_targets entry_block
has-direct_call_targets [] m k t h = let e : m ≡ k = ground arith in rw (← e)
has-direct_call_targets (f ∷ fs) m k t h = elim (Bool-cases (is_block f)) [
  | inr miss ↦ rw miss (has-direct_call_targets fs m k t (rw miss at h))
  | inl hit ↦ elim (List-cases f.blocks) [
    | inl e ↦ absurd (ground arith)
    | inr (b, bs, e) ↦
        let rest : direct_call_targets (block_targets m b.insts) fs ≡ some k = ground arith in
        rw (hit, e)
          (ground (
            arith,
            has-direct_call_targets fs (block_targets m b.insts) k t rest,
            has-block_targets m b.insts t,
          ))
  ]
]

-- The function with its first block named func_entry_point.
abbrev pub as_entry : Function → Function
as_entry f = record f { blocks = rename_front f.blocks }

mark_entry-block :
    (m : NatMap Bool) (f : Function) (r : Function × Bool) (pc : ℕ)
    → is_block f ≡ true
    → get_pc_start_of_func f ≡ some pc
    → mark_entry m f ≡ some r
    → r.0 ≡ (if has pc m then as_entry f else f)
unfolding mark_entry
mark_entry-block m f r pc b p h = ground arith

get_elem-mark_entries :
    (m : NatMap Bool) (fs : Module) (r : Module × Bool) (n : ℕ) (f : Function) (pc : ℕ)
    → mark_entries m fs ≡ some r
    → get_elem? fs n ≡ some f
    → is_block f ≡ true
    → get_pc_start_of_func f ≡ some pc
    → get_elem? r.0 n ≡ some (if has pc m then as_entry f else f)
unfolding mark_entries
get_elem-mark_entries m [] r n f pc h g b p = absurd (cc)
get_elem-mark_entries m (x ∷ fs) r n f pc h g b p =
    let (q, eq, h1) = >>=-eq-some (mark_entry m x) _ h in
    let (qs, eqs, h2) = >>=-eq-some (mark_entries m fs) _ h1 in
    let made : q.0 ∷ qs.0 ≡ r.0 = ground arith in
    rw (← made) (at_place n q qs (λ k. get_elem-mark_entries m fs qs k f pc eqs) eq g)
  where
    at_place :
        (k : ℕ) (q : Function × Bool) (qs : Module × Bool)
        → ((j : ℕ)
            → get_elem? fs j ≡ some f
            → is_block f ≡ true
            → get_pc_start_of_func f ≡ some pc
            → get_elem? qs.0 j ≡ some (if has pc m then as_entry f else f))
        → mark_entry m x ≡ some q
        → get_elem? (x ∷ fs) k ≡ some f
        → get_elem? (q.0 ∷ qs.0) k ≡ some (if has pc m then as_entry f else f)
    at_place zero q qs rest eq g =
        let same : x ≡ f = ground arith in
        ap some (mark_entry-block m f q pc b p (subst (λ y. mark_entry m y ≡ some q) same eq))
    at_place (suc k) q qs rest eq g = rest k g b p

-- Where the pass succeeds, it names the first basic block of a translated block func_entry_point if a
-- direct call of its start is marked in the first basic block of some translated block of the module,
-- and leaves it alone otherwise. Marks in later basic blocks do not count.
pub mark_func_entry_exact :
    (fs gs : Module) (m : Bool) (n : ℕ) (f : Function) (pc : ℕ)
    → mark_func_entry fs ≡ some (gs, m)
    → get_elem? fs n ≡ some f
    → is_block f ≡ true
    → get_pc_start_of_func f ≡ some pc
    → get_elem? gs n ≡ some (if front_calls_directly pc fs then as_entry f else f)
unfolding mark_func_entry has find
mark_func_entry_exact fs gs m n f pc h g b p =
    let (k, ek, h1) = >>=-eq-some (direct_call_targets [] fs) _ h in
    let known = has-direct_call_targets fs [] k pc ek in
    let out = get_elem-mark_entries k fs (gs, m) n f pc h1 g b p in ground (arith, known, out)
