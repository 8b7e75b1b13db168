-- ===== src/Linker/Unique.antt =====
-- Each start address is gathered once.
use bin2llvm.Base.{
  ℕ, ◌+◌, Bool, true, false, ◌&&◌, ◌||◌, List, [], ◌∷◌, ◌++◌, Option, none, some, if◌then◌else◌,
  ◌≡◌, refl, ◌∙◌, sym, arith, inl, inr, Bool-cases, Option-cases, ◌==◌,
}
use bin2llvm.Base.Map.{has, find, has-insert}
use bin2llvm.Base.Abort.{>>=-eq-some}
use bin2llvm.Ir.{bb_pc_start, Inst, Block, Function, Module}
use bin2llvm.Ir.Meta.{
  has_metadata, get_hex_metadata_from_ins, get_hex_metadata_from_func, get_pc_start_of_func,
  entry_block, front_inst, get_hex_of_has, has_of_get_hex,
}
use bin2llvm.Linker.{
  Gathered, no_funcs, is_linked, gather_at, gather_named, gather_func, gather_funcs_from_module,
  gather_funcs,
}

-- The function is a translated block that starts at the address.
abbrev pub starts : ℕ → Function → Bool
starts pc f = is_linked f && (elim (get_pc_start_of_func f) [ none ↦ false | some p ↦ p == pc ])

-- Some function of a module, and of a loaded file, does.
abbrev pub module_starts : ℕ → Module → Bool
module_starts pc [] = false
module_starts pc (f ∷ fs) = starts pc f || module_starts pc fs

abbrev pub file_starts : ℕ → List (Option Module) → Bool
file_starts pc [] = false
file_starts pc (none ∷ ms) = file_starts pc ms
file_starts pc (some m ∷ ms) = module_starts pc m || file_starts pc ms

-- How many functions of a list do.
abbrev pub count_starts : ℕ → List Function → ℕ
count_starts pc [] = 0
count_starts pc (f ∷ fs) = (if starts pc f then 1 else 0) + count_starts pc fs

count_starts-append :
    (pc : ℕ) (fs gs : List Function)
    → count_starts pc (fs ++ gs) ≡ count_starts pc fs + count_starts pc gs
count_starts-append pc [] gs = omega arith
count_starts-append pc (f ∷ fs) gs = omega (arith, count_starts-append pc fs gs)

-- The list has as many functions for the address as the map has.
abbrev IsOnce : ℕ → Gathered → Type 0
IsOnce pc g = count_starts pc g.funcs_list ≡ (if has pc g.funcs_map then 1 else 0)

-- What is gathered in addition: the address is known if it was before, or is `new`.
record Adds (pc : ℕ) (new : Bool) (g h : Gathered) : Type 0 where
  known : has pc h.funcs_map ≡ (new || has pc g.funcs_map)
  once : IsOnce pc g → IsOnce pc h

Adds-trans :
    (pc : ℕ) (a b : Bool) (g h k : Gathered) → Adds pc a g h → Adds pc b h k → Adds pc (a || b) g k
Adds-trans pc a b g h k p q = record {
  known = ground (arith, p.known, q.known);
  once = λ o. q.once (p.once o);
}

Adds-none : (pc : ℕ) (g : Gathered) → Adds pc false g g
Adds-none pc g = record { known = refl; once = λ o. o }

gather_at-Adds :
    (pc p : ℕ) (f : Function) (g : Gathered)
    → is_linked f ≡ true
    → get_pc_start_of_func f ≡ some p
    → Adds pc (starts pc f) g (gather_at g p f)
unfolding gather_at
gather_at-Adds pc p f g l e = elim (Bool-cases (has p g.funcs_map)) [
  | inl old ↦ record { known = ground arith; once = λ o. ground arith }
  | inr new ↦ record {
    known = ground (arith, has-insert p pc f g.funcs_map);
    once = λ o.
        ground (arith, has-insert p pc f g.funcs_map, count_starts-append pc g.funcs_list (f ∷ []));
  }
]

Adds-skip : (pc : ℕ) (new : Bool) (g h : Gathered) → new ≡ false → g ≡ h → Adds pc new g h
Adds-skip pc new g h s e = rw (s, ← e) (Adds-none pc g)

pc_start-front :
    (f : Function) (bb : Block) (ins : Inst)
    → entry_block f.blocks ≡ some bb
    → front_inst bb.insts ≡ some ins
    → get_pc_start_of_func f ≡ get_hex_metadata_from_ins ins bb_pc_start
unfolding get_pc_start_of_func get_hex_metadata_from_func
pc_start-front f bb ins eb ei = rw eb (rw ei refl)

gather_named-Adds :
    (pc : ℕ) (f : Function) (g h : Gathered)
    → is_linked f ≡ true
    → gather_named g f ≡ some h
    → Adds pc (starts pc f) g h
unfolding gather_named
gather_named-Adds pc f g h l e =
    let (bb, eb, e1) = >>=-eq-some (entry_block f.blocks) _ e in
    let (ins, ei, e2) = >>=-eq-some (front_inst bb.insts) _ e1 in
    let same = pc_start-front f bb ins eb ei in
    elim (Option-cases (get_pc_start_of_func f)) [
      | inr (p, ep) ↦
          let marked = has_of_get_hex ins bb_pc_start p (sym same ∙ ep) in
          let out : gather_at g p f ≡ h = ground arith in rw (← out) (gather_at-Adds pc p f g l ep)
      | inl ep ↦ elim (Bool-cases (has_metadata ins bb_pc_start)) [
        | inl marked ↦ let (v, ev) = get_hex_of_has ins bb_pc_start marked in absurd (cc)
        | inr bare ↦ Adds-skip pc (starts pc f) g h (ground arith) (ground arith)
      ]
    ]

gather_func-Adds :
    (pc : ℕ) (f : Function) (g h : Gathered) → gather_func g f ≡ some h → Adds pc (starts pc f) g h
unfolding gather_func
gather_func-Adds pc f g h e = elim (Bool-cases (is_linked f)) [
  | inl l ↦ gather_named-Adds pc f g h l (rw l at e)
  | inr n ↦ Adds-skip pc (starts pc f) g h (ground arith) (ground arith)
]

gather_module-Adds :
    (pc : ℕ) (fs : Module) (g h : Gathered)
    → gather_funcs_from_module g fs ≡ some h
    → Adds pc (module_starts pc fs) g h
unfolding gather_funcs_from_module
gather_module-Adds pc [] g h e = let same : g ≡ h = ground arith in rw (← same) (Adds-none pc g)
gather_module-Adds pc (f ∷ fs) g h e =
    let (k, ek, e1) = >>=-eq-some (gather_func g f) _ e in
    Adds-trans pc (starts pc f) (module_starts pc fs) g k h (gather_func-Adds pc f g k ek)
      (gather_module-Adds pc fs k h e1)

gather_funcs-Adds :
    (pc : ℕ) (ms : List (Option Module)) (g h : Gathered)
    → gather_funcs g ms ≡ some h
    → Adds pc (file_starts pc ms) g h
unfolding gather_funcs
gather_funcs-Adds pc [] g h e = let same : g ≡ h = ground arith in rw (← same) (Adds-none pc g)
gather_funcs-Adds pc (none ∷ ms) g h e = gather_funcs-Adds pc ms g h e
gather_funcs-Adds pc (some m ∷ ms) g h e =
    let (k, ek, e1) = >>=-eq-some (gather_funcs_from_module g m) _ e in
    Adds-trans pc (module_starts pc m) (file_starts pc ms) g k h (gather_module-Adds pc m g k ek)
      (gather_funcs-Adds pc ms k h e1)

-- The map knows the starts of the translated blocks of the module.
pub gather_module_known :
    (pc : ℕ) (m : Module) (g : Gathered)
    → gather_funcs_from_module no_funcs m ≡ some g
    → has pc g.funcs_map ≡ module_starts pc m
unfolding has find
gather_module_known pc m g e = let k = (gather_module-Adds pc m no_funcs g e).known in ground arith

-- From all files together, exactly one function is gathered for each address at which some
-- translated block of a loaded file starts, and none for any other address.
pub gather_funcs_unique :
    (ms : List (Option Module)) (g : Gathered) (pc : ℕ)
    → gather_funcs no_funcs ms ≡ some g
    → (count_starts pc g.funcs_list ≡ (if file_starts pc ms then 1 else 0))
      × (has pc g.funcs_map ≡ file_starts pc ms)
unfolding has find
gather_funcs_unique ms g pc e =
    let a = gather_funcs-Adds pc ms no_funcs g e in
    let o = a.once refl in let k = a.known in (ground arith, ground arith)
