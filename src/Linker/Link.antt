-- ===== src/Linker/Link.antt =====
-- linkFuncs and main of postprocess/linker/main.cpp: a store to PC that is a direct call becomes a call
-- of the function at its target. cloneFuncs builds the new module with CloneFunctionInto of LLVM: it is
-- an argument, from the functions to the module.
use bin2llvm.Base.{
  ℕ, Bool, true, false, List, [], ◌∷◌, Option, none, some, map, if◌then◌else◌, ◌≡◌, refl, ◌∙◌, sym,
  ap, subst, Option-cases, inl, inr, All,
}
use bin2llvm.Base.Map.{NatMap, find, has}
use bin2llvm.Base.Abort.{◌>>=◌, >>=-eq-some, some_inj}
use bin2llvm.Ir.{ins_direct_call, Op, store, call, Inst, Block, Function, Module}
use bin2llvm.Ir.Meta.{get_hex_metadata_from_ins}
use bin2llvm.Linker.{Gathered, no_funcs, gather_funcs_from_module, gather_funcs}
use bin2llvm.Linker.Unique.{module_starts, gather_module_known}

abbrev pub is_store : Op → Bool
is_store (store v p) = true
is_store _ = false

-- targetPC of a store that is marked as a direct call.
unfoldable pub direct_call_target : Inst → Option ℕ
direct_call_target i = if is_store i.op then get_hex_metadata_from_ins i ins_direct_call else none

-- ReplaceInstWithInst by a call without arguments, if the target is known.
unfoldable pub link_inst : NatMap Function → Inst → Inst
unfolding direct_call_target
link_inst funcs_map i = elim (direct_call_target i) [
  | none ↦ i
  | some target_pc ↦ elim (find target_pc funcs_map) [
    | none ↦ i
    | some f ↦ record { id = i.id; op = call f.name []; meta = [] }
  ]
]

abbrev pub link_block : NatMap Function → Block → Block
link_block funcs_map b = record b { insts = map (link_inst funcs_map) b.insts }

abbrev pub link_func : NatMap Function → Function → Function
link_func funcs_map f = record f { blocks = map (link_block funcs_map) f.blocks }

-- The functions of the list, linked.
unfoldable pub link_funcs : Gathered → List Function
unfolding link_inst
link_funcs g = map (link_func g.funcs_map) g.funcs_list

module _ (clone_funcs : List Function → Module) where
  -- main, up to the writing of the module.
  unfoldable pub link_files : List (Option Module) → Option (List Function)
  unfolding gather_funcs link_funcs
  link_files files = do
    g ← gather_funcs no_funcs files
    h ← gather_funcs_from_module no_funcs (clone_funcs g.funcs_list)
    some (link_funcs h)

-- The instruction is no direct call of an address at which a translated block of the module starts.
unfoldable pub IsLinked : Module → Inst → Type 0
IsLinked m i = (pc : ℕ) → direct_call_target i ≡ some pc → module_starts pc m ≡ false

link_inst-unknown :
    (funcs_map : NatMap Function) (i : Inst) (pc : ℕ)
    → direct_call_target (link_inst funcs_map i) ≡ some pc
    → has pc funcs_map ≡ false
unfolding link_inst has direct_call_target
link_inst-unknown funcs_map i pc e = elim (Option-cases (direct_call_target i)) [
  | inl x ↦
      let same : link_inst funcs_map i ≡ i = rw (link_inst, x) refl in
      absurd (
        let nothing : direct_call_target (link_inst funcs_map i) ≡ none =
          ap direct_call_target same ∙ x in
        cc)
  | inr (p, x) ↦ elim (Option-cases (find p funcs_map)) [
    | inl y ↦
        let same : link_inst funcs_map i ≡ i = rw (link_inst, x, y) refl in
        let at : p ≡ pc = some_inj (sym x ∙ ap direct_call_target (sym same) ∙ e) in
        let unknown : has p funcs_map ≡ false = rw (has, y) refl in
        subst (λ q. has q funcs_map ≡ false) at unknown
    | inr (f, y) ↦
        let new : link_inst funcs_map i ≡ record { id = i.id; op = call f.name []; meta = [] } =
          rw (link_inst, x, y) refl in
        absurd (
          let nothing : direct_call_target (link_inst funcs_map i) ≡ none =
            ap direct_call_target new in
          cc)
  ]
]

insts-IsLinked :
    (m : Module) (g : Gathered) (is : List Inst)
    → gather_funcs_from_module no_funcs m ≡ some g
    → All (IsLinked m) (map (link_inst g.funcs_map) is)
unfolding IsLinked
insts-IsLinked m g [] e = tt
insts-IsLinked m g (i ∷ is) e = (
  (λ pc h. sym (gather_module_known pc m g e) ∙ link_inst-unknown g.funcs_map i pc h),
  insts-IsLinked m g is e,
)

blocks-IsLinked :
    (m : Module) (g : Gathered) (bs : List Block)
    → gather_funcs_from_module no_funcs m ≡ some g
    → All (λ (b : Block). All (IsLinked m) b.insts) (map (link_block g.funcs_map) bs)
blocks-IsLinked m g [] e = tt
blocks-IsLinked m g (b ∷ bs) e = (insts-IsLinked m g b.insts e, blocks-IsLinked m g bs e)

funcs-IsLinked :
    (m : Module) (g : Gathered) (fs : List Function)
    → gather_funcs_from_module no_funcs m ≡ some g
    → All
        (λ (f : Function). All (λ (b : Block). All (IsLinked m) b.insts) f.blocks)
        (map (link_func g.funcs_map) fs)
funcs-IsLinked m g [] e = tt
funcs-IsLinked m g (f ∷ fs) e = (blocks-IsLinked m g f.blocks e, funcs-IsLinked m g fs e)

-- When all files are linked, no function of the result has a store left that is a direct call of an
-- address at which a translated block of the new module starts.
pub link_files-IsLinked :
    (clone_funcs : List Function → Module) (files : List (Option Module)) (g : Gathered)
    (fs : List Function)
    → gather_funcs no_funcs files ≡ some g
    → link_files clone_funcs files ≡ some fs
    → All
        (λ (f : Function).
          All (λ (b : Block). All (IsLinked (clone_funcs g.funcs_list)) b.insts) f.blocks)
        fs
unfolding link_files link_funcs
link_files-IsLinked clone_funcs files g fs eg e =
    let (g', eg', e1) = >>=-eq-some (gather_funcs no_funcs files) _ e in
    let (h, eh, e2) =
      >>=-eq-some (gather_funcs_from_module no_funcs (clone_funcs g'.funcs_list)) _ e1 in
    let same : g' ≡ g = some_inj (sym eg' ∙ eg) in
    subst
      (λ (x : Gathered).
        All
          (λ (f : Function).
            All (λ (b : Block). All (IsLinked (clone_funcs x.funcs_list)) b.insts) f.blocks)
          fs)
      same (rw (sym (some_inj e2)) (funcs-IsLinked (clone_funcs g'.funcs_list) h h.funcs_list eh))
