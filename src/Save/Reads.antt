-- ===== src/Save/Reads.antt =====
-- The translator reads what is saved.
use bin2llvm.Base.{
  ℕ, ◌<◌, ◌^◌, false, List, [], ◌∷◌, none, some, String, str_eq, eq_iff, if◌then◌else◌, ◌≡◌, refl,
  ◌∙◌, ap, arith, All, Bool-cases, inl, inr,
}
use bin2llvm.Hex.{hex}
use bin2llvm.Ir.{Inst, Block, Function, Module, bb_pc_start, bb_pc_end}
use bin2llvm.Ir.Meta.{
  set_metadata, get_hex_metadata_from_ins, get_hex_metadata_from_func, get_pc_start_of_func,
  get_pc_end_of_func, entry_block, front_inst, get_hex-set_metadata,
}
use bin2llvm.Save.{
  TranslatedBb, annotate_inst, annotate_block, annotate_new_function, find_function, clone_into,
  save_block, save_blocks, create_and_save,
}

-- The code begins with an instruction.
abbrev pub Begins : List Block → Type 0
Begins bs =
    (b : Block) × (i : Inst) × (rest : List Block) × (is : List Inst) × (bs ≡ b ∷ rest)
    × (b.insts ≡ i ∷ is)

-- The function has the bounds of the block.
abbrev pub Bounds : TranslatedBb → Function → Type 0
Bounds t f = (get_pc_start_of_func f ≡ some t.pc_start) × (get_pc_end_of_func f ≡ some t.pc_end)

abbrev pub Fits : TranslatedBb → Type 0
Fits t = (t.pc_start < 2 ^ 63) × (t.pc_end < 2 ^ 63)

annotate_inst-reads :
    (s e : ℕ) (i : Inst)
    → s < 2 ^ 63
    → e < 2 ^ 63
    → (get_hex_metadata_from_ins (annotate_inst s e i) bb_pc_start ≡ some s)
      × (get_hex_metadata_from_ins (annotate_inst s e i) bb_pc_end ≡ some e)
unfolding annotate_inst
annotate_inst-reads s e i hs he =
    let first = get_hex-set_metadata i bb_pc_start bb_pc_start s hs in
    let marked = set_metadata i bb_pc_start (hex s) in
    (
      get_hex-set_metadata marked bb_pc_end bb_pc_start e he ∙ first,
      get_hex-set_metadata marked bb_pc_end bb_pc_end e he,
    )

annotate-Bounds :
    (t : TranslatedBb) (f : Function)
    → Fits t
    → Begins f.blocks
    → Bounds t (annotate_new_function t.pc_start t.pc_end f)
unfolding annotate_new_function annotate_block get_pc_start_of_func get_pc_end_of_func
    get_hex_metadata_from_func entry_block front_inst
annotate-Bounds t f (hs, he) (b, i, rest, is, eb, ei) =
    let (s, e) = annotate_inst-reads t.pc_start t.pc_end i hs he in
    (rw (get_pc_start_of_func, eb, ei) s, rw (get_pc_end_of_func, eb, ei) e)

-- No two blocks have the same name.
abbrev pub Unnamed : String → List TranslatedBb → Type 0
Unnamed name ts = All (λ t. str_eq t.bb_function.name name ≡ false) ts

abbrev pub Distinct : List TranslatedBb → Type 0
Distinct [] = Unit
Distinct (t ∷ ts) = Unnamed t.bb_function.name ts × Distinct ts

str_eq-false : (s t : String) → str_eq s t ≡ false → str_eq t s ≡ false
str_eq-false s t e = ground (arith, eq_iff s t, eq_iff t s)

module _ (clone : Function → List Block) where
  find-save_self :
      (t : TranslatedBb) (m : Module)
      → find_function t.bb_function.name m ≡ none
      → find_function t.bb_function.name (save_block clone t m)
        ≡ some (clone_into clone t (record { name = t.bb_function.name; blocks = [] }))
  unfolding find_function save_block clone_into annotate_new_function
  find-save_self t [] e = ground (arith, eq_iff t.bb_function.name t.bb_function.name)
  find-save_self t (f ∷ m) e = elim (Bool-cases (str_eq f.name t.bb_function.name)) [
    | inl y ↦ cc (rw y at e)
    | inr n ↦ rw (n, save_block) (rw (find_function, n) (find-save_self t m (rw n at e)))
  ]

  find-save_other :
      (n : String) (t : TranslatedBb) (m : Module)
      → str_eq t.bb_function.name n ≡ false
      → find_function n (save_block clone t m) ≡ find_function n m
  unfolding find_function save_block clone_into annotate_new_function
  find-save_other n t [] e = rw e refl
  find-save_other n t (f ∷ m) e = elim (Bool-cases (str_eq f.name t.bb_function.name)) [
    | inl y ↦
        let same : f.name ≡ t.bb_function.name = (eq_iff f.name t.bb_function.name).0 y in
        let other : str_eq f.name n ≡ false = ap (λ g. str_eq g n) same ∙ e in
        rw (y, find_function) (rw other refl)
    | inr o ↦ rw o (ap (λ r. if str_eq f.name n then some f else r) (find-save_other n t m e))
  ]

  find-saves :
      (n : String) (ts : List TranslatedBb) (m : Module)
      → Unnamed n ts
      → find_function n (save_blocks clone ts m) ≡ find_function n m
  unfolding save_blocks
  find-saves n [] m h = refl
  find-saves n (t ∷ ts) m (h, hs) =
      find-saves n ts (save_block clone t m) hs ∙ find-save_other n t m h

  absent-save :
      (t : TranslatedBb) (m : Module) (ts : List TranslatedBb)
      → Unnamed t.bb_function.name ts
      → All (λ u. find_function u.bb_function.name m ≡ none) ts
      → All (λ u. find_function u.bb_function.name (save_block clone t m) ≡ none) ts
  absent-save t m [] h a = tt
  absent-save t m (u ∷ ts) (h, hs) (a, rest) = (
    find-save_other u.bb_function.name t m (str_eq-false u.bb_function.name t.bb_function.name h)
        ∙ a,
    absent-save t m ts hs rest,
  )

  -- Each block is in the module under its name, with its bounds.
  abbrev pub Saved : Module → TranslatedBb → Type 0
  Saved m t = (f : Function) × (find_function t.bb_function.name m ≡ some f) × Bounds t f

  abbrev pub Good : TranslatedBb → Type 0
  Good t = Fits t × Begins (clone t.bb_function)

  saves-Saved :
      (ts : List TranslatedBb) (m : Module)
      → Distinct ts
      → All Good ts
      → All (λ t. find_function t.bb_function.name m ≡ none) ts
      → All (Saved (save_blocks clone ts m)) ts
  unfolding save_blocks clone_into
  saves-Saved [] m d g a = tt
  saves-Saved (t ∷ ts) m (u, d) ((fits, begins), gs) (a, rest) =
      let none_yet : Function = record { name = t.bb_function.name; blocks = [] } in
      let cloned : Function = record none_yet { blocks = clone t.bb_function } in
      (
        (
          annotate_new_function t.pc_start t.pc_end cloned,
          find-saves t.bb_function.name ts (save_block clone t m) u ∙ find-save_self t m a,
          annotate-Bounds t cloned fits begins,
        ),
        saves-Saved ts (save_block clone t m) d gs (absent-save t m ts u rest),
      )

  none-nil : (ts : List TranslatedBb) → All (λ u. find_function u.bb_function.name [] ≡ none) ts
  unfolding find_function
  none-nil [] = tt
  none-nil (t ∷ ts) = (refl, none-nil ts)

  -- If no two blocks share a name, each clone begins with an instruction and the addresses are below
  -- 2^63, then the module has each block under its name, and the translator reads its start and its
  -- end there.
  pub create_and_save-Saved :
      (ts : List TranslatedBb)
      → Distinct ts
      → All Good ts
      → All (Saved (create_and_save clone ts)) ts
  unfolding create_and_save
  create_and_save-Saved ts d g = saves-Saved ts [] d g (none-nil ts)
