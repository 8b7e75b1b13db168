-- ===== src/Disasm/Extract/Listed.antt =====
-- The addresses that the pass lists, told without its flags.
use mathlib.Core.List.{append_assoc, append-nil}
use bin2llvm.Base.{
  ℕ, List, [], ◌∷◌, ◌++◌, Option, none, some, if◌then◌else◌, ◌≡◌, refl, ◌∙◌, sym, ap, Bool-cases,
  inl, inr,
}
use bin2llvm.Base.Abort.{◌>>=◌}
use bin2llvm.Disasm.Extract.{
  EnvStore, EnvBlock, Extracted, is_store_to_pc, is_store_to_lr, last_store, last_const,
  last_store_lem, or_else, add_pc, add_lr, extract_block, extract_blocks, extract_targets,
}

abbrev pub to_list : Option ℕ → List ℕ
to_list none = []
to_list (some v) = v ∷ []

-- The last constant for PC and the last one for LR, of each returning block.
abbrev pub listed : List EnvBlock → List ℕ
listed [] = []
listed (b ∷ bs) =
    let rest = listed bs in
    if b.returns
    then to_list (last_const is_store_to_pc b.stores)
      ++ (to_list (last_const is_store_to_lr b.stores) ++ rest)
    else rest

-- The last constants for LR alone.
abbrev pub listed_lr : List EnvBlock → List ℕ
listed_lr [] = []
listed_lr (b ∷ bs) =
    let rest = listed_lr bs in
    if b.returns then to_list (last_const is_store_to_lr b.stores) ++ rest else rest

-- One constant for LR at most is the implicit target.
abbrev pub with_implicit : List ℕ → Option ℕ → List ℕ → Option Extracted
with_implicit targets o [] = some (record { target_pcs = targets; implicit = o })
with_implicit targets none (v ∷ []) = some (record { target_pcs = targets; implicit = some v })
with_implicit targets none (v ∷ w ∷ vs) = none
with_implicit targets (some u) (v ∷ vs) = none

or_else-none : (o : Option ℕ) → or_else o none ≡ o
or_else-none none = refl
or_else-none (some v) = refl

one_implicit :
    (v : ℕ) (ts lrs : List ℕ) → with_implicit ts (some v) lrs ≡ with_implicit ts none (v ∷ lrs)
one_implicit v ts [] = refl
one_implicit v ts (w ∷ ws) = refl

last_store-none :
    (reg : EnvStore → Option ℕ) (ss : List EnvStore) → last_store reg none ss ≡ last_const reg ss
last_store-none reg ss = last_store_lem reg none ss ∙ or_else-none (last_const reg ss)

-- One returning block before others.
after_block :
    (ts : List ℕ) (o p l : Option ℕ) (bs : List EnvBlock) (later lrs : List ℕ)
    → ((t : List ℕ) (i : Option ℕ)
        → extract_blocks (record { target_pcs = t; implicit = i }) bs
          ≡ with_implicit (t ++ later) i lrs)
    → (add_lr (add_pc (record { target_pcs = ts; implicit = o }) p) l >>= λ e. extract_blocks e bs)
      ≡ with_implicit (ts ++ (to_list p ++ (to_list l ++ later))) o (to_list l ++ lrs)
unfolding add_lr add_pc
after_block ts o none none bs later lrs ih = ih ts o
after_block ts o (some a) none bs later lrs ih =
    ih (ts ++ a ∷ []) o ∙ ap (λ t. with_implicit t o lrs) (append_assoc ts (a ∷ []) later)
after_block ts (some u) none (some v) bs later lrs ih = refl
after_block ts (some u) (some a) (some v) bs later lrs ih = refl
after_block ts none none (some v) bs later lrs ih =
    ih (ts ++ v ∷ []) (some v)
    ∙ ap (λ t. with_implicit t (some v) lrs) (append_assoc ts (v ∷ []) later)
    ∙ one_implicit v (ts ++ v ∷ later) lrs
after_block ts none (some a) (some v) bs later lrs ih =
    ih ((ts ++ a ∷ []) ++ v ∷ []) (some v)
    ∙ ap (λ t. with_implicit t (some v) lrs)
        (append_assoc (ts ++ a ∷ []) (v ∷ []) later ∙ append_assoc ts (a ∷ []) (v ∷ later))
    ∙ one_implicit v (ts ++ a ∷ v ∷ later) lrs

extract_blocks-listed :
    (bs : List EnvBlock) (ts : List ℕ) (o : Option ℕ)
    → extract_blocks (record { target_pcs = ts; implicit = o }) bs
      ≡ with_implicit (ts ++ listed bs) o (listed_lr bs)
unfolding extract_blocks extract_block
extract_blocks-listed [] ts o =
    ap (λ t. some (record { target_pcs = t; implicit = o })) (sym (append-nil ts))
extract_blocks-listed (b ∷ bs) ts o = elim (Bool-cases (b.returns)) [
  | inr n ↦ rw n (extract_blocks-listed bs ts o)
  | inl y ↦
      rw (y, last_store-none is_store_to_pc b.stores, last_store-none is_store_to_lr b.stores)
        (after_block ts o (last_const is_store_to_pc b.stores) (last_const is_store_to_lr b.stores)
          bs (listed bs) (listed_lr bs) (extract_blocks-listed bs))
]

-- The pass fails exactly where two returning blocks store a constant to LR. Otherwise it lists, block
-- after block, the last constants for PC and for LR, and the one for LR is the implicit target.
pub extract_targets-listed :
    (bs : List EnvBlock) → extract_targets bs ≡ with_implicit (listed bs) none (listed_lr bs)
unfolding extract_targets
extract_targets-listed bs = extract_blocks-listed bs [] none
