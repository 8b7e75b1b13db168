-- ===== src/Overlap/Exits.antt =====
-- A truncated function is one that BuildFunctions can go on with: the block that was cut ends in a fake
-- return, behind a store of the next start to PC.
use bin2llvm.Base.{
  ℕ, ◌%◌, ◌^◌, Bool, true, false, not, ◌&&◌, List, [], ◌∷◌, ◌++◌, some, String, ◌≡◌, ◌≢◌, refl, ◌∙◌,
  sym, ap, subst, arith, All, All-append-right, In, here, In-append-right,
}
use bin2llvm.Base.Abort.{some_inj}
use bin2llvm.Hex.{Text}
use bin2llvm.Ir.{Value, const_int, Inst, Block, Function}
use bin2llvm.Ir.Meta.{has_metadata, get_pc_start_of_func}
use bin2llvm.Ir.Pc.{any}
use bin2llvm.Build.Shape.{is_term, is_fake, is_empty, is_exit, ends_once, no_terms}
use bin2llvm.Clean.{last_stored}
use bin2llvm.Overlap.{link_store, link_return, truncate_func_and_link_with}
use bin2llvm.Overlap.Cut.{truncate-Cut}

-- A fake return that is no terminator.
abbrev pub stray_fake : Inst → Bool
stray_fake i = is_fake i && not (is_term i.op)

-- A basic block: it ends in one terminator, and no other instruction is marked as a fake return.
pub record Plain (b : Block) : Type 0 where
  pub ends : ends_once b.insts ≡ true
  pub no_stray : any stray_fake b.insts ≡ false

not_empty :
    (before : List Inst) (at : Inst) (behind : List Inst) → is_empty (before ++ at ∷ behind) ≡ false
not_empty [] at behind = refl
not_empty (x ∷ before) at behind = refl

no_terms-front :
    (before : List Inst) (at : Inst) (behind : List Inst)
    → ends_once (before ++ at ∷ behind) ≡ true
    → behind ≢ []
    → no_terms (before ++ at ∷ []) ≡ true
no_terms-front [] at [] h k = absurd (k refl)
no_terms-front [] at (i ∷ is) h k = ground arith
no_terms-front (x ∷ before) at behind h k =
    let deeper : ends_once (before ++ at ∷ behind) ≡ true → no_terms (before ++ at ∷ []) ≡ true =
      λ e. no_terms-front before at behind e k in
    ground (arith, deeper, not_empty before at behind)

no_stray-front :
    (before : List Inst) (at : Inst) (behind : List Inst)
    → any stray_fake (before ++ at ∷ behind) ≡ false
    → any stray_fake (before ++ at ∷ []) ≡ false
unfolding any
no_stray-front [] at behind h = ground arith
no_stray-front (x ∷ before) at behind h = ground (arith, no_stray-front before at behind)

is_exit-link :
    (pc : ℕ) (is : List Inst)
    → no_terms is ≡ true
    → any stray_fake is ≡ false
    → is_exit (is ++ link_store pc ∷ link_return ∷ []) ≡ true
unfolding any has_metadata is_fake
is_exit-link pc [] h k = refl
is_exit-link pc (i ∷ is) h k = ground (arith, is_exit-link pc is)

last_stored-append :
    (g : String) (is js : List Inst) (v : Value)
    → last_stored g js ≡ some v
    → last_stored g (is ++ js) ≡ some v
last_stored-append g [] js v h = h
last_stored-append g (i ∷ is) js v h = rw (last_stored-append g is js v h) refl

-- Where the truncation of a function of plain blocks succeeds, one block of the result ends in a fake
-- return, its only terminator, and the last value that it stores to PC is the start of the other
-- function, in 32 bits.
pub truncate-is_exit :
    (to_string : Text → String) (a b c : Function) (pc : ℕ)
    → All Plain a.blocks
    → get_pc_start_of_func b ≡ some pc
    → truncate_func_and_link_with to_string a b ≡ some c
    → (o : Block) × In o c.blocks
      × (is_exit o.insts ≡ true)
      × (last_stored "PC" o.insts ≡ some (const_int (pc % 2 ^ 32)))
truncate-is_exit to_string a b c pc h s e =
    let (pc_a, pc_b, sa, sb, lt, cut) = truncate-Cut to_string a b c e in
    let same : pc_b ≡ pc = some_inj (sym sb ∙ s) in
    let f = cut.found in
    let plains = subst (λ x. All Plain x) cut.whole h in
    let plain = (All-append-right Plain cut.before (cut.overlap ∷ cut.behind) plains).0 in
    let ends = subst (λ x. ends_once x ≡ true) f.whole plain.ends in
    let no_stray = subst (λ x. any stray_fake x ≡ false) f.whole plain.no_stray in
    let front_terms : no_terms cut.front ≡ true =
      rw f.kept (no_terms-front f.before f.at f.behind ends f.inside) in
    let front_stray : any stray_fake cut.front ≡ false =
      rw f.kept (no_stray-front f.before f.at f.behind no_stray) in
    (
      record cut.overlap { insts = cut.front ++ link_store pc_b ∷ link_return ∷ [] },
      subst
          (λ x.
            In (record cut.overlap { insts = cut.front ++ link_store pc_b ∷ link_return ∷ [] }) x)
          (sym cut.result) (In-append-right _ cut.before _ (here refl)),
      is_exit-link pc_b cut.front front_terms front_stray,
      last_stored-append "PC" cut.front (link_store pc_b ∷ link_return ∷ [])
            (const_int (pc_b % 2 ^ 32)) refl
          ∙ ap (λ n. some (const_int (n % 2 ^ 32))) same,
    )
