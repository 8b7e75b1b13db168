-- ===== src/Build/Shape.antt =====
-- The shape of a basic block: how it ends.
use bin2llvm.Base.{
  Bool, true, false, not, ◌&&◌, List, [], ◌∷◌, ◌++◌, filter, filter-append, if◌then◌else◌, ◌≡◌,
  refl, arith,
}
use bin2llvm.Ir.{ins_fake_return, Op, branch, switch, ret, Inst}
use bin2llvm.Ir.Meta.{has_metadata}

-- A terminator of LLVM.
abbrev pub is_term : Op → Bool
is_term (branch l) = true
is_term (switch v d cs) = true
is_term ret = true
is_term _ = false

-- The return that TransformBBToVoid and FixOverlappedBBs put at the end of a translated block.
unfoldable pub is_fake : Inst → Bool
is_fake i = has_metadata i ins_fake_return

abbrev pub no_terms : List Inst → Bool
no_terms [] = true
no_terms (i ∷ is) = not (is_term i.op) && no_terms is

abbrev pub is_empty {ℓ} : {A : Type ℓ} → List A → Bool
is_empty [] = true
is_empty (x ∷ xs) = false

-- A terminator stands at the end, and nowhere else.
abbrev pub ends_once : List Inst → Bool
ends_once [] = false
ends_once (i ∷ is) = if is_term i.op then is_empty is else ends_once is

-- The same, and that terminator is the fake return, the only instruction marked so.
abbrev pub is_exit : List Inst → Bool
is_exit [] = false
is_exit (i ∷ is) = if is_term i.op then is_fake i && is_empty is else not (is_fake i) && is_exit is

abbrev pub not_fake : Inst → Bool
not_fake i = not (is_fake i)

pub ends_once_of_exit : (is : List Inst) → is_exit is ≡ true → ends_once is ≡ true
ends_once_of_exit [] h = cc
ends_once_of_exit (i ∷ is) h = ground (arith, ends_once_of_exit is)

pub no_terms-filter_exit :
    (is : List Inst) → is_exit is ≡ true → no_terms (filter not_fake is) ≡ true
no_terms-filter_exit [] h = refl
no_terms-filter_exit (i ∷ []) h = ground arith
no_terms-filter_exit (i ∷ j ∷ is) h = ground (arith, no_terms-filter_exit (j ∷ is))

ends_once-append :
    (is : List Inst) (t : Inst)
    → no_terms is ≡ true
    → is_term t.op ≡ true
    → ends_once (is ++ t ∷ []) ≡ true
ends_once-append [] t h e = ground arith
ends_once-append (i ∷ is) t h e = ground (arith, ends_once-append is t)

-- The fake return of a block gives way to a new terminator.
pub ends_once-retarget :
    (is : List Inst) (t : Inst)
    → is_exit is ≡ true
    → is_term t.op ≡ true
    → is_fake t ≡ false
    → ends_once (filter not_fake (is ++ t ∷ [])) ≡ true
ends_once-retarget is t h e f =
    rw (filter-append not_fake is (t ∷ []))
      (ground (arith, ends_once-append (filter not_fake is) t (no_terms-filter_exit is h) e))
