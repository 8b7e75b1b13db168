-- ===== src/Build/Assemble/Marks.antt =====
-- What the fixups look at in a block, and which blocks are in order between them.
use bin2llvm.Base.{
  ℕ, ◌+◌, ◌≤◌, Bool, true, false, not, ◌&&◌, ◌||◌, List, [], ◌∷◌, ◌++◌, none, some, if◌then◌else◌,
  filter, ◌≡◌, ◌≢◌, refl, ◌∙◌, arith,
}
use bin2llvm.Ir.{ins_direct_jump, ins_indirect_jump, ins_return, ins_switch_cnt, Inst}
use bin2llvm.Ir.Meta.{has_metadata}
use bin2llvm.Build.Shape.{
  is_term, is_fake, not_fake, is_empty, is_exit, ends_once, ends_once-retarget,
}
use bin2llvm.Build.Fixup.{branch_to}
use bin2llvm.Build.Fixup.Switched.{get_value_switched_on}
use bin2llvm.Build.Fixup.Calls.{is_marked_call}

-- How many instructions of the list pass the test.
abbrev pub sum_of : (Inst → Bool) → List Inst → ℕ
sum_of p [] = 0
sum_of p (i ∷ is) = (if p i then 1 else 0) + sum_of p is

abbrev pub is_jump_mark : Inst → Bool
is_jump_mark i = has_metadata i ins_direct_jump

abbrev pub is_indirect_mark : Inst → Bool
is_indirect_mark i = has_metadata i ins_indirect_jump

abbrev pub is_return_mark : Inst → Bool
is_return_mark i = has_metadata i ins_return

abbrev pub marks_plain : List Inst → Bool
marks_plain [] = true
marks_plain (i ∷ is) =
    not (
      is_term i.op
      && (is_marked_call i || is_jump_mark i || is_indirect_mark i || is_return_mark i))
    && marks_plain is

-- The two lists differ in nothing that the fixups look at behind the one for calls.
pub record SameShape (is js : List Inst) : Type 0 where
  pub empty : is_empty js ≡ is_empty is
  pub exit : is_exit js ≡ is_exit is
  pub ends : ends_once js ≡ ends_once is
  pub plain : marks_plain js ≡ marks_plain is
  pub calls : sum_of is_marked_call js ≡ sum_of is_marked_call is
  pub jumps : sum_of is_jump_mark js ≡ sum_of is_jump_mark is
  pub indirects : sum_of is_indirect_mark js ≡ sum_of is_indirect_mark is
  pub returns : sum_of is_return_mark js ≡ sum_of is_return_mark is

pub record SameInst (i j : Inst) : Type 0 where
  pub op : is_term j.op ≡ is_term i.op
  pub fake : is_fake j ≡ is_fake i
  pub call : is_marked_call j ≡ is_marked_call i
  pub jump : is_jump_mark j ≡ is_jump_mark i
  pub indirect : is_indirect_mark j ≡ is_indirect_mark i
  pub return : is_return_mark j ≡ is_return_mark i

pub SameShape-cons :
    (i j : Inst) (is js : List Inst) → SameInst i j → SameShape is js → SameShape (i ∷ is) (j ∷ js)
SameShape-cons i j is js h s = record {
  empty = refl;
  exit = ground arith;
  ends = ground arith;
  plain = ground arith;
  calls = ground arith;
  jumps = ground arith;
  indirects = ground arith;
  returns = ground arith;
}

-- A jump through a table stores a value in which an index is found. `before` are the instructions
-- above, the nearest first.
abbrev pub IsIndexed : List Inst → List Inst → Type 0
IsIndexed before [] = Unit {0}
IsIndexed before (i ∷ is) =
    (has_metadata i ins_indirect_jump ≡ true
      → has_metadata i ins_switch_cnt ≡ true
      → get_value_switched_on before i ≢ some none)
    × IsIndexed (i ∷ before) is

pub IsIndexed-none : (before is : List Inst) → sum_of is_indirect_mark is ≡ 0 → IsIndexed before is
IsIndexed-none before [] h = tt
IsIndexed-none before (i ∷ is) h =
    ((λ e. absurd (ground arith)), IsIndexed-none (i ∷ before) is (ground arith))

-- A block that a translated block exits from: it ends in the fake return, and at most one instruction
-- is marked, once.
pub record Exit (is : List Inst) : Type 0 where
  pub exit : is_exit is ≡ true
  pub plain : marks_plain is ≡ true
  pub single :
      sum_of is_marked_call is
        + sum_of is_jump_mark is
        + sum_of is_indirect_mark is
        + sum_of is_return_mark is
      ≤ 1
  pub indexed : IsIndexed [] is

-- A block that needs nothing of the fixups to come, which look for the marks p.
pub record Ended (p : Inst → Bool) (is : List Inst) : Type 0 where
  pub ends : ends_once is ≡ true
  pub unmarked : sum_of p is ≡ 0

abbrev pub any_mark : Inst → Bool
any_mark i = is_marked_call i || is_jump_mark i || is_indirect_mark i || is_return_mark i

abbrev pub jump_or_later : Inst → Bool
jump_or_later i = is_jump_mark i || is_indirect_mark i || is_return_mark i

abbrev pub indirect_or_later : Inst → Bool
indirect_or_later i = is_indirect_mark i || is_return_mark i

pub Exit-SameShape : (is js : List Inst) → SameShape is js → Exit is → IsIndexed [] js → Exit js
Exit-SameShape is js s e x = record {
  exit = s.exit ∙ e.exit;
  plain = s.plain ∙ e.plain;
  single = omega (arith, s.calls, s.jumps, s.indirects, s.returns, e.single);
  indexed = x;
}

pub SameShape-refl : (is : List Inst) → SameShape is is
SameShape-refl is = record {
  empty = refl;
  exit = refl;
  ends = refl;
  plain = refl;
  calls = refl;
  jumps = refl;
  indirects = refl;
  returns = refl;
}

pub sum_of-append :
    (p : Inst → Bool) (is js : List Inst) → sum_of p (is ++ js) ≡ sum_of p is + sum_of p js
sum_of-append p [] js = omega arith
sum_of-append p (i ∷ is) js = ground (arith, sum_of-append p is js)

pub sum_of-filter-le : (p q : Inst → Bool) (is : List Inst) → sum_of p (filter q is) ≤ sum_of p is
sum_of-filter-le p q [] = omega arith
sum_of-filter-le p q (i ∷ is) = ground (arith, sum_of-filter-le p q is)

pub sum_of-or :
    (p q : Inst → Bool) (is : List Inst) → sum_of (λ i. p i || q i) is ≤ sum_of p is + sum_of q is
sum_of-or p q [] = omega arith
sum_of-or p q (i ∷ is) = ground (arith, sum_of-or p q is)

pub sum_of-zero-or :
    (p q : Inst → Bool) (is : List Inst)
    → sum_of (λ i. p i || q i) is ≡ 0
    → (sum_of p is ≡ 0) × (sum_of q is ≡ 0)
sum_of-zero-or p q [] h = (refl, refl)
sum_of-zero-or p q (i ∷ is) h = ground (arith, sum_of-zero-or p q is)

-- The new terminator of a block that is left.
pub Ended-retarget :
    (p : Inst → Bool) (is : List Inst) (t : Inst)
    → is_exit is ≡ true
    → sum_of p is ≡ 0
    → is_term t.op ≡ true
    → is_fake t ≡ false
    → p t ≡ false
    → Ended p (filter not_fake (is ++ t ∷ []))
Ended-retarget p is t e z term fake unmarked = record {
  ends = ends_once-retarget is t e term fake;
  unmarked =
      ground (arith, sum_of-filter-le p not_fake (is ++ t ∷ []), sum_of-append p is (t ∷ []));
}

pub is_fake-branch_to : (l : ℕ) → is_fake (branch_to l) ≡ false
unfolding is_fake has_metadata
is_fake-branch_to l = refl

pub any_mark-branch_to : (l : ℕ) → any_mark (branch_to l) ≡ false
unfolding has_metadata
any_mark-branch_to l = refl

pub sum_of-jump_or_later :
    (is : List Inst)
    → sum_of jump_or_later is
      ≤ sum_of is_jump_mark is + sum_of is_indirect_mark is + sum_of is_return_mark is
sum_of-jump_or_later [] = omega arith
sum_of-jump_or_later (i ∷ is) = ground (arith, sum_of-jump_or_later is)

pub sum_of-indirect_or_later :
    (is : List Inst)
    → sum_of indirect_or_later is ≤ sum_of is_indirect_mark is + sum_of is_return_mark is
sum_of-indirect_or_later [] = omega arith
sum_of-indirect_or_later (i ∷ is) = ground (arith, sum_of-indirect_or_later is)

-- The parts of a sum that is zero.
pub jump_or_later-zero :
    (is : List Inst)
    → sum_of jump_or_later is ≡ 0
    → (sum_of is_jump_mark is ≡ 0) × (sum_of indirect_or_later is ≡ 0)
jump_or_later-zero [] h = (refl, refl)
jump_or_later-zero (i ∷ is) h = ground (arith, jump_or_later-zero is)

pub indirect_or_later-zero :
    (is : List Inst)
    → sum_of indirect_or_later is ≡ 0
    → (sum_of is_indirect_mark is ≡ 0) × (sum_of is_return_mark is ≡ 0)
indirect_or_later-zero [] h = (refl, refl)
indirect_or_later-zero (i ∷ is) h = ground (arith, indirect_or_later-zero is)

pub any_mark-zero :
    (is : List Inst)
    → sum_of any_mark is ≡ 0
    → (sum_of is_marked_call is ≡ 0) × (sum_of jump_or_later is ≡ 0)
any_mark-zero [] h = (refl, refl)
any_mark-zero (i ∷ is) h = ground (arith, any_mark-zero is)
