-- ===== src/Overlap/Cut.antt =====
-- FixOverlappedBBs::truncateFuncAndLinkWith: where a function is cut, and how it is left then.
use bin2llvm.Base.{
  ℕ, ◌<◌, Bool, true, false, List, [], ◌∷◌, ◌++◌, Option, none, some, String, ltb, ◌==◌, ◌≡◌, ◌≢◌,
  refl, ◌∙◌, sym, ap, arith, All,
}
use bin2llvm.Base.Abort.{◌>>=◌, assert, >>=-eq-some, some_inj}
use bin2llvm.Hex.{Text}
use bin2llvm.Ir.{Inst, Block, Function}
use bin2llvm.Ir.Meta.{get_current_pc_of_ins, get_pc_start_of_func}
use bin2llvm.Overlap.{
  link_store, link_return, cut_at, cut_insts, cut_blocks, truncate_func_and_link_with,
}

abbrev pub Elsewhere : ℕ → Inst → Type 0
Elsewhere pc i = (n : ℕ) × (get_current_pc_of_ins i ≡ some n) × (n ≢ pc)

-- `is` splits at its first instruction at pc; something stands behind it.
pub record Found (pc : ℕ) (is front : List Inst) : Type 0 where
  pub before : List Inst
  pub at : Inst
  pub behind : List Inst
  pub whole : is ≡ before ++ at ∷ behind
  pub kept : front ≡ before ++ at ∷ []
  pub at_pc : get_current_pc_of_ins at ≡ some pc
  pub first : All (Elsewhere pc) before
  pub inside : behind ≢ []

-- The blocks where the first instruction at pc stands in one of them, and that one is cut behind it.
pub record Cut (pc : ℕ) (bs cs : List Block) : Type 0 where
  pub before : List Block
  pub overlap : Block
  pub behind : List Block
  pub front : List Inst
  pub found : Found pc overlap.insts front
  pub earlier : All (λ (b : Block). All (Elsewhere pc) b.insts) before
  pub whole : bs ≡ before ++ overlap ∷ behind
  pub result :
      cs ≡ before ++ record overlap { insts = front ++ link_store pc ∷ link_return ∷ [] } ∷ behind

Found-cons :
    (pc : ℕ) (i : Inst) (is front : List Inst)
    → Elsewhere pc i
    → Found pc is front
    → Found pc (i ∷ is) (i ∷ front)
Found-cons pc i is front h f = record {
  before = i ∷ f.before;
  at = f.at;
  behind = f.behind;
  whole = ap (λ x. i ∷ x) f.whole;
  kept = ap (λ x. i ∷ x) f.kept;
  at_pc = f.at_pc;
  first = (h, f.first);
  inside = f.inside;
}

-- What the search in a block finds.
Searched : ℕ → List Inst → Option (List Inst) → Type 0
Searched pc is none = All (Elsewhere pc) is
Searched pc is (some front) = Found pc is front

cut_at-Searched :
    (x : Bool) (pc : ℕ) (i : Inst) (is : List Inst) (o : Option (Option (List Inst)))
    (r : Option (List Inst))
    → (x ≡ true → get_current_pc_of_ins i ≡ some pc)
    → (x ≡ false → Elsewhere pc i)
    → ((q : Option (List Inst)) → o ≡ some q → Searched pc is q)
    → cut_at x i is o ≡ some r
    → Searched pc (i ∷ is) r
unfolding cut_at Searched
cut_at-Searched true pc i [] o r h k s e = cc
cut_at-Searched true pc i (j ∷ js) o r h k s e = rw (sym (some_inj e)) (record {
  before = [];
  at = i;
  behind = j ∷ js;
  whole = refl;
  kept = refl;
  at_pc = h refl;
  first = tt;
  inside = λ x. cc;
})
cut_at-Searched false pc i is none r h k s e = cc
cut_at-Searched false pc i is (some none) r h k s e = rw (sym (some_inj e)) (k refl, s none refl)
cut_at-Searched false pc i is (some (some front)) r h k s e =
    rw (sym (some_inj e)) (Found-cons pc i is front (k refl) (s (some front) refl))

cut_insts-Searched :
    (pc : ℕ) (is : List Inst) (r : Option (List Inst)) → cut_insts pc is ≡ some r → Searched pc is r
unfolding cut_insts Searched
cut_insts-Searched pc [] r e = rw (sym (some_inj e)) tt
cut_insts-Searched pc (i ∷ is) r e =
    let (n, en, e1) = >>=-eq-some (get_current_pc_of_ins i) _ e in
    cut_at-Searched (n == pc) pc i is (cut_insts pc is) r (λ y. en ∙ ap some (ground (arith, y)))
      (λ y. (n, en, (λ (x : n ≡ pc). ground (arith, y, x)))) (cut_insts-Searched pc is) e1

Cut-cons :
    (pc : ℕ) (b : Block) (bs cs : List Block)
    → All (Elsewhere pc) b.insts
    → Cut pc bs cs
    → Cut pc (b ∷ bs) (b ∷ cs)
Cut-cons pc b bs cs h c = record {
  before = b ∷ c.before;
  overlap = c.overlap;
  behind = c.behind;
  front = c.front;
  found = c.found;
  earlier = (h, c.earlier);
  whole = ap (λ x. b ∷ x) c.whole;
  result = ap (λ x. b ∷ x) c.result;
}

-- The rest of the blocks, where the first one is searched.
search_rest :
    (pc : ℕ) (b : Block) (bs cs : List Block) (r : Option (List Inst))
    → Searched pc b.insts r
    → ((rest : List Block) → cut_blocks pc bs ≡ some rest → Cut pc bs rest)
    → elim r [
      | some front ↦ some (record b { insts = front ++ link_store pc ∷ link_return ∷ [] } ∷ bs)
      | none ↦ (do rest ← cut_blocks pc bs; some (b ∷ rest))
    ]
      ≡ some cs
    → Cut pc (b ∷ bs) cs
unfolding Searched
search_rest pc b bs cs (some front) s deeper h = rw (sym (some_inj h)) (record {
  before = [];
  overlap = b;
  behind = bs;
  front = front;
  found = s;
  earlier = tt;
  whole = refl;
  result = refl;
})
search_rest pc b bs cs none s deeper h =
    let (rest, e2, h1) = >>=-eq-some (cut_blocks pc bs) _ h in
    rw (sym (some_inj h1)) (Cut-cons pc b bs rest s (deeper rest e2))

cut_blocks-Cut : (pc : ℕ) (bs cs : List Block) → cut_blocks pc bs ≡ some cs → Cut pc bs cs
unfolding cut_blocks
cut_blocks-Cut pc [] cs e = cc
cut_blocks-Cut pc (b ∷ bs) cs e =
    let (r, er, e1) = >>=-eq-some (cut_insts pc b.insts) _ e in
    search_rest pc b bs cs r (cut_insts-Searched pc b.insts r er) (cut_blocks-Cut pc bs) e1

-- Where the truncation succeeds, the function starts before the other one. It is cut behind its first
-- instruction at the start of the other one, which is not the last of its block, and then stores that
-- start to PC and returns; its other blocks stay.
pub truncate-Cut :
    (to_string : Text → String) (a b c : Function)
    → truncate_func_and_link_with to_string a b ≡ some c
    → (pc_a : ℕ) × (pc_b : ℕ) × (get_pc_start_of_func a ≡ some pc_a)
      × (get_pc_start_of_func b ≡ some pc_b)
      × (pc_a < pc_b)
      × Cut pc_b a.blocks c.blocks
unfolding truncate_func_and_link_with
truncate-Cut to_string a b c e =
    let (pc_a, ea, e1) = >>=-eq-some (get_pc_start_of_func a) _ e in
    let (pc_b, eb, e2) = >>=-eq-some (get_pc_start_of_func b) _ e1 in
    let (u, eu, e3) = >>=-eq-some (assert (ltb pc_a pc_b)) _ e2 in
    let (bs, ebs, e4) = >>=-eq-some (cut_blocks pc_b a.blocks) _ e3 in
    (
      pc_a,
      pc_b,
      ea,
      eb,
      ground (arith, eu),
      rw (sym (some_inj e4)) (cut_blocks-Cut pc_b a.blocks bs ebs),
    )
