-- ===== src/Build/Explore/Visit.antt =====
-- One address, one instruction and one block of the search.
use bin2llvm.Base.{
  ℕ, zero, suc, ◌+◌, ◌<◌, Bool, true, false, List, [], ◌∷◌, Option, none, some, if◌then◌else◌,
  length, ◌≡◌, refl, arith, length-append, ap, ◌∙◌,
}
use bin2llvm.Base.Map.{NatMap, find, insert, has, has-insert}
use bin2llvm.Base.Abort.{>>=-eq-some}
use bin2llvm.Ir.{Inst, Module}
use bin2llvm.Build.Targets.{inst_targets}
use bin2llvm.Build.Explore.{Search, visit, visit_all, saw, expand}

-- The positions below n that are not explored.
pub missing : ℕ → NatMap Bool → ℕ
missing zero e = 0
missing (suc k) e = if has k e then missing k e else suc (missing k e)

missing-insert_above :
    (n k : ℕ) (e : NatMap Bool) → n < suc k → missing n (insert k true e) ≡ missing n e
unfolding missing
missing-insert_above zero k e h = refl
missing-insert_above (suc n) k e h =
    ground (arith, has-insert k n true e, missing-insert_above n k e)

pub missing-insert :
    (n k : ℕ) (e : NatMap Bool)
    → k < n
    → has k e ≡ false
    → suc (missing n (insert k true e)) ≡ missing n e
unfolding missing
missing-insert zero k e h u = absurd (omega arith)
missing-insert (suc n) k e h u =
    ground (arith, has-insert k n true e, missing-insert n k e, missing-insert_above n k e)

pub missing-nil : (n : ℕ) → missing n [] ≡ n
unfolding missing has
missing-nil zero = refl
missing-nil (suc n) = ap suc (missing-nil n)

-- Every known address leads to a position of the module.
abbrev pub InRange : ℕ → NatMap ℕ → Type 0
InRange n all_bbs = (pc b : ℕ) → find pc all_bbs ≡ some b → b < n

module _ (m : Module) (all_bbs : NatMap ℕ) where
  -- What is left to do: one round takes a block from the queue, and a block enters the queue when
  -- it becomes explored.
  abbrev pub work : Search → ℕ
  work s = missing (length m) s.explored + length s.pending

  visit_work :
      (s : Search) (pc : ℕ) → InRange (length m) all_bbs → work (visit m all_bbs s pc) ≡ work s
  unfolding visit
  visit_work s pc r = go (find pc all_bbs) refl
    where
      go : (o : Option ℕ) → find pc all_bbs ≡ o → work (visit m all_bbs s pc) ≡ work s
      go none e = rw (e, visit)
      go (some b) e =
          rw (e, visit)
            (ground (
              arith,
              r pc b e,
              missing-insert (length m) b s.explored,
              length-append s.pending (b ∷ []),
            ))

  visit_all_work :
      (s : Search) (pcs : List ℕ)
      → InRange (length m) all_bbs
      → work (visit_all m all_bbs s pcs) ≡ work s
  unfolding visit_all
  visit_all_work s [] r = refl
  visit_all_work s (pc ∷ pcs) r = visit_all_work (visit m all_bbs s pc) pcs r ∙ visit_work s pc r

  pub expand_work :
      (s t : Search) (is : List Inst)
      → InRange (length m) all_bbs
      → expand m all_bbs s is ≡ some t
      → work t ≡ work s
  unfolding expand
  expand_work s t [] r h = let e : s ≡ t = ground arith in rw e
  expand_work s t (i ∷ is) r h =
      let (ts, et, h') = >>=-eq-some (inst_targets i) _ h in
      let s' = visit_all m all_bbs (saw ts.is_indirect s) ts.pcs in
      expand_work s' t is r h' ∙ visit_all_work (saw ts.is_indirect s) ts.pcs r
