-- ===== src/Build/Explore/Loop.antt =====
-- The search ends, and an invariant of its rounds holds where it ends.
use bin2llvm.Base.{
  ℕ, zero, suc, ◌<◌, ◌≤◌, List, [], ◌∷◌, some, length, ◌≡◌, ◌≢◌, refl, arith, inl, inr, ap,
  List-cases, Option-cases,
}
use bin2llvm.Base.Map.{NatMap, has, insert}
use bin2llvm.Ir.{Module}
use bin2llvm.Build.Explore.{Search, done, out_of_fuel, code_of, expand, loop, start, explore}
use bin2llvm.Build.Explore.Visit.{missing-insert, missing-nil, InRange, work, expand_work}

module _ (m : Module) (all_bbs : NatMap ℕ) where
  loop_ends :
      (fuel : ℕ) (s : Search)
      → InRange (length m) all_bbs
      → work m all_bbs s ≤ fuel
      → loop m all_bbs fuel s ≢ out_of_fuel
  unfolding loop
  loop_ends zero s r h e = ground arith
  loop_ends (suc fuel) s r h e = elim (List-cases s.pending) [
    | inl empty ↦ cc (rw (empty, loop) at e)
    | inr (b, rest, q) ↦
        elim (Option-cases (expand m all_bbs (record s { pending = rest }) (code_of m b))) [
          | inl stop ↦ ground arith
          | inr (t, step) ↦
              loop_ends fuel t r
                (omega (
                  arith,
                  ap length q,
                  expand_work m all_bbs (record s { pending = rest }) t (code_of m b) r step,
                ))
                (ground arith)
        ]
  ]

  -- An invariant that each round keeps holds at the end, where the queue is empty.
  pub loop_rule {ℓ} :
      (P : Search → Type ℓ)
      → ((s t : Search) (b : ℕ) (rest : List ℕ)
          → s.pending ≡ b ∷ rest
          → expand m all_bbs (record s { pending = rest }) (code_of m b) ≡ some t
          → P s
          → P t)
      → (fuel : ℕ) (s t : Search) → P s
      → loop m all_bbs fuel s ≡ done t
      → P t × (t.pending ≡ [])
  unfolding loop
  loop_rule P keep zero s t p h = ground arith
  loop_rule P keep (suc fuel) s t p h = elim (List-cases s.pending) [
    | inl empty ↦ ground arith
    | inr (b, rest, q) ↦
        elim (Option-cases (expand m all_bbs (record s { pending = rest }) (code_of m b))) [
          | inl stop ↦ absurd (ground arith)
          | inr (u, step) ↦ loop_rule P keep fuel u t (keep s u b rest q step p) (ground arith)
        ]
  ]

-- The work list runs empty, or an assertion fails, before each block of the module has been
-- expanded more than once, if the first block and every block that an address leads to are in the
-- module.
pub explore_terminates :
    (m : Module) (all_bbs : NatMap ℕ) (b : ℕ)
    → InRange (length m) all_bbs
    → b < length m
    → explore m all_bbs b ≢ out_of_fuel
unfolding explore insert has
explore_terminates m all_bbs b r h =
    loop_ends m all_bbs (length m) (start b) r
      (omega (arith, missing-insert (length m) b [] h refl, missing-nil (length m)))
