-- ===== src/Build/Explore/Returns.antt =====
-- When the search ends with a result: no assertion fails, and the fuel is enough.
use bin2llvm.Base.{
  ℕ, zero, suc, ◌<◌, List, [], ◌∷◌, some, length, ◌≡◌, ◌≢◌, refl, arith, All, inl, inr, List-cases,
}
use bin2llvm.Base.Map.{NatMap}
use bin2llvm.Ir.{Inst, Function, Module}
use bin2llvm.Ir.Pc.{all_insts}
use bin2llvm.Build.Targets.{Targets, inst_targets}
use bin2llvm.Build.Explore.{
  Search, Outcome, done, aborted, out_of_fuel, code_of, visit_all, saw, expand, loop, start,
  explore,
}
use bin2llvm.Build.Explore.Visit.{InRange}
use bin2llvm.Build.Explore.Loop.{explore_terminates}

-- The instruction passes the assertions of the search.
abbrev pub Runs : Inst → Type 0
Runs i = (t : Targets) × (inst_targets i ≡ some t)

-- So does every instruction of the module.
abbrev pub AllRun : Module → Type 0
AllRun m = All (λ (f : Function). All Runs (all_insts f.blocks)) m

code_of-Runs : (m : Module) (b : ℕ) → AllRun m → All Runs (code_of m b)
code_of-Runs [] b h = tt
code_of-Runs (f ∷ fs) zero h = h.0
code_of-Runs (f ∷ fs) (suc b) h = code_of-Runs fs b h.1

module _ (m : Module) (all_bbs : NatMap ℕ) where
  expand_total :
      (s : Search) (is : List Inst) → All Runs is → (t : Search) × (expand m all_bbs s is ≡ some t)
  unfolding expand
  expand_total s [] h = (s, refl)
  expand_total s (i ∷ is) h =
      let (t, e) = h.0 in
      let (u, eu) = expand_total (visit_all m all_bbs (saw t.is_indirect s) t.pcs) is h.1 in
      (u, rw e eu)

  loop_runs : (fuel : ℕ) (s : Search) → AllRun m → loop m all_bbs fuel s ≢ aborted
  unfolding loop
  loop_runs zero s h = elim (List-cases s.pending) [
    | inl e ↦ λ k. ground arith
    | inr (b, rest, e) ↦ λ k. ground arith
  ]
  loop_runs (suc fuel) s h = elim (List-cases s.pending) [
    | inl e ↦ λ k. ground arith
    | inr (b, rest, e) ↦
        let (t, et) =
          expand_total (record s { pending = rest }) (code_of m b) (code_of-Runs m b h) in
        λ k. loop_runs fuel t h (ground arith)
  ]

-- If every instruction of the module passes the assertions, and the known addresses lead into the
-- module, the search ends with a result.
pub explore_returns :
    (m : Module) (all_bbs : NatMap ℕ) (b : ℕ)
    → AllRun m
    → InRange (length m) all_bbs
    → b < length m
    → (t : Search) × (explore m all_bbs b ≡ done t)
unfolding explore
explore_returns m all_bbs b runs r h = go (explore m all_bbs b) refl
  where
    go : (o : Outcome) → explore m all_bbs b ≡ o → (t : Search) × (explore m all_bbs b ≡ done t)
    go (done t) e = (t, e)
    go aborted e = absurd (loop_runs m all_bbs (length m) (start b) runs e)
    go out_of_fuel e = absurd (explore_terminates m all_bbs b r h e)
