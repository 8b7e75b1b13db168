-- ===== src/Build/Explore/Correct.antt =====
-- The search finds the blocks that control can reach from the first one without a call.
use mathlib.Core.Logic.{⊎_elim}
use bin2llvm.Base.{
  ℕ, ◌≤◌, Bool, true, false, List, [], ◌∷◌, ◌++◌, Option, none, some, length, ◌≡◌, refl, arith, inl,
  inr, ◌⊎◌, ◌↔◌, ◌==◌, if◌then◌else◌, In, here, there, In-cons, In-append-left, In-append-right,
  In-append-cases, not-In-nil, count, count-append, Bool-cases, subst,
}
use bin2llvm.Base.Map.{NatMap, find, insert, has, has-insert}
use bin2llvm.Base.Abort.{>>=-eq-some}
use bin2llvm.Ir.{Inst, Module}
use bin2llvm.Build.Targets.{Targets, inst_targets}
use bin2llvm.Build.Explore.{Search, done, code_of, visit, visit_all, saw, expand, start, explore}
use bin2llvm.Build.Explore.Loop.{loop_rule}

-- Some instruction of the list continues at block c.
pub data Leads (all_bbs : NatMap ℕ) (is : List Inst) (c : ℕ) : Type 0 where
  leads :
      (i : Inst) (t : Targets) (pc : ℕ)
      → In i is
      → inst_targets i ≡ some t
      → In pc t.pcs
      → find pc all_bbs ≡ some c
      → Leads all_bbs is c

-- The blocks that control reaches from block b.
pub data Reach (m : Module) (all_bbs : NatMap ℕ) (b : ℕ) : ℕ → Type 0 where
  stay : Reach m all_bbs b b
  step : {u v : ℕ} → Reach m all_bbs b u → Leads all_bbs (code_of m u) v → Reach m all_bbs b v

-- What one address, or one block, adds to the search, where L are the blocks that it leads to.
record Grows (L : ℕ → Type 0) (s t : Search) : Type 0 where
  explored_iff : (c : ℕ) → (has c t.explored ≡ true) ↔ ((has c s.explored ≡ true) ⊎ L c)
  keeps : (c : ℕ) → In c s.pending → In c t.pending
  queued : (c : ℕ) → In c t.pending → In c s.pending ⊎ (has c t.explored ≡ true)
  fresh : (c : ℕ) → has c t.explored ≡ true → (has c s.explored ≡ true) ⊎ In c t.pending
  counted :
      ((c : ℕ) → count c s.bbs ≡ (if has c s.explored then 1 else 0))
      → (c : ℕ) → count c t.bbs ≡ (if has c t.explored then 1 else 0)

Grows-refl : (L : ℕ → Type 0) (s : Search) → ((c : ℕ) → ¬ L c) → Grows L s s
Grows-refl L s empty = record {
  explored_iff = λ c. (inl, ⊎_elim (λ h. h) (λ l. absurd (empty c l)));
  keeps = λ c h. h;
  queued = λ c h. inl h;
  fresh = λ c h. inl h;
  counted = λ h. h;
}

Grows-saw : (L : ℕ → Type 0) (s t : Search) (i : Bool) → Grows L (saw i s) t → Grows L s t
Grows-saw L s t i g = record {
  explored_iff = g.explored_iff;
  keeps = g.keeps;
  queued = g.queued;
  fresh = g.fresh;
  counted = g.counted;
}

Grows-trans :
    (L K N : ℕ → Type 0) (s t u : Search)
    → ((c : ℕ) → N c ↔ (L c ⊎ K c))
    → Grows L s t
    → Grows K t u
    → Grows N s u
Grows-trans L K N s t u n g h = record {
  explored_iff = λ c. ground (arith, g.explored_iff c, h.explored_iff c, n c);
  keeps = λ c p. h.keeps c (g.keeps c p);
  queued = λ c p. ground (arith, g.queued c, h.queued c p, h.explored_iff c);
  fresh = λ c p. ground (arith, g.fresh c, h.fresh c p, h.keeps c);
  counted = λ p. h.counted (g.counted p);
}

module _ (m : Module) (all_bbs : NatMap ℕ) where
  visit-Grows :
      (s : Search) (pc : ℕ) → Grows (λ c. find pc all_bbs ≡ some c) s (visit m all_bbs s pc)
  unfolding visit
  visit-Grows s pc = go (find pc all_bbs) refl
    where
      new :
          (b : ℕ)
          → find pc all_bbs ≡ some b
          → has b s.explored ≡ false
          → Grows
              (λ c. some b ≡ some c)
              s
              (record s {
                bbs = s.bbs ++ b ∷ [];
                pending = s.pending ++ b ∷ [];
                explored = insert b true s.explored;
              })
      new b e u = record {
        explored_iff = λ c. ground (arith, has-insert b c true s.explored);
        keeps = λ c h. In-append-left c s.pending (b ∷ []) h;
        queued = λ c h.
            ⊎_elim inl
              (λ l.
                ⊎_elim (λ q. inr (ground (arith, has-insert b c true s.explored)))
                  (λ z. absurd (not-In-nil c z)) (In-cons c b [] l))
              (In-append-cases c s.pending (b ∷ []) h);
        fresh = λ c h. elim (Bool-cases (b == c)) [
          | inl same ↦ inr (In-append-right c s.pending (b ∷ []) (here (ground arith)))
          | inr other ↦ inl (ground (arith, has-insert b c true s.explored))
        ];
        counted = λ h c.
            ground (arith, has-insert b c true s.explored, count-append c s.bbs (b ∷ []), h c);
      }

      old : (b : ℕ) → has b s.explored ≡ true → Grows (λ c. some b ≡ some c) s s
      old b known = record {
        explored_iff = λ c. ground arith;
        keeps = λ c h. h;
        queued = λ c h. inl h;
        fresh = λ c h. inl h;
        counted = λ h. h;
      }

      go : (o : Option ℕ) → find pc all_bbs ≡ o → Grows (λ c. o ≡ some c) s (visit m all_bbs s pc)
      go none e = rw (e, visit) (Grows-refl _ s (λ c h. cc))
      go (some b) e = elim (Bool-cases (has b s.explored)) [
        | inl known ↦ rw (e, visit, known) (old b known)
        | inr u ↦ rw (e, visit, u) (new b e u)
      ]

  abbrev LeadsFrom : List ℕ → ℕ → Type 0
  LeadsFrom pcs c = (pc : ℕ) × In pc pcs × (find pc all_bbs ≡ some c)

  LeadsFrom-cons :
      (pc : ℕ) (pcs : List ℕ) (c : ℕ)
      → LeadsFrom (pc ∷ pcs) c ↔ ((find pc all_bbs ≡ some c) ⊎ LeadsFrom pcs c)
  LeadsFrom-cons pc pcs c = (
    λ (q, h, e).
        ⊎_elim (λ same. inl (subst (λ k. find k all_bbs ≡ some c) same e)) (λ l. inr (q, l, e))
          (In-cons q pc pcs h),
    ⊎_elim (λ e. (pc, here refl, e)) (λ (q, h, e). (q, there h, e)),
  )

  visit_all-Grows :
      (s : Search) (pcs : List ℕ) → Grows (LeadsFrom pcs) s (visit_all m all_bbs s pcs)
  unfolding visit_all
  visit_all-Grows s [] = Grows-refl (LeadsFrom []) s (λ c (pc, h, e). not-In-nil pc h)
  visit_all-Grows s (pc ∷ pcs) =
      Grows-trans _ _ (LeadsFrom (pc ∷ pcs)) s (visit m all_bbs s pc) _ (LeadsFrom-cons pc pcs)
        (visit-Grows s pc) (visit_all-Grows (visit m all_bbs s pc) pcs)

  Leads-cons :
      (i : Inst) (t : Targets) (is : List Inst)
      → inst_targets i ≡ some t
      → (c : ℕ) → Leads all_bbs (i ∷ is) c ↔ (LeadsFrom t.pcs c ⊎ Leads all_bbs is c)
  Leads-cons i t is e c = (split, ⊎_elim (λ (pc, h, f). leads i t pc (here refl) e h f) later)
    where
      later : Leads all_bbs is c → Leads all_bbs (i ∷ is) c
      later (leads j u pc h f g k) = leads j u pc (there h) f g k

      split : Leads all_bbs (i ∷ is) c → LeadsFrom t.pcs c ⊎ Leads all_bbs is c
      split (leads j u pc (there h) f g k) = inr (leads j u pc h f g k)
      split (leads j u pc (here same) f g k) =
          let eq : u ≡ t = cc in inl (pc, subst (λ (v : Targets). In pc v.pcs) eq g, k)

  expand-Grows :
      (s t : Search) (is : List Inst)
      → expand m all_bbs s is ≡ some t
      → Grows (Leads all_bbs is) s t
  unfolding expand
  expand-Grows s t [] h =
      let e : s ≡ t = ground arith in
      subst (Grows (Leads all_bbs []) s) e (Grows-refl _ s none_left)
    where
      none_left : (c : ℕ) → ¬ Leads all_bbs [] c
      none_left c (leads i u pc h e g k) = not-In-nil i h
  expand-Grows s t (i ∷ is) h =
      let (u, eu, h') = >>=-eq-some (inst_targets i) _ h in
      let s' = visit_all m all_bbs (saw u.is_indirect s) u.pcs in
      let first : Grows (LeadsFrom u.pcs) s s' =
        Grows-saw (LeadsFrom u.pcs) s s' u.is_indirect
          (visit_all-Grows (saw u.is_indirect s) u.pcs) in
      Grows-trans (LeadsFrom u.pcs) (Leads all_bbs is) (Leads all_bbs (i ∷ is)) s s' t
        (Leads-cons i u is eu) first (expand-Grows s' t is h')

  record Inv (b : ℕ) (s : Search) : Type 0 where
    source : has b s.explored ≡ true
    queued : (v : ℕ) → In v s.pending → has v s.explored ≡ true
    sound : (v : ℕ) → has v s.explored ≡ true → Reach m all_bbs b v
    closed :
        (u v : ℕ)
        → has u s.explored ≡ true
        → Leads all_bbs (code_of m u) v
        → In u s.pending ⊎ (has v s.explored ≡ true)
    counted : (c : ℕ) → count c s.bbs ≡ (if has c s.explored then 1 else 0)

  Inv-start : (b : ℕ) → Inv b (start b)
  unfolding has find
  Inv-start b = record {
    source = ground arith;
    queued = λ v h. ⊎_elim (λ e. ground arith) (λ z. absurd (not-In-nil v z)) (In-cons v b [] h);
    sound = λ v h. let e : b ≡ v = ground arith in subst (Reach m all_bbs b) e stay;
    closed = λ u v h l. inl (here (ground arith));
    counted = λ c. ground arith;
  }

  Inv-round :
      (b : ℕ) (s t : Search) (u : ℕ) (rest : List ℕ)
      → s.pending ≡ u ∷ rest
      → expand m all_bbs (record s { pending = rest }) (code_of m u) ≡ some t
      → Inv b s
      → Inv b t
  Inv-round b s t u rest q h inv = record {
    source = (g.explored_iff b).1 (inl inv.source);
    queued = λ v p.
        ⊎_elim (λ old. (g.explored_iff v).1 (inl (inv.queued v (in_rest v old)))) (λ k. k)
          (g.queued v p);
    sound = λ v k. ⊎_elim (inv.sound v) (step to_u) ((g.explored_iff v).0 k);
    closed = λ x v k l.
        ⊎_elim
          (λ before.
            ⊎_elim
              (λ waiting.
                ⊎_elim
                  (λ same. inr (
                    (g.explored_iff v).1 (inr (subst (λ y. Leads all_bbs (code_of m y) v) same l))))
                  (λ later. inl (g.keeps x later)) (In-cons x u rest (subst (In x) q waiting)))
              (λ known. inr ((g.explored_iff v).1 (inl known))) (inv.closed x v before l))
          inl (g.fresh x k);
    counted = g.counted inv.counted;
  }
    where
      g : Grows (Leads all_bbs (code_of m u)) (record s { pending = rest }) t
      g = expand-Grows (record s { pending = rest }) t (code_of m u) h

      in_rest : (v : ℕ) → In v rest → In v s.pending
      in_rest v p = rw q (there p)

      to_u : Reach m all_bbs b u
      to_u = inv.sound u (inv.queued u (rw q (here refl)))

  complete :
      (b : ℕ) (t : Search)
      → Inv b t
      → t.pending ≡ []
      → {v : ℕ} → Reach m all_bbs b v
      → has v t.explored ≡ true
  complete b t inv e stay = inv.source
  complete b t inv e (step {u} {v} p l) = elim (inv.closed u v (complete b t inv e p) l) [
    | inl waiting ↦ absurd (not-In-nil u (subst (In u) e waiting))
    | inr known ↦ known
  ]

-- When the search is done, its list of blocks holds each block that control reaches from the first
-- one exactly once, and no other block.
pub explore_correct :
    (m : Module) (all_bbs : NatMap ℕ) (b : ℕ) (t : Search) (c : ℕ)
    → explore m all_bbs b ≡ done t
    → (count c t.bbs ≤ 1) × ((count c t.bbs ≡ 1) ↔ Reach m all_bbs b c)
unfolding explore
explore_correct m all_bbs b t c h =
    let (inv, empty) =
      loop_rule m all_bbs (Inv m all_bbs b) (Inv-round m all_bbs b) (length m) (start b) t
        (Inv-start m all_bbs b) h in
    let counted = inv.counted c in
    (
      ground arith,
      (
        λ e. inv.sound c (ground arith),
        λ r. let known = complete m all_bbs b t inv empty r in ground arith,
      ),
    )
