-- ===== src/Env/Uses/Order.antt =====
-- loadEnv, which has taken the place of the argument, is erased only if all its uses are.
use mathlib.Core.List.{append_assoc, append-nil}
use bin2llvm.Base.{
  ℕ, Bool, true, false, ◌&&◌, List, [], ◌∷◌, ◌++◌, some, ◌≡◌, refl, ◌∙◌, sym, ap, Bool-cases, inl,
  inr, In, here, In-append-left, In-append-right,
}
use bin2llvm.Base.Map.{NatMap}
use bin2llvm.Hex.{Text}
use bin2llvm.Env.Uses.{
  Use, Uses, cast, add, gep, load, store, other_use, nil, cons, Found, finish, process_env_uses,
  is_zero_gep, process_arg_use, process_arg_uses, id_of,
}
use bin2llvm.Env.Uses.Spec.{envs_erased, envs_lem}

-- Each of the uses is an instruction of the list.
abbrev pub AllIn : List ℕ → Uses → Type 0
AllIn l nil = Unit
AllIn l (cons u us) = ((i : ℕ) × (id_of u ≡ some i) × In i l) × AllIn l us

-- Where the search has succeeded, nothing is left.
abbrev pub Empties : Bool → Uses → Uses → Type 0
Empties true arg_uses env_loads = (arg_uses ≡ nil) × (env_loads ≡ nil)
Empties false arg_uses env_loads = Unit {0}

-- eraseList has grown, and by all the uses where they are understood.
abbrev Grows : Found → Bool × Found → (List ℕ → Type 0) → Type 0
Grows st r P = (e : List ℕ) × (r.1.erase ≡ st.erase ++ e) × (r.0 ≡ true → P e)

Holds : Use → List ℕ → Type 0
Holds u e = (i : ℕ) × (id_of u ≡ some i) × In i e

AllIn-right : (k l : List ℕ) (us : Uses) → AllIn l us → AllIn (k ++ l) us
AllIn-right k l nil h = tt
AllIn-right k l (cons u us) ((i, e, m), h) = ((i, e, In-append-right i k l m), AllIn-right k l us h)

finish-Grows :
    (i : ℕ) (st : Found) (r : Bool × Found) (P : List ℕ → Type 0)
    → Grows st r P
    → Grows st (finish i r) (λ e. In i e)
finish-Grows i st (true, st') P (e, g, h) = (
  e ++ i ∷ [],
  ap (λ l. l ++ i ∷ []) g ∙ append_assoc st.erase e (i ∷ []),
  λ _. In-append-right i e (i ∷ []) (here refl),
)
finish-Grows i st (false, st') P (e, g, h) = (e, g, λ x. cc)

of_finish :
    (u : Use) (i : ℕ) (st : Found) (r : Bool × Found)
    → id_of u ≡ some i
    → Grows st r (λ e. In i e)
    → Grows st r (Holds u)
unfolding Holds
of_finish u i st r x (e, g, h) = (e, g, λ y. (i, x, h y))

nothing : (u : Use) (st : Found) → Grows st (false, st) (Holds u)
nothing u st = ([], sym (append-nil st.erase), λ x. cc)

left : (a b : Bool) → (a && b) ≡ true → (a ≡ true) × (b ≡ true)
left true b e = (refl, e)
left false b e = cc

-- A use and the ones behind it; `a` is recursiveSuccess so far.
both-Grows :
    (u : Use) (us : Uses) (a : Bool) (st : Found) (r s : Bool × Found)
    → Grows st r (Holds u)
    → Grows r.1 s (λ e. ((a && r.0) ≡ true) × AllIn e us)
    → Grows st s (λ e. (a ≡ true) × AllIn e (cons u us))
unfolding Holds
both-Grows u us a st r s (d, g, h) (e, g', h') = (
  d ++ e,
  g' ∙ ap (λ l. l ++ e) g ∙ append_assoc st.erase d e,
  λ y.
      let (x, all) = h' y in
      let (x1, x2) = left a r.0 x in
      let (i, z, m) = h x2 in (x1, ((i, z, In-append-left i d e m), AllIn-right d e us all)),
)

module _ (names : NatMap Text) where
  mutual
    unfolding process_arg_use process_arg_uses

    arg-Grows : (u : Use) (st : Found) → Grows st (process_arg_use names u st) (Holds u)
    arg-Grows (cast i us) st =
        of_finish (cast i us) i st (finish i (process_arg_uses names us true st)) refl (
          finish-Grows i st (process_arg_uses names us true st) (λ e. (true ≡ true) × AllIn e us)
            (args-Grows us true st))
    arg-Grows (gep i is us) st = elim (Bool-cases (is_zero_gep is)) [
      | inl y ↦ rw y (
          of_finish (gep i is us) i st (finish i (process_arg_uses names us true st)) refl (
            finish-Grows i st (process_arg_uses names us true st) (λ e. (true ≡ true) × AllIn e us)
              (args-Grows us true st)))
      | inr n ↦ rw n (nothing (gep i is us) st)
    ]
    arg-Grows (load i us) st =
        of_finish (load i us) i st (finish i (process_env_uses names us 0 true st)) refl (
          finish-Grows i st (process_env_uses names us 0 true st) (λ e. Unit {0})
            (
              envs_erased us,
              ap (λ (x : Bool × Found). x.1.erase) (envs_lem names us 0 true st),
              λ _. tt,
            ))
    arg-Grows (add i c us) st = nothing (add i c us) st
    arg-Grows (store i p) st = nothing (store i p) st
    arg-Grows other_use st = nothing other_use st

    args-Grows :
        (us : Uses) (ok : Bool) (st : Found)
        → Grows st (process_arg_uses names us ok st) (λ e. (ok ≡ true) × AllIn e us)
    args-Grows nil ok st = ([], sym (append-nil st.erase), λ y. (y, tt))
    args-Grows (cons u us) ok st =
        let r = process_arg_use names u st in
        both-Grows u us ok st r (process_arg_uses names us (ok && r.0) r.1) (arg-Grows u st)
          (args-Grows us (ok && r.0) r.1)
