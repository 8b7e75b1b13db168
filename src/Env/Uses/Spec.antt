-- ===== src/Env/Uses/Spec.antt =====
-- What the two functions do with the lists: they append what depends on the tree alone.
use mathlib.Core.List.{append_assoc, append-nil}
use bin2llvm.Base.{
  ℕ, ◌-◌, ◌^◌, Bool, true, false, ◌&&◌, List, [], ◌∷◌, ◌++◌, none, some, if◌then◌else◌, ◌==◌, ◌≡◌,
  refl, ◌∙◌, ap, Bool-cases, inl, inr,
}
use bin2llvm.Base.Map.{NatMap}
use bin2llvm.Hex.{Text}
use bin2llvm.Env.Names.{get_global_name}
use bin2llvm.Env.Uses.{
  get_element_ptr_offset, Use, Uses, cast, add, gep, load, store, other_use, nil, cons, Found,
  finish, shifted, process_env_use, process_env_uses,
}

-- Whether all uses are understood.
unfoldable mutual
  unfolding get_element_ptr_offset

  pub env_ok : Use → Bool
  env_ok (cast i us) = envs_ok us
  env_ok (add i none us) = false
  env_ok (add i (some c) us) = envs_ok us
  env_ok (gep i is us) = if get_element_ptr_offset is == 2 ^ 64 - 1 then false else envs_ok us
  env_ok (load i us) = true
  env_ok (store i p) = p
  env_ok other_use = false

  pub envs_ok : Uses → Bool
  envs_ok nil = true
  envs_ok (cons u us) = env_ok u && envs_ok us

-- The instruction behind its uses, if they are all understood.
abbrev pub behind : ℕ → Bool → List ℕ → List ℕ
behind i true is = is ++ i ∷ []
behind i false is = is

unfoldable mutual
  unfolding env_ok

  pub env_erased : Use → List ℕ
  env_erased (cast i us) = behind i (envs_ok us) (envs_erased us)
  env_erased (add i none us) = []
  env_erased (add i (some c) us) = behind i (envs_ok us) (envs_erased us)
  env_erased (gep i is us) =
      if get_element_ptr_offset is == 2 ^ 64 - 1 then [] else behind i (envs_ok us) (envs_erased us)
  env_erased (load i us) = i ∷ []
  env_erased (store i p) = if p then i ∷ [] else []
  env_erased other_use = []

  pub envs_erased : Uses → List ℕ
  envs_erased nil = []
  envs_erased (cons u us) = env_erased u ++ envs_erased us

and_true : (a : Bool) → (a && true) ≡ a
and_true true = refl
and_true false = refl

and_assoc : (a b c : Bool) → ((a && b) && c) ≡ (a && (b && c))
and_assoc true b c = refl
and_assoc false b c = refl

module _ (names : NatMap Text) where
  unfoldable mutual
    pub env_sinks : Use → ℕ → List (ℕ × Text)
    env_sinks (cast i us) o = envs_sinks us o
    env_sinks (add i none us) o = []
    env_sinks (add i (some c) us) o = envs_sinks us (shifted o c)
    env_sinks (gep i is us) o =
        if get_element_ptr_offset is == 2 ^ 64 - 1
        then []
        else envs_sinks us (shifted o (get_element_ptr_offset is))
    env_sinks (load i us) o = (i, get_global_name names o) ∷ []
    env_sinks (store i p) o = if p then (i, get_global_name names o) ∷ [] else []
    env_sinks other_use o = []

    pub envs_sinks : Uses → ℕ → List (ℕ × Text)
    envs_sinks nil o = []
    envs_sinks (cons u us) o = env_sinks u o ++ envs_sinks us o

  -- What is appended.
  abbrev pub grown : Found → List (ℕ × Text) → List ℕ → Found
  grown st r e = record { replace = st.replace ++ r; erase = st.erase ++ e }

  grown-nil : (st : Found) → st ≡ grown st [] []
  grown-nil st = rw (append-nil st.replace, append-nil st.erase) refl

  grown-grown :
      (st : Found) (r s : List (ℕ × Text)) (e f : List ℕ)
      → grown (grown st r e) s f ≡ grown st (r ++ s) (e ++ f)
  grown-grown st r s e f = rw (append_assoc st.replace r s, append_assoc st.erase e f) refl

  finish-grown :
      (i : ℕ) (ok : Bool) (st : Found) (r : List (ℕ × Text)) (e : List ℕ)
      → finish i (ok, grown st r e) ≡ (ok, grown st r (behind i ok e))
  finish-grown i true st r e = rw (append_assoc st.erase e (i ∷ [])) refl
  finish-grown i false st r e = refl

  mutual
    unfolding process_env_use process_env_uses env_ok envs_ok env_erased envs_erased env_sinks
        envs_sinks

    pub env_lem :
        (u : Use) (o : ℕ) (st : Found)
        → process_env_use names u o st ≡ (env_ok u, grown st (env_sinks u o) (env_erased u))
    env_lem (cast i us) o st =
        ap (finish i) (envs_lem us o true st) ∙ finish-grown i (envs_ok us) st _ _
    env_lem (add i none us) o st = ap (λ x. (false, x)) (grown-nil st)
    env_lem (add i (some c) us) o st =
        ap (finish i) (envs_lem us (shifted o c) true st) ∙ finish-grown i (envs_ok us) st _ _
    env_lem (gep i is us) o st = elim (Bool-cases (get_element_ptr_offset is == 2 ^ 64 - 1)) [
      | inl y ↦ rw y (ap (λ x. (false, x)) (grown-nil st))
      | inr n ↦ rw n (
          ap (finish i) (envs_lem us (shifted o (get_element_ptr_offset is)) true st)
          ∙ finish-grown i (envs_ok us) st _ _)
    ]
    env_lem (load i us) o st = refl
    env_lem (store i true) o st = refl
    env_lem (store i false) o st = ap (λ x. (false, x)) (grown-nil st)
    env_lem other_use o st = ap (λ x. (false, x)) (grown-nil st)

    pub envs_lem :
        (us : Uses) (o : ℕ) (ok : Bool) (st : Found)
        → process_env_uses names us o ok st
          ≡ (ok && envs_ok us, grown st (envs_sinks us o) (envs_erased us))
    envs_lem nil o ok st = rw (and_true ok) (ap (λ x. (ok, x)) (grown-nil st))
    envs_lem (cons u us) o ok st =
        ap (λ (r : Bool × Found). process_env_uses names us o (ok && r.0) r.1) (env_lem u o st)
        ∙ envs_lem us o (ok && env_ok u) (grown st (env_sinks u o) (env_erased u))
        ∙ ap
            (λ b. (
              b,
              grown (grown st (env_sinks u o) (env_erased u)) (envs_sinks us o) (envs_erased us),
            ))
            (and_assoc ok (env_ok u) (envs_ok us))
        ∙ ap (λ x. (ok && (env_ok u && envs_ok us), x)) (grown-grown st _ _ _ _)
