-- ===== src/Env/Uses/Access.antt =====
-- Which accesses to the CPU state are found, and under which names.
use bin2llvm.Base.{
  ℕ, ◌+◌, ◌-◌, ◌%◌, ◌^◌, ◌<◌, Bool, true, false, List, [], ◌∷◌, none, some, ◌==◌, ◌≡◌, ◌∙◌, sym, ap,
  subst, arith, Bool-cases, inl, inr, In, here, In-append-left, In-append-right, In-append-cases,
  In-cons, not-In-nil,
}
use bin2llvm.Base.Map.{NatMap}
use bin2llvm.Hex.{Text}
use bin2llvm.Env.Names.{get_global_name}
use bin2llvm.Env.Uses.{
  GepIndex, get_element_ptr_offset, Use, Uses, cast, add, gep, load, store, other_use, nil, cons,
  Found, shifted, process_env_use,
}
use bin2llvm.Env.Uses.Spec.{env_sinks, envs_sinks, env_lem}

-- A load or a store through the pointer, by its id, with the sum of the constants on its path.
mutual
  pub data Access : Use → ℕ → ℕ → Type 0 where
    at_load : {i : ℕ} {us : Uses} → Access (load i us) 0 i
    at_store : {i : ℕ} → Access (store i true) 0 i
    under_cast : {i j n : ℕ} {us : Uses} → AccessIn us n i → Access (cast j us) n i
    under_add : {i j c n : ℕ} {us : Uses} → AccessIn us n i → Access (add j (some c) us) (c + n) i
    under_gep :
        {i j n : ℕ} {is : List GepIndex} {us : Uses}
        → (get_element_ptr_offset is == 2 ^ 64 - 1) ≡ false
        → AccessIn us n i
        → Access (gep j is us) (get_element_ptr_offset is + n) i

  pub data AccessIn : Uses → ℕ → ℕ → Type 0 where
    first : {u : Use} {us : Uses} {n i : ℕ} → Access u n i → AccessIn (cons u us) n i
    next : {u : Use} {us : Uses} {n i : ℕ} → AccessIn us n i → AccessIn (cons u us) n i

single : (i j : ℕ) (t u : Text) → In {A = ℕ × Text} (i, t) ((j, u) ∷ []) → (i ≡ j) × (t ≡ u)
single i j t u k = elim (In-cons (i, t) (j, u) [] k) [
  | inl e ↦ (ap (λ (x : ℕ × Text). x.0) e, ap (λ (x : ℕ × Text). x.1) e)
  | inr m ↦ absurd (not-In-nil (i, t) m)
]

module _ (names : NatMap Text) where
  -- The global for a sum of constants behind an offset.
  abbrev pub global_of : ℕ → ℕ → Text
  global_of o n = get_global_name names ((o + n) % 2 ^ 32)

  global_of-shifted : (o c n : ℕ) → global_of (shifted o c) n ≡ global_of o (c + n)
  global_of-shifted o c n = ap (get_global_name names) (omega arith)

  global_of-zero : (o : ℕ) → o < 2 ^ 32 → get_global_name names o ≡ global_of o 0
  global_of-zero o h = ap (get_global_name names) (omega arith)

  shifted_lt : (o c : ℕ) → shifted o c < 2 ^ 32
  shifted_lt o c = omega arith

  abbrev pub Named : Use → ℕ → ℕ → Text → Type 0
  Named u o i t = (n : ℕ) × Access u n i × (t ≡ global_of o n)

  abbrev pub NamedIn : Uses → ℕ → ℕ → Text → Type 0
  NamedIn us o i t = (n : ℕ) × AccessIn us n i × (t ≡ global_of o n)

  mutual
    unfolding env_sinks

    sinks-Named :
        (u : Use) (o i : ℕ) (t : Text)
        → o < 2 ^ 32
        → In (i, t) (env_sinks names u o)
        → Named u o i t
    sinks-Named (cast j us) o i t h k =
        let (n, a, e) = sinks-NamedIn us o i t h k in (n, under_cast a, e)
    sinks-Named (add j none us) o i t h k = absurd (not-In-nil (i, t) k)
    sinks-Named (add j (some c) us) o i t h k =
        let (n, a, e) = sinks-NamedIn us (shifted o c) i t (shifted_lt o c) k in
        (c + n, under_add a, e ∙ global_of-shifted o c n)
    sinks-Named (gep j is us) o i t h k =
        elim (Bool-cases (get_element_ptr_offset is == 2 ^ 64 - 1)) [
          | inl y ↦ absurd (not-In-nil (i, t) (rw y at k))
          | inr m ↦
              let c = get_element_ptr_offset is in
              let (n, a, e) = sinks-NamedIn us (shifted o c) i t (shifted_lt o c) (rw m at k) in
              (c + n, under_gep m a, e ∙ global_of-shifted o c n)
        ]
    sinks-Named (load j us) o i t h k =
        let (e, et) = single i j t (get_global_name names o) k in
        (0, subst (λ x. Access (load j us) 0 x) (sym e) at_load, et ∙ global_of-zero o h)
    sinks-Named (store j true) o i t h k =
        let (e, et) = single i j t (get_global_name names o) k in
        (0, subst (λ x. Access (store j true) 0 x) (sym e) at_store, et ∙ global_of-zero o h)
    sinks-Named (store j false) o i t h k = absurd (not-In-nil (i, t) k)
    sinks-Named other_use o i t h k = absurd (not-In-nil (i, t) k)

    sinks-NamedIn :
        (us : Uses) (o i : ℕ) (t : Text)
        → o < 2 ^ 32
        → In (i, t) (envs_sinks names us o)
        → NamedIn us o i t
    sinks-NamedIn nil o i t h k = absurd (not-In-nil (i, t) k)
    sinks-NamedIn (cons u us) o i t h k =
        elim (In-append-cases (i, t) (env_sinks names u o) (envs_sinks names us o) k) [
          | inl a ↦ let (n, x, e) = sinks-Named u o i t h a in (n, first x, e)
          | inr a ↦ let (n, x, e) = sinks-NamedIn us o i t h a in (n, next x, e)
        ]

  mutual
    unfolding env_sinks

    Access-named :
        (u : Use) (o n i : ℕ)
        → o < 2 ^ 32
        → Access u n i
        → In (i, global_of o n) (env_sinks names u o)
    Access-named (cast j us) o n i h (under_cast a) = AccessIn-named us o n i h a
    Access-named (add j (some c) us) o _ i h (under_add {n} a) =
        subst (λ t. In (i, t) (envs_sinks names us (shifted o c))) (global_of-shifted o c n)
          (AccessIn-named us (shifted o c) n i (shifted_lt o c) a)
    Access-named (gep j is us) o _ i h (under_gep {n} m a) =
        let c = get_element_ptr_offset is in
        rw m (
          subst (λ t. In (i, t) (envs_sinks names us (shifted o c))) (global_of-shifted o c n)
            (AccessIn-named us (shifted o c) n i (shifted_lt o c) a))
    Access-named (load j us) o n i h at_load = here (ap (λ t. (j, t)) (sym (global_of-zero o h)))
    Access-named (store j true) o n i h at_store =
        here (ap (λ t. (j, t)) (sym (global_of-zero o h)))
    Access-named (add j none us) o n i h a = elim a [ ]
    Access-named (store j false) o n i h a = elim a [ ]
    Access-named other_use o n i h a = elim a [ ]

    AccessIn-named :
        (us : Uses) (o n i : ℕ)
        → o < 2 ^ 32
        → AccessIn us n i
        → In (i, global_of o n) (envs_sinks names us o)
    AccessIn-named nil o n i h a = elim a [ ]
    AccessIn-named (cons u us) o n i h (first a) =
        In-append-left _ (env_sinks names u o) (envs_sinks names us o) (Access-named u o n i h a)
    AccessIn-named (cons u us) o n i h (next a) =
        In-append-right _ (env_sinks names u o) (envs_sinks names us o)
          (AccessIn-named us o n i h a)

-- From empty lists, exactly the loads and stores through the pointer are replaced, each by the global
-- for the sum of the constants on its path, in 32 bits; also where another use is not understood.
pub process_env_use-Access :
    (names : NatMap Text) (u : Use)
    → let r = (process_env_use names u 0 (record { replace = []; erase = [] })).1.replace in
      ((i : ℕ) (t : Text) → In (i, t) r → Named names u 0 i t)
      × ((n i : ℕ) → Access u n i → In (i, get_global_name names (n % 2 ^ 32)) r)
process_env_use-Access names u =
    let e =
      ap (λ (x : Bool × Found). x.1.replace)
        (env_lem names u 0 (record { replace = []; erase = [] })) in
    (
      (λ i t k. sinks-Named names u 0 i t (omega arith) (subst (λ l. In (i, t) l) e k)),
      λ n i a.
          subst (λ l. In (i, get_global_name names (n % 2 ^ 32)) l) (sym e)
            (subst (λ t. In (i, t) (env_sinks names u 0)) (ap (get_global_name names) (omega arith))
              (Access-named names u 0 n i (omega arith) a)),
    )
