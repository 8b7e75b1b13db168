-- ===== src/Void/Rewrites.antt =====
-- The loop ends, and leaves no translated block with a result.
use bin2llvm.Base.{
  ℕ, zero, suc, ◌+◌, ◌≤◌, Bool, true, false, not, ◌||◌, List, [], ◌∷◌, ◌++◌, some, String, str_eq,
  eq_iff, filter, if◌then◌else◌, length, ◌≡◌, refl, ◌∙◌, sym, subst, arith, All, All-map, All-imp,
  All-append, Bool-cases, inl, inr,
}
use bin2llvm.Ir.{Block, Function, Module}
use bin2llvm.Void.{
  rewrites, void_name, fake_returns, has_name, listed, add_blocks, add_to, insert_function,
  rewrite_functions, transform_to_void,
}

-- The name of a new function is not that of a function that is rewritten.
abbrev pub VoidNamed : String → Type 0
VoidNamed name = rewrites name ≡ true → rewrites (void_name name) ≡ false

-- A function that is rewritten has one argument.
abbrev pub OneArg : (String → ℕ) → String → Type 0
OneArg arg_count name = rewrites name ≡ true → arg_count name ≡ 1

abbrev pub Ready : (String → ℕ) → String → Type 0
Ready arg_count name = VoidNamed name × OneArg arg_count name

-- The rounds that are left.
abbrev work : Module → ℕ
work [] = 0
work (f ∷ m) = (if rewrites f.name then 2 else 1) + work m

work-append : (m n : Module) → work (m ++ n) ≡ work m + work n
work-append [] n = omega arith
work-append (f ∷ m) n = omega (arith, work-append m n)

add_blocks-name :
    (name : String) (bs : List Block) (f : Function) → (add_blocks name bs f).name ≡ f.name
add_blocks-name name bs f = elim (Bool-cases (str_eq f.name name)) [
  | inl y ↦ rw y refl
  | inr n ↦ rw n refl
]

work-add_to : (name : String) (bs : List Block) (m : Module) → work (add_to name bs m) ≡ work m
work-add_to name bs [] = refl
work-add_to name bs (f ∷ m) = rw add_blocks-name (omega (arith, work-add_to name bs m))

-- A property of names is kept.
All-add_to :
    (P : String → Type 0) (name : String) (bs : List Block) (m : Module)
    → All (λ f. P f.name) m
    → All (λ f. P f.name) (add_to name bs m)
All-add_to P name bs m h =
    All-map (λ (f : Function). P f.name) (add_blocks name bs) m
      (All-imp (λ (f : Function). P f.name) (λ f. P (add_blocks name bs f).name) m
        (λ f p. subst P (sym (add_blocks-name name bs f)) p) h)

insert_function-work :
    (name : String) (bs : List Block) (done rest : Module)
    → rewrites name ≡ false
    → work (insert_function name bs done rest).1 ≤ work rest + 1
unfolding insert_function
insert_function-work name bs done rest e =
    elim (Bool-cases (has_name name done || has_name name rest)) [
      | inl y ↦ rw y (omega (arith, work-add_to name bs rest))
      | inr n ↦ rw n (rw (work-append, e) (omega arith))
    ]

-- A property of all names, the new one's included, is kept.
insert_function-done :
    (P : String → Type 0) (name : String) (bs : List Block) (done rest : Module)
    → All (λ f. P f.name) done
    → All (λ f. P f.name) (insert_function name bs done rest).0
unfolding insert_function
insert_function-done P name bs done rest d =
    elim (Bool-cases (has_name name done || has_name name rest)) [
      | inl y ↦ rw y (All-add_to P name bs done d)
      | inr n ↦ rw n d
    ]

insert_function-rest :
    (P : String → Type 0) (name : String) (bs : List Block) (done rest : Module)
    → P name
    → All (λ f. P f.name) rest
    → All (λ f. P f.name) (insert_function name bs done rest).1
unfolding insert_function
insert_function-rest P name bs done rest p r =
    elim (Bool-cases (has_name name done || has_name name rest)) [
      | inl y ↦ rw y (All-add_to P name bs rest r)
      | inr n ↦ rw n (
          All-append (λ (f : Function). P f.name) rest (record { name = name; blocks = bs } ∷ []) r
            (p, tt))
    ]

-- The loop has listed a function that it rewrites.
abbrev pub Listed : List String → String → Type 0
Listed erase name = rewrites name ≡ true → listed name erase ≡ true

listed-more :
    (x y : String) (xs : List String) → listed x xs ≡ true → listed x (xs ++ y ∷ []) ≡ true
listed-more x y [] h = cc
listed-more x y (z ∷ xs) h = ground (arith, listed-more x y xs)

listed-last : (x : String) (xs : List String) → listed x (xs ++ x ∷ []) ≡ true
listed-last x [] = ground (arith, eq_iff x x)
listed-last x (z ∷ xs) = ground (arith, listed-last x xs)

Listed-append :
    (x : String) (erase : List String) (done : Module)
    → All (λ g. Listed erase g.name) done
    → All (λ g. Listed (erase ++ x ∷ []) g.name) done
Listed-append x erase done l =
    All-imp (λ (g : Function). Listed erase g.name) (λ g. Listed (erase ++ x ∷ []) g.name) done
      (λ g k z. listed-more g.name x erase (k z)) l

work-le : (m : Module) → work m ≤ length m + length m
work-le [] = omega arith
work-le (f ∷ m) = elim (Bool-cases (rewrites f.name)) [
  | inl y ↦ rw y (omega (arith, work-le m))
  | inr n ↦ rw n (omega (arith, work-le m))
]

-- What is not erased is not to be rewritten.
kept_plain :
    (erase : List String) (m : Module)
    → All (λ f. Listed erase f.name) m
    → All (λ f. rewrites f.name ≡ false) (filter (λ f. not (listed f.name erase)) m)
kept_plain erase [] h = tt
kept_plain erase (f ∷ m) (h, hs) = elim (Bool-cases (listed f.name erase)) [
  | inl y ↦ rw y (kept_plain erase m hs)
  | inr n ↦ elim (Bool-cases (rewrites f.name)) [
    | inl z ↦ absurd (ground (arith, h z))
    | inr z ↦ rw n (z, kept_plain erase m hs)
  ]
]

two :
    (name : String) (w fuel : ℕ)
    → rewrites name ≡ true
    → (if rewrites name then 2 else 1) + w ≤ suc fuel
    → w + 1 ≤ fuel
two name w fuel y h = let k = rw y at h in omega arith

one :
    (name : String) (w fuel : ℕ)
    → rewrites name ≡ false
    → (if rewrites name then 2 else 1) + w ≤ suc fuel
    → w ≤ fuel
one name w fuel n h = let k = rw n at h in omega arith

module _ (clone : Function → List Block) (arg_count : String → ℕ) where
  skip_step :
      (fuel : ℕ) (done rest : Module) (f : Function) (erase : List String)
      → rewrites f.name ≡ false
      → rewrite_functions clone arg_count (suc fuel) done (f ∷ rest) erase
        ≡ rewrite_functions clone arg_count fuel (done ++ f ∷ []) rest erase
  unfolding rewrite_functions
  skip_step fuel done rest f erase n = rw (n, rewrite_functions) refl

  rewrite_step :
      (fuel : ℕ) (done rest : Module) (f : Function) (erase : List String)
      → rewrites f.name ≡ true
      → arg_count f.name ≡ 1
      → let r = insert_function (void_name f.name) (fake_returns (clone f)) done rest in
        rewrite_functions clone arg_count (suc fuel) done (f ∷ rest) erase
        ≡ rewrite_functions clone arg_count fuel (r.0 ++ f ∷ []) r.1 (erase ++ f.name ∷ [])
  unfolding rewrite_functions
  rewrite_step fuel done rest f erase y a = rw (y, rewrite_functions, a) refl

  rewrite_functions-Listed :
      (fuel : ℕ) (done rest : Module) (erase : List String)
      → work rest ≤ fuel
      → All (λ f. Ready arg_count f.name) rest
      → All (λ f. Listed erase f.name) done
      → (r : Module × List String) × (rewrite_functions clone arg_count fuel done rest erase
          ≡ some r)
        × All (λ f. Listed r.1 f.name) r.0
  unfolding rewrite_functions
  rewrite_functions-Listed fuel done [] erase h v l = ((done, erase), refl, l)
  rewrite_functions-Listed zero done (f ∷ rest) erase h v l = absurd (ground arith)
  rewrite_functions-Listed (suc fuel) done (f ∷ rest) erase h (v, vs) l =
      elim (Bool-cases (rewrites f.name)) [
        | inl y ↦
            let name = void_name f.name in
            let bs = fake_returns (clone f) in
            let r = insert_function name bs done rest in
            let plain : rewrites name ≡ false = v.0 y in
            let now = erase ++ f.name ∷ [] in
            let (s, e, k) =
              rewrite_functions-Listed fuel (r.0 ++ f ∷ []) r.1 now
                (omega (
                  arith,
                  insert_function-work name bs done rest plain,
                  two f.name (work rest) fuel y h,
                ))
                (insert_function-rest (Ready arg_count) name bs done rest
                  (λ z. cc (plain, z), λ z. cc (plain, z)) vs)
                (All-append (λ (g : Function). Listed now g.name) r.0 (f ∷ [])
                  (insert_function-done (Listed now) name bs done rest
                    (Listed-append f.name erase done l))
                  (λ _. listed-last f.name erase, tt)) in
            (s, rewrite_step fuel done rest f erase y (v.1 y) ∙ e, k)
        | inr n ↦
            let (r, e, k) =
              rewrite_functions-Listed fuel (done ++ f ∷ []) rest erase
                (one f.name (work rest) fuel n h) vs
                (All-append (λ (g : Function). Listed erase g.name) done (f ∷ []) l
                  (λ z. cc (n, z), tt)) in
            (r, skip_step fuel done rest f erase n ∙ e, k)
      ]

  -- If each translated block of the module has one argument, and the name void- and its own is that of
  -- no function to rewrite, then no assertion fails, the pass ends, although it visits the functions that it adds, and leaves no translated block
  -- that is not rewritten.
  pub transform_to_void-rewrites :
      (m : Module)
      → All (λ f. Ready arg_count f.name) m
      → (r : Module × Bool) × (transform_to_void clone arg_count m ≡ some r)
        × All (λ f. rewrites f.name ≡ false) r.0
  unfolding transform_to_void
  transform_to_void-rewrites m v =
      let (r, e, k) = rewrite_functions-Listed (length m + length m) [] m [] (work-le m) v tt in
      (
        (filter (λ f. not (listed f.name r.1)) r.0, (elim r.1 [ [] ↦ false | _ ∷ _ ↦ true ])),
        rw e refl,
        kept_plain r.1 r.0 k,
      )
