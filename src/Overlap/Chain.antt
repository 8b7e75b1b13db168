-- ===== src/Overlap/Chain.antt =====
-- The functions of one overlap, after each has been cut at the start of the next one.
use bin2llvm.Base.{
  ℕ, zero, suc, ◌<◌, List, [], ◌∷◌, some, String, get_elem?, ◌≡◌, ◌≢◌, refl, ◌∙◌, sym, ap, subst,
  In, here, there,
}
use bin2llvm.Base.Abort.{>>=-eq-some, some_inj}
use bin2llvm.Hex.{Text}
use bin2llvm.Ir.{Function, Module}
use bin2llvm.Ir.Meta.{get_pc_start_of_func}
use bin2llvm.Overlap.{replace, truncate_func_and_link_with, truncate_list}
use bin2llvm.Overlap.Cut.{Cut, truncate-Cut}

-- No position stands twice in the list.
abbrev pub Distinct : List ℕ → Type 0
Distinct [] = Unit
Distinct (i ∷ is) = (¬ In i is) × Distinct is

-- The function c is what the function a is left with, since b starts inside it.
pub record CutAt (a b c : Function) : Type 0 where
  pub pc_a : ℕ
  pub pc_b : ℕ
  pub starts_a : get_pc_start_of_func a ≡ some pc_a
  pub starts_b : get_pc_start_of_func b ≡ some pc_b
  pub before : pc_a < pc_b
  pub cut : Cut pc_b a.blocks c.blocks

-- From the module m to the module n, each function of the list is cut at the start of the next one, and
-- the last one stays.
abbrev pub Chain : Module → Module → List ℕ → Type 0
Chain m n [] = Unit
Chain m n (i ∷ []) = get_elem? n i ≡ get_elem? m i
Chain m n (i ∷ j ∷ js) =
    ((a : Function) × (b : Function) × (c : Function) × (get_elem? m i ≡ some a)
      × (get_elem? m j ≡ some b)
      × (get_elem? n i ≡ some c)
      × CutAt a b c)
    × Chain m n (j ∷ js)

get_elem?-replace :
    (i : ℕ) (f g : Function) (m : Module)
    → get_elem? m i ≡ some f
    → get_elem? (replace i g m) i ≡ some g
get_elem?-replace i f g [] e = cc
get_elem?-replace zero f g (x ∷ m) e = refl
get_elem?-replace (suc i) f g (x ∷ m) e = get_elem?-replace i f g m e

get_elem?-replace_other :
    (i k : ℕ) (g : Function) (m : Module) → k ≢ i → get_elem? (replace i g m) k ≡ get_elem? m k
get_elem?-replace_other i k g [] h = refl
get_elem?-replace_other zero zero g (x ∷ m) h = absurd (h refl)
get_elem?-replace_other zero (suc k) g (x ∷ m) h = refl
get_elem?-replace_other (suc i) zero g (x ∷ m) h = refl
get_elem?-replace_other (suc i) (suc k) g (x ∷ m) h =
    get_elem?-replace_other i k g m (λ e. h (ap suc e))

Chain-agree :
    (m m' n : Module) (l : List ℕ)
    → ((k : ℕ) → In k l → get_elem? m' k ≡ get_elem? m k)
    → Chain m' n l
    → Chain m n l
Chain-agree m m' n [] h c = tt
Chain-agree m m' n (i ∷ []) h c = c ∙ h i (here refl)
Chain-agree m m' n (i ∷ j ∷ js) h ((a, b, c, ea, eb, ec, at), rest) = (
  (a, b, c, sym (h i (here refl)) ∙ ea, sym (h j (there (here refl))) ∙ eb, ec, at),
  Chain-agree m m' n (j ∷ js) (λ k x. h k (there x)) rest,
)

-- One step of the loop.
step :
    (to_string : Text → String) (m n : Module) (i j : ℕ) (js : List ℕ)
    → truncate_list to_string m (i ∷ j ∷ js) ≡ some n
    → (a : Function) × (b : Function) × (c : Function) × (get_elem? m i ≡ some a)
      × (get_elem? m j ≡ some b)
      × CutAt a b c
      × (truncate_list to_string (replace i c m) (j ∷ js) ≡ some n)
unfolding truncate_list
step to_string m n i j js e =
    let (a, ea, e1) = >>=-eq-some (get_elem? m i) _ e in
    let (b, eb, e2) = >>=-eq-some (get_elem? m j) _ e1 in
    let (c, ec, e3) = >>=-eq-some (truncate_func_and_link_with to_string a b) _ e2 in
    let (pc_a, pc_b, sa, sb, lt, cut) = truncate-Cut to_string a b c ec in
    (
      a,
      b,
      c,
      ea,
      eb,
      record { pc_a = pc_a; pc_b = pc_b; starts_a = sa; starts_b = sb; before = lt; cut = cut },
      e3,
    )

-- The other functions stay.
truncate_list-other :
    (to_string : Text → String) (m n : Module) (l : List ℕ) (k : ℕ)
    → ¬ In k l
    → truncate_list to_string m l ≡ some n
    → get_elem? n k ≡ get_elem? m k
unfolding truncate_list
truncate_list-other to_string m n [] k h e = rw (some_inj e) refl
truncate_list-other to_string m n (i ∷ []) k h e = rw (some_inj e) refl
truncate_list-other to_string m n (i ∷ j ∷ js) k h e =
    let (a, b, c, ea, eb, at, rest) = step to_string m n i j js e in
    truncate_list-other to_string (replace i c m) n (j ∷ js) k (λ x. h (there x)) rest
    ∙ get_elem?-replace_other i k c m (λ x. h (here x))

-- Where the loop over the functions of one overlap succeeds, each function but the last starts before
-- the next one, is cut at its start and linked with it; the last one and every function that is not in
-- the list stay. No function is in the list twice.
pub truncate_list-Chain :
    (to_string : Text → String) (m n : Module) (l : List ℕ) (k : ℕ)
    → Distinct l
    → ¬ In k l
    → truncate_list to_string m l ≡ some n
    → Chain m n l × (get_elem? n k ≡ get_elem? m k)
unfolding truncate_list
truncate_list-Chain to_string m n l k d h e =
    (chain m l d e, truncate_list-other to_string m n l k h e)
  where
    chain :
        (m : Module) (l : List ℕ) → Distinct l → truncate_list to_string m l ≡ some n → Chain m n l
    chain m [] d e = tt
    chain m (i ∷ []) d e = rw (some_inj e) refl
    chain m (i ∷ j ∷ js) d e =
        let (a, b, c, ea, eb, at, rest) = step to_string m n i j js e in
        let now =
          truncate_list-other to_string (replace i c m) n (j ∷ js) i d.0 rest
          ∙ get_elem?-replace i a c m ea in
        let deeper = chain (replace i c m) (j ∷ js) d.1 rest in
        (
          (a, b, c, ea, eb, now, at),
          Chain-agree m (replace i c m) n (j ∷ js)
              (λ k x. get_elem?-replace_other i k c m (λ y. d.0 (subst (λ z. In z (j ∷ js)) y x)))
              deeper,
        )
