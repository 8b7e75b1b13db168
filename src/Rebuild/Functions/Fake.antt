-- ===== src/Rebuild/Functions/Fake.antt =====
-- The function that getOrCreateFunction makes of a block that other code leads to.
use bin2llvm.Base.{
  ℕ, Bool, true, false, ◌&&◌, List, [], ◌∷◌, none, some, ◌≡◌, ◌≢◌, refl, ◌∙◌, ap, subst, In, here,
  In-cons, not-In-nil, Bool-cases, Option-cases, inl, inr, ◌==◌,
}
use bin2llvm.Base.Map.{find}
use bin2llvm.Base.Abort.{some_inj}
use bin2llvm.Ir.Pc.{is_some}
use bin2llvm.Rebuild.Graph.{Node, Built, key, uses, users, find_node, last_term, term_of}
use bin2llvm.Rebuild.Validate.{validate_move}
use bin2llvm.Rebuild.Validate.Enclosed.{and-left, and-right, Leads}
use bin2llvm.Rebuild.Validate.Led.{validate_move-Leads}
use bin2llvm.Rebuild.Functions.{declare, as_fake, create_function, get_or_create_function}

-- The blocks have terminators.
abbrev pub all_end : List Node → List ℕ → Bool
all_end ns [] = true
all_end ns (c ∷ cs) = is_some (term_of c ns) && all_end ns cs

-- The successors of the blocks have terminators.
abbrev pub succs_end : List Node → List Node → Bool
succs_end ns [] = true
succs_end ns (n ∷ ms) =
    elim (last_term n.terms) [ none ↦ true | some ss ↦ all_end ns ss ] && succs_end ns ms

users-nil : (e : ℕ) (ns : List Node) → users e ns ≡ [] → (n : Node) → In n ns → uses e n ≡ false
users-nil e [] h n m = absurd (not-In-nil n m)
users-nil e (x ∷ ns) h n m = elim (Bool-cases (uses e x)) [
  | inl y ↦ cc (rw y at h)
  | inr o ↦ elim (In-cons n x ns m) [
    | inl same ↦ ap (uses e) same ∙ o
    | inr k ↦ users-nil e ns (rw o at h) n k
  ]
]

all_end-term_of :
    (ns : List Node) (c : ℕ) (cs : List ℕ)
    → all_end ns cs ≡ true
    → In c cs
    → (ts : List ℕ) × (term_of c ns ≡ some ts)
all_end-term_of ns c [] h m = absurd (not-In-nil c m)
all_end-term_of ns c (d ∷ cs) h m = elim (Option-cases (term_of d ns)) [
  | inl e ↦ cc (rw e at h)
  | inr (ts, e) ↦ elim (In-cons c d cs m) [
    | inl same ↦ (ts, ap (λ x. term_of x ns) same ∙ e)
    | inr k ↦ all_end-term_of ns c cs (rw e at h) k
  ]
]

succs_end-term_of :
    (ns ms : List Node) (b c : ℕ) (ss : List ℕ)
    → succs_end ns ms ≡ true
    → term_of b ms ≡ some ss
    → In c ss
    → (ts : List ℕ) × (term_of c ns ≡ some ts)
unfolding term_of find_node
succs_end-term_of ns [] b c ss h e m = cc
succs_end-term_of ns (n ∷ ms) b c ss h e m = elim (Option-cases (last_term n.terms)) [
  | inl z ↦ elim (Bool-cases (n.label == b)) [
    | inl y ↦ cc (rw (y, z) at e)
    | inr o ↦ succs_end-term_of ns ms b c ss (rw z at h) (rw o at e) m
  ]
  | inr (ts, z) ↦ elim (Bool-cases (n.label == b)) [
    | inl y ↦
        let same : ts ≡ ss = some_inj (rw (y, z) at e) in
        all_end-term_of ns c ss (subst (λ l. all_end ns l ≡ true) same (and-left _ _ (rw z at h))) m
    | inr o ↦ succs_end-term_of ns ms b c ss (and-right _ _ (rw z at h)) (rw o at e) m
  ]
]

-- If no function is known at an address, the block that is known there is led to from another block
-- without uses, as the entry of a function is, and that block and the successors of all blocks have
-- terminators, then getOrCreateFunction ends, moves nothing and makes the new function a fake one,
-- which only returns.
pub get_or_create_function-as_fake :
    (a : ℕ) (s : Built) (e head : ℕ)
    → find (key a) s.functions ≡ none
    → find (key a) s.bbs ≡ some head
    → users e (declare (key a) s).nodes ≡ []
    → e ≢ head
    → Leads (declare (key a) s).nodes e head
    → all_end (declare (key a) s).nodes (head ∷ []) ≡ true
    → succs_end (declare (key a) s).nodes (declare (key a) s).nodes ≡ true
    → get_or_create_function a s
      ≡ some (s.next_function, as_fake (key a) s.next_function s.next_label (declare (key a) s))
unfolding get_or_create_function create_function
get_or_create_function-as_fake a s e head f h unused differ l first all =
    let ns = (declare (key a) s).nodes in
    let v : validate_move ns head ≡ some false =
      validate_move-Leads ns e head (users-nil e ns unused) differ l
        (all_end-term_of ns head (head ∷ []) first (here refl))
        (λ b c ss t m. succs_end-term_of ns ns b c ss all t m) in
    rw (get_or_create_function, f, create_function, h, v) refl
