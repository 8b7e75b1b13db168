-- ===== src/Rebuild/Functions/Moves.antt =====
-- The moves end: each enters a block that is not yet in the new function.
use bin2llvm.Base.{
  ℕ, zero, suc, ◌+◌, ◌*◌, ◌≤◌, Bool, true, false, not, List, [], ◌∷◌, ◌++◌, Option, none, some,
  if◌then◌else◌, ◌==◌, ==_iff, ◌≡◌, refl, ◌∙◌, sym, ap, subst, arith, All, All-append, length,
  length-append, Bool-cases, inl, inr,
}
use bin2llvm.Base.Abort.{◌>>=◌, >>=-eq-some, some_inj}
use bin2llvm.Rebuild.Graph.{Node, find_node, last_term, update, append_term, term_of, preds}
use bin2llvm.Rebuild.Functions.{
  entry_of, single, place, follows, is_bb, move_block, move_blocks, term_sizes, span,
}

-- The number of blocks outside of a function.
abbrev outside : ℕ → List Node → ℕ
outside f [] = 0
outside f (n ∷ ns) = (if n.parent == f then 0 else 1) + outside f ns

-- No terminator has more successors.
abbrev Short : ℕ → List Node → Type 0
Short w ns = All (λ (n : Node). All (λ (t : List ℕ). length t ≤ w) n.terms) ns

term_sizes-All :
    (w : ℕ) (ts : List (List ℕ)) → term_sizes ts ≤ w → All (λ (t : List ℕ). length t ≤ w) ts
term_sizes-All w [] h = tt
term_sizes-All w (t ∷ ts) h = (omega arith, term_sizes-All w ts (omega arith))

span-Short : (w : ℕ) (ns : List Node) → span ns ≤ w → Short w ns
span-Short w [] h = tt
span-Short w (n ∷ ns) h = (term_sizes-All w n.terms (omega arith), span-Short w ns (omega arith))

span_pos : (ns : List Node) → 1 ≤ span ns
span_pos [] = omega arith
span_pos (n ∷ ns) = omega (arith, span_pos ns)

update-Short :
    (w l : ℕ) (g : Node → Node) (ns : List Node)
    → ((n : Node)
        → All (λ (t : List ℕ). length t ≤ w) n.terms
        → All (λ (t : List ℕ). length t ≤ w) (g n).terms)
    → Short w ns
    → Short w (update l g ns)
unfolding update
update-Short w l g [] k h = tt
update-Short w l g (n ∷ ns) k (h, hs) = elim (Bool-cases (n.label == l)) [
  | inl y ↦ rw y (k n h, update-Short w l g ns k hs)
  | inr o ↦ rw o (h, update-Short w l g ns k hs)
]

last_term-le :
    (w : ℕ) (ts : List (List ℕ)) (ss : List ℕ)
    → All (λ (t : List ℕ). length t ≤ w) ts
    → last_term ts ≡ some ss
    → length ss ≤ w
unfolding last_term
last_term-le w [] ss h e = absurd (ground arith)
last_term-le w (t ∷ []) ss h e = subst (λ (x : List ℕ). length x ≤ w) (some_inj e) h.0
last_term-le w (t ∷ u ∷ ts) ss h e = last_term-le w (u ∷ ts) ss h.1 e

term_of-le :
    (w b : ℕ) (ns : List Node) (ss : List ℕ) → Short w ns → term_of b ns ≡ some ss → length ss ≤ w
unfolding term_of find_node
term_of-le w b [] ss h e = absurd (ground arith)
term_of-le w b (n ∷ ns) ss (h, hs) e = elim (Bool-cases (n.label == b)) [
  | inl y ↦ last_term-le w n.terms ss h (rw y at e)
  | inr o ↦ term_of-le w b ns ss hs (rw o at e)
]

-- A new terminator moves nothing.
outside-append :
    (f e : ℕ) (t : List ℕ) (ns : List Node) → outside f (update e (append_term t) ns) ≡ outside f ns
unfolding update
outside-append f e t [] = refl
outside-append f e t (n ∷ ns) = elim (Bool-cases (n.label == e)) [
  | inl y ↦ rw y (ap (λ x. (if n.parent == f then 0 else 1) + x) (outside-append f e t ns))
  | inr o ↦ rw o (ap (λ x. (if n.parent == f then 0 else 1) + x) (outside-append f e t ns))
]

-- The first block with this label is in another function.
abbrev IsAway : ℕ → ℕ → List Node → Type 0
IsAway f b ns = (n : Node) × (find_node b ns ≡ some n) × ((n.parent == f) ≡ false)

IsAway-append :
    (f b e : ℕ) (t : List ℕ) (ns : List Node)
    → IsAway f b ns
    → IsAway f b (update e (append_term t) ns)
unfolding update find_node
IsAway-append f b e t [] (m, h, p) = absurd (ground arith)
IsAway-append f b e t (n ∷ ns) (m, h, p) = elim (Bool-cases (n.label == b)) [
  | inl z ↦ elim (Bool-cases (n.label == e)) [
    | inl y ↦
        rw (y, z)
          (
            append_term t n,
            refl,
            subst (λ (x : Node). (x.parent == f) ≡ false) (sym (some_inj (rw z at h))) p,
          )
    | inr o ↦
        rw (o, z)
          (n, refl, subst (λ (x : Node). (x.parent == f) ≡ false) (sym (some_inj (rw z at h))) p)
  ]
  | inr u ↦ elim (Bool-cases (n.label == e)) [
    | inl y ↦ rw (y, u) (IsAway-append f b e t ns (m, rw u at h, p))
    | inr o ↦ rw (o, u) (IsAway-append f b e t ns (m, rw u at h, p))
  ]
]

place-le : (f b : ℕ) (ns : List Node) → outside f (update b (place f) ns) ≤ outside f ns
unfolding update
place-le f b [] = omega arith
place-le f b (n ∷ ns) = elim (Bool-cases (n.label == b)) [
  | inl y ↦ rw (y, (==_iff f f).1 refl) (omega (arith, place-le f b ns))
  | inr o ↦ rw o (omega (arith, place-le f b ns))
]

outside-place :
    (f b : ℕ) (ns : List Node)
    → IsAway f b ns
    → suc (outside f (update b (place f) ns)) ≤ outside f ns
unfolding update find_node
outside-place f b [] (m, h, p) = absurd (ground arith)
outside-place f b (n ∷ ns) (m, h, p) = elim (Bool-cases (n.label == b)) [
  | inl y ↦
      rw
        (
          y,
          (==_iff f f).1 refl,
          subst (λ (x : Node). (x.parent == f) ≡ false) (sym (some_inj (rw y at h))) p,
        )
        (omega (arith, place-le f b ns))
  | inr o ↦ rw o (omega (arith, outside-place f b ns (m, rw o at h, p)))
]

outside-length : (f : ℕ) (ns : List Node) → outside f ns ≤ length ns
outside-length f [] = omega arith
outside-length f (n ∷ ns) = elim (Bool-cases (n.parent == f)) [
  | inl y ↦ rw y (omega (arith, outside-length f ns))
  | inr o ↦ rw o (omega (arith, outside-length f ns))
]

-- The runs of a body on the value of a step that does not stop.
>>=-cong {ℓ κ} :
    {A : Type ℓ} {B : Type κ} (m : Option A) {f g : A → Option B}
    → ((a : A) → m ≡ some a → f a ≡ g a)
    → (m >>= f) ≡ (m >>= g)
>>=-cong none h = refl
>>=-cong (some a) h = h a refl

-- A block is moved, and perhaps the entry block gets a jump to it.
placed-outside :
    (w b f : ℕ) (ns : List Node)
    → Short w ns
    → IsAway f b ns
    → (suc (outside f (update b (place f) ns)) ≤ outside f ns) × Short w (update b (place f) ns)
placed-outside w b f ns h away =
    (outside-place f b ns away, update-Short w b (place f) ns (λ n k. k) h)

jumped-outside :
    (w b f e : ℕ) (ns : List Node)
    → 1 ≤ w
    → Short w ns
    → IsAway f b ns
    → (suc (outside f (update b (place f) (update e (append_term (b ∷ [])) ns))) ≤ outside f ns)
      × Short w (update b (place f) (update e (append_term (b ∷ [])) ns))
jumped-outside w b f e ns lw h away =
    let jump = update e (append_term (b ∷ [])) ns in
    let h2 =
      update-Short w e (append_term (b ∷ [])) ns
        (λ n k. All-append (λ (t : List ℕ). length t ≤ w) n.terms ((b ∷ []) ∷ []) k (lw, tt)) h in
    rw (sym (outside-append f e (b ∷ []) ns))
      (placed-outside w b f jump h2 (IsAway-append f b e (b ∷ []) ns away))

branch-outside :
    (w b f : ℕ) (ns moved : List Node) (inside here : Bool)
    → 1 ≤ w
    → Short w ns
    → IsAway f b ns
    → (if inside
        then some (update b (place f) ns)
        else if here
        then some (update b (place f) ns)
        else (entry_of f ns >>= λ e.
            some (update b (place f) (update e (append_term (b ∷ [])) ns))))
      ≡ some moved
    → (suc (outside f moved) ≤ outside f ns) × Short w moved
branch-outside w b f ns moved true here lw h away q =
    subst (λ x. (suc (outside f x) ≤ outside f ns) × Short w x) (some_inj q)
      (placed-outside w b f ns h away)
branch-outside w b f ns moved false true lw h away q =
    subst (λ x. (suc (outside f x) ≤ outside f ns) × Short w x) (some_inj q)
      (placed-outside w b f ns h away)
branch-outside w b f ns moved false false lw h away q =
    let (e, ee, r) = >>=-eq-some (entry_of f ns) _ q in
    subst (λ x. (suc (outside f x) ≤ outside f ns) × Short w x) (some_inj r)
      (jumped-outside w b f e ns lw h away)

times_le : (x y w : ℕ) → x ≤ y → x * w ≤ y * w
times_le zero y w h = omega arith
times_le (suc x) zero w h = absurd (omega arith)
times_le (suc x) (suc y) w h = omega (arith, times_le x y w (omega arith))

-- The fuel that the successors of a moved block need.
room : (fuel l s o p w : ℕ) → suc l + p * w ≤ suc fuel → suc o ≤ p → s ≤ w → s + l + o * w ≤ fuel
room fuel l s o p w h g k = omega (arith, times_le (suc o) p w g)

-- A move leaves one block less outside of the function.
move_block-outside :
    (w b f : ℕ) (ns moved : List Node)
    → 1 ≤ w
    → Short w ns
    → IsAway f b ns
    → move_block b f ns ≡ some moved
    → (suc (outside f moved) ≤ outside f ns) × Short w moved
unfolding move_block
move_block-outside w b f ns moved lw h away e =
    let (n, en, r) = >>=-eq-some (find_node b ns) _ e in
    let (here, eh, q) = >>=-eq-some (follows f (single (preds b ns)) ns) _ r in
    branch-outside w b f ns moved (not (is_bb n.kind)) here lw h away q

move_blocks-suc :
    (w fuel : ℕ) (bs : List ℕ) (f : ℕ) (ns : List Node)
    → 1 ≤ w
    → Short w ns
    → length bs + outside f ns * w ≤ fuel
    → move_blocks (suc fuel) bs f ns ≡ move_blocks fuel bs f ns
unfolding move_blocks
move_blocks-suc w fuel [] f ns lw h e = refl
move_blocks-suc w zero (b ∷ bs) f ns lw h e = absurd (omega arith)
move_blocks-suc w (suc fuel) (b ∷ bs) f ns lw h e = >>=-cong (find_node b ns) λ n en.
    elim (Bool-cases (n.parent == f)) [
      | inl y ↦ rw y (move_blocks-suc w fuel bs f ns lw h (omega arith))
      | inr o ↦ rw o (
          >>=-cong (move_block b f ns) λ moved em. >>=-cong (term_of b moved) λ ss es.
            let (le, h2) = move_block-outside w b f ns moved lw h (n, en, o) em in
            move_blocks-suc w fuel (ss ++ bs) f moved lw h2 (
              rw (length-append ss bs) (
                room fuel (length bs) (length ss) (outside f moved) (outside f ns) w e le
                  (term_of-le w b moved ss h2 es))))
    ]

-- The fuel that the moves are given is enough.
take_over-moves :
    (extra head f : ℕ) (ns : List Node)
    → move_blocks (extra + suc (length ns * span ns)) (head ∷ []) f ns
      ≡ move_blocks (suc (length ns * span ns)) (head ∷ []) f ns
take_over-moves zero head f ns = ap (λ k. move_blocks k (head ∷ []) f ns) (omega arith)
take_over-moves (suc extra) head f ns =
    let enough = suc (length ns * span ns) in
    ap (λ k. move_blocks k (head ∷ []) f ns) {x = suc extra + enough} {y = suc (extra + enough)}
      (omega arith)
    ∙ move_blocks-suc (span ns) (extra + enough) (head ∷ []) f ns (span_pos ns)
        (span-Short (span ns) ns (omega arith))
        (omega (arith, times_le (outside f ns) (length ns) (span ns) (outside-length f ns)))
    ∙ take_over-moves extra head f ns
