-- ===== src/Mark/Call/Exact.antt =====
-- Which stores to PC ARMMarkCall marks as calls.
use bin2llvm.Base.{
  ℕ, ◌+◌, ◌^◌, ◌<◌, Bool, false, ◌||◌, List, [], ◌∷◌, ◌++◌, Option, none, some, ◌==◌, if◌then◌else◌,
  ◌&&◌, not, ◌≡◌, refl, ap, arith, All, get_elem?, length, ◌∙◌,
}
use bin2llvm.Ir.{ins_direct_call, ins_indirect_call, Value, const_int, Inst}
use bin2llvm.Ir.Meta.{has_metadata, has_metadata-set_metadata}
use bin2llvm.Ir.Pc.{as_const, pc_store, lr_store, is_some}
use bin2llvm.Mark.Call.{
  LrState, no_lr, returns_to, next_lr, mark_as_call, mark_call_inst, mark_call_insts,
}
use bin2llvm.Mark.Call.Returns.{NoCall, LrFits, next_lr-fits}

-- The constant that the last such store to LR among these instructions puts there.
abbrev const_lr : Inst → Option ℕ
const_lr i = elim (lr_store i) [ none ↦ none | some v ↦ as_const v ]

abbrev or_else : Option ℕ → Option ℕ → Option ℕ
or_else (some a) b = some a
or_else none b = b

abbrev pub last_const_lr : List Inst → Option ℕ
last_const_lr [] = none
last_const_lr (i ∷ is) = or_else (last_const_lr is) (const_lr i)

abbrev seen : LrState → Option ℕ
seen st = if st.has_lr_store then some st.lr_val else none

abbrev after : LrState → List Inst → LrState
after st [] = st
after st (i ∷ is) = after (next_lr st i) is

seen-next_lr : (st : LrState) (i : Inst) → seen (next_lr st i) ≡ or_else (const_lr i) (seen st)
unfolding next_lr
seen-next_lr st i = go (lr_store i) refl
  where
    go : (o : Option Value) → lr_store i ≡ o → seen (next_lr st i) ≡ or_else (const_lr i) (seen st)
    go none e = ground arith
    go (some (const_int n)) e = ground arith
    go (some v) e = ground arith

or_else_assoc : (a b c : Option ℕ) → or_else a (or_else b c) ≡ or_else (or_else a b) c
or_else_assoc none b c = refl
or_else_assoc (some a) b c = refl

or_else-none : (a : Option ℕ) → or_else a none ≡ a
or_else-none none = refl
or_else-none (some a) = refl

seen-after :
    (st : LrState) (is : List Inst) → seen (after st is) ≡ or_else (last_const_lr is) (seen st)
seen-after st [] = refl
seen-after st (i ∷ is) =
    seen-after (next_lr st i) is
    ∙ ap (or_else (last_const_lr is)) (seen-next_lr st i)
    ∙ or_else_assoc (last_const_lr is) (const_lr i) (seen st)

get_elem-mark_call_insts :
    (pc_end : ℕ) (st : LrState) (xs ys : List Inst) (i : Inst)
    → get_elem? (mark_call_insts pc_end st (xs ++ i ∷ ys)) (length xs)
      ≡ some (mark_call_inst pc_end (after st xs) i)
unfolding mark_call_insts
get_elem-mark_call_insts pc_end st [] ys i = refl
get_elem-mark_call_insts pc_end st (x ∷ xs) ys i =
    get_elem-mark_call_insts pc_end (next_lr st x) xs ys i

-- A store to PC of a constant, and of any other value.
abbrev pub stores_const : Option Value → Bool
stores_const none = false
stores_const (some v) = is_some (as_const v)

abbrev pub stores_unknown : Option Value → Bool
stores_unknown none = false
stores_unknown (some v) = not (is_some (as_const v))

-- LR holds the end of the block, or that address with the thumb bit set.
abbrev pub holds_return : ℕ → Option ℕ → Bool
holds_return pc_end none = false
holds_return pc_end (some r) = r == pc_end || r == pc_end + 1

mark_as_call_marks :
    (lr_val : ℕ) (v : Value) (i : Inst)
    → NoCall i
    → (has_metadata (mark_as_call lr_val v i) ins_direct_call ≡ is_some (as_const v))
      × (has_metadata (mark_as_call lr_val v i) ins_indirect_call ≡ not (is_some (as_const v)))
unfolding mark_as_call
mark_as_call_marks lr_val (const_int n) i h = simp has_metadata-set_metadata (refl, h.1)
mark_as_call_marks lr_val v i h = simp has_metadata-set_metadata (h.0, refl)

mark_call_inst-exact :
    (pc_end : ℕ) (st : LrState) (i : Inst)
    → NoCall i
    → let called = st.has_lr_store && returns_to pc_end st.lr_val in
      let j = mark_call_inst pc_end st i in
      (has_metadata j ins_direct_call ≡ (stores_const (pc_store i) && called))
      × (has_metadata j ins_indirect_call ≡ (stores_unknown (pc_store i) && called))
unfolding mark_call_inst
mark_call_inst-exact pc_end st i h = go (pc_store i) refl
  where
    go :
        (o : Option Value)
        → pc_store i ≡ o
        → let called = st.has_lr_store && returns_to pc_end st.lr_val in
          let j = mark_call_inst pc_end st i in
          (has_metadata j ins_direct_call ≡ (stores_const o && called))
          × (has_metadata j ins_indirect_call ≡ (stores_unknown o && called))
    go none e = rw (e, mark_call_inst) h
    go (some (const_int n)) e =
        rw (e, mark_call_inst) (ground (arith, h, mark_as_call_marks st.lr_val (const_int n) i))
    go (some v) e = rw (e, mark_call_inst) (ground (arith, h, mark_as_call_marks st.lr_val v i))

returns_to-seen :
    (pc_end : ℕ) (st : LrState)
    → pc_end < 2 ^ 32
    → st.lr_val < 2 ^ 32
    → (st.has_lr_store && returns_to pc_end st.lr_val) ≡ holds_return pc_end (seen st)
unfolding returns_to
returns_to-seen pc_end st small lr = ground arith

after-fits :
    (st : LrState) (is : List Inst)
    → All LrFits is
    → st.lr_val < 2 ^ 32
    → (after st is).lr_val < 2 ^ 32
after-fits st [] h lr = lr
after-fits st (i ∷ is) h lr = after-fits (next_lr st i) is h.1 (next_lr-fits st i h.0 lr)

-- An instruction is marked as a direct or an indirect call exactly if it stores a constant, or
-- another value, to PC, and the last constant that was put into LR before it in its block is the
-- end of the block or that address plus one.
pub mark_call_exact :
    (pc_end : ℕ) (xs ys : List Inst) (i j : Inst)
    → pc_end < 2 ^ 32
    → All LrFits xs
    → NoCall i
    → get_elem? (mark_call_insts pc_end no_lr (xs ++ i ∷ ys)) (length xs) ≡ some j
    → let called = holds_return pc_end (last_const_lr xs) in
      (has_metadata j ins_direct_call ≡ (stores_const (pc_store i) && called))
      × (has_metadata j ins_indirect_call ≡ (stores_unknown (pc_store i) && called))
mark_call_exact pc_end xs ys i j small fits h e =
    let st = after no_lr xs in
    let same : j ≡ mark_call_inst pc_end st i =
      cc (get_elem-mark_call_insts pc_end no_lr xs ys i) in
    let called : (st.has_lr_store && returns_to pc_end st.lr_val)
        ≡ holds_return pc_end (last_const_lr xs) =
      returns_to-seen pc_end st small (after-fits no_lr xs fits (omega arith))
      ∙ ap (holds_return pc_end) (seen-after no_lr xs ∙ or_else-none (last_const_lr xs)) in
    rw (same, ← called) (mark_call_inst-exact pc_end st i h)
