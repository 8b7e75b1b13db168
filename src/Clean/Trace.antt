-- ===== src/Clean/Trace.antt =====
-- RemoveBranchTrace::runOnFunction and S2EDeleteInstructionCountPass::runOnFunction.
use bin2llvm.Base.{
  Bool, true, false, not, ◌||◌, ◌&&◌, List, [], ◌∷◌, Option, some, none, String, str_eq, eq_iff,
  ◌==◌, map, filter, if◌then◌else◌, ◌≡◌, ◌∙◌, refl, sym, arith, Bool-cases, inl, inr, All, All-imp,
}
use bin2llvm.Ir.{Value, const_int, global_var, cast_expr, Op, store, call, Inst, Block, Function}
use bin2llvm.Clean.{erase, erases, erase_block, or_else, or_else-none}

-- A store of 0 or 1 through a cast of a constant to i8*.
abbrev pub stores_flag : Op → Bool
stores_flag (store (const_int n) (cast_expr true to)) = n == 0 || n == 1
stores_flag _ = false

abbrev pub is_branch_trace : Inst → Bool
is_branch_trace i = stores_flag i.op

unfoldable pub remove_branch_trace : Function → Function × Bool
remove_branch_trace f = (erase is_branch_trace f, erases is_branch_trace f)

-- The globals of S2E that count instructions.
abbrev pub is_counter : String → Bool
is_counter g = str_eq g "s2e_icount" || str_eq g "s2e_current_tb" || str_eq g "s2e_icount_before_tb"

abbrev pub counts : Op → Bool
counts (store v (global_var g)) = is_counter g
counts (call f args) = str_eq f "helper_s2e_tcg_execution_handler"
counts _ = false

abbrev pub is_count : Inst → Bool
is_count i = counts i.op

unfoldable pub delete_instruction_count : Function → Function × Bool
delete_instruction_count f = (erase is_count f, true)

-- The value that an instruction writes to a global, directly or through a cast of its address.
abbrev pub written : String → Op → Option Value
written g (store v (global_var h)) = if str_eq h g then some v else none
written g (store v (cast_expr b (some h))) = if str_eq h g then some v else none
written g _ = none

-- The last value that a block writes to a global.
abbrev pub last_written : String → List Inst → Option Value
last_written g [] = none
last_written g (i ∷ is) = or_else (last_written g is) (written g i.op)

abbrev pub writes : String → List Block → List (Option Value)
writes g bs = map (λ b. last_written g b.insts) bs

-- A store of 0 or 1 to a global through a cast of its address to i8*.
abbrev pub sets_flag : String → Op → Bool
sets_flag g (store (const_int n) (cast_expr true (some h))) = str_eq h g && (n == 0 || n == 1)
sets_flag g _ = false

abbrev pub NoFlag : String → Inst → Type 0
NoFlag g i = sets_flag g i.op ≡ false

flag_no_write :
    (g : String) (op : Op) → stores_flag op ≡ true → sets_flag g op ≡ false → written g op ≡ none
flag_no_write g (store (const_int n) (cast_expr true (some h))) e k = ground arith
flag_no_write g (store (const_int n) (cast_expr true none)) e k = refl
flag_no_write g _ e k = ground arith

count_no_write :
    (g : String) → is_counter g ≡ false → (op : Op) → counts op ≡ true → written g op ≡ none
count_no_write g h (store v (global_var c)) e = elim (Bool-cases (str_eq c g)) [
  | inr n ↦ rw n refl
  | inl y ↦
      absurd (
        let same : c ≡ g = (eq_iff c g).0 y in let h' : is_counter g ≡ true = rw (sym same) e in cc)
]
count_no_write g h _ e = ground arith

-- What writes nothing can go.
last_written-filter :
    (g : String) (p : Inst → Bool) (is : List Inst)
    → All (λ i. p i ≡ true → written g i.op ≡ none) is
    → last_written g (filter (λ i. not (p i)) is) ≡ last_written g is
last_written-filter g p [] h = refl
last_written-filter g p (i ∷ is) (h, hs) = elim (Bool-cases (p i)) [
  | inl e ↦ rw (e, last_written-filter g p is hs, h e) (sym (or_else-none (last_written g is)))
  | inr e ↦ rw (e, last_written-filter g p is hs) refl
]

writes-erase :
    (g : String) (p : Inst → Bool) (bs : List Block)
    → All (λ (b : Block). All (λ (i : Inst). p i ≡ true → written g i.op ≡ none) b.insts) bs
    → writes g (map (erase_block p) bs) ≡ writes g bs
writes-erase g p [] h = refl
writes-erase g p (b ∷ bs) (h, hs) =
    rw (last_written-filter g p b.insts h, writes-erase g p bs hs) refl

All-of :
    (P : Inst → Type 0)
    → ((i : Inst) → P i)
    → (bs : List Block) → All (λ (b : Block). All P b.insts) bs
All-of P h [] = tt
All-of P h (b ∷ bs) = (each b.insts, All-of P h bs)
  where
    each : (is : List Inst) → All P is
    each [] = tt
    each (i ∷ is) = (h i, each is)

-- Whatever the two passes erase, the last value that each block writes to a global, directly or
-- through a cast, is as before. This holds for every global but the three counters of the emulator,
-- if no 0 or 1 is stored to it through a cast of its address to i8*: such stores go too.
pub cleaned_registers :
    (g : String) (f : Function)
    → is_counter g ≡ false
    → All (λ (b : Block). All (NoFlag g) b.insts) f.blocks
    → writes g (delete_instruction_count (remove_branch_trace f).0).0.blocks ≡ writes g f.blocks
unfolding delete_instruction_count remove_branch_trace
cleaned_registers g f h k =
    writes-erase g is_count (remove_branch_trace f).0.blocks (
      All-of (λ i. is_count i ≡ true → written g i.op ≡ none) (λ i e. count_no_write g h i.op e)
        (remove_branch_trace f).0.blocks)
    ∙ writes-erase g is_branch_trace f.blocks (
        All-imp (λ (b : Block). All (NoFlag g) b.insts)
          (λ (b : Block).
            All (λ (i : Inst). is_branch_trace i ≡ true → written g i.op ≡ none) b.insts)
          f.blocks
          (λ b.
            All-imp (NoFlag g) (λ (i : Inst). is_branch_trace i ≡ true → written g i.op ≡ none)
              b.insts (λ i n e. flag_no_write g i.op e n))
          k)
