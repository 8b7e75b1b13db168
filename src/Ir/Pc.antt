-- ===== src/Ir/Pc.antt =====
-- The casts by which the passes recognise a store to a register: dyn_cast<StoreInst>, then
-- dyn_cast<GlobalVariable> of operand 1 and its name, and dyn_cast<ConstantInt> of the value.
use text.Mathlib.Text.{find?}
use mathlib.Core.List.{map-append}
use bin2llvm.Base.{
  ℕ, ◌-◌, ◌%◌, Bool, true, false, List, [], ◌∷◌, ◌++◌, ◌≡◌, refl, sym, map, Option, none, some,
  String, str_eq, if◌then◌else◌, ◌||◌,
}
use bin2llvm.Ir.{Value, const_int, global_var, Op, store, ret, Inst, Block}

abbrev pub as_const : Value → Option ℕ
as_const (const_int n) = some n
as_const _ = none

-- The stored value, if this is a store to the global with this name.
abbrev pub stored_in : String → Op → Option Value
stored_in g (store v (global_var h)) = if str_eq h g then some v else none
stored_in g _ = none

abbrev pub pc_store : Inst → Option Value
pc_store i = stored_in "PC" i.op

abbrev pub lr_store : Inst → Option Value
lr_store i = stored_in "LR" i.op

abbrev pub is_some {ℓ} : {A : Type ℓ} → Option A → Bool
is_some none = false
is_some (some _) = true

-- std::strstr(name, part) != NULL
abbrev pub contains : String → String → Bool
contains name part = is_some (find? name part)

-- x & -2
abbrev pub clear_bit0 : ℕ → ℕ
clear_bit0 x = x - x % 2

-- The block ends in a ReturnInst: isa<ReturnInst>(bb->getTerminator()).
abbrev is_ret : Op → Bool
is_ret ret = true
is_ret _ = false

unfoldable pub ends_in_ret : List Inst → Bool
ends_in_ret [] = false
ends_in_ret (i ∷ []) = is_ret i.op
ends_in_ret (i ∷ j ∷ is) = ends_in_ret (j ∷ is)

-- Any element passes the test.
unfoldable pub any {ℓ} : {A : Type ℓ} → (A → Bool) → List A → Bool
any p [] = false
any p (x ∷ xs) = p x || any p xs

-- The instructions of a function, block after block.
abbrev pub all_insts : List Block → List Inst
all_insts [] = []
all_insts (b ∷ bs) = b.insts ++ all_insts bs

-- The text MDString::get(ctx, "true").
abbrev pub true_text : List ℕ
true_text = b't' ∷ b'r' ∷ b'u' ∷ b'e' ∷ []

-- A pass that changes each instruction by itself.
pub all_insts-map :
    (f : Inst → Inst) (g : Block → Block) (bs : List Block)
    → ((b : Block) → (g b).insts ≡ map f b.insts)
    → all_insts (map g bs) ≡ map f (all_insts bs)
all_insts-map f g [] h = refl
all_insts-map f g (b ∷ bs) h =
    rw (h b, all_insts-map f g bs h) (sym (map-append f b.insts (all_insts bs)))
