-- ===== src/Build/Fixup/Switched.antt =====
-- BuildFunctions::getValueSwitchedOn: the index of a jump table, found as the operand of a shift by 1
-- or 2 among the operands of the stored value. A value is looked for in the block only, and the
-- definition of an operand stands before its use there.
use bin2llvm.Base.{◌||◌, List, [], ◌∷◌, Option, none, some, if◌then◌else◌, ◌==◌}
use bin2llvm.Base.Abort.{◌>>=◌}
use bin2llvm.Ir.{
  Value, const_int, inst_ref, Op, store, load, binary, call, switch, other_inst, shl_op, Inst,
}

abbrev pub operands : Op → List Value
operands (store v p) = v ∷ p ∷ []
operands (load p) = p ∷ []
operands (binary o a b) = a ∷ b ∷ []
operands (call f args) = args
operands (switch v d cs) = v ∷ []
operands (other_inst vs) = vs
operands _ = []

-- What a search gives: `none` where it reads a null pointer, and `some none` where it finds nothing.
abbrev pub Found : Type 0
Found = Option (Option Value)

-- The first operand that gives a value.
pub first_found : (Value → Found) → List Value → Found
first_found f [] = some none
first_found f (v ∷ vs) = do r ← f v; elim r [ some w ↦ some (some w) | none ↦ first_found f vs ]

-- The shift: `w` is null, and is read, if operand 1 is no constant.
pub matched_shift : Op → Found
matched_shift (binary shl_op a (const_int w)) = some (if w == 1 || w == 2 then some a else none)
matched_shift (binary shl_op a b) = none
matched_shift _ = some none

-- `before` are the instructions of the block above the use, the nearest first.
pub value_switched_on : List Inst → Value → Found
unfolding first_found matched_shift
value_switched_on [] v = some none
value_switched_on (i ∷ before) (inst_ref n) =
    let deeper = value_switched_on before (inst_ref n) in
    if i.id == n
    then (do
      r ← matched_shift i.op
      elim r [
        | some w ↦ some (some w)
        | none ↦ first_found (value_switched_on before) (operands i.op)
      ])
    else deeper
value_switched_on (i ∷ before) v = some none

-- Of a store to PC.
unfoldable pub get_value_switched_on : List Inst → Inst → Found
unfolding value_switched_on
get_value_switched_on before i = elim (operands i.op) [
  | [] ↦ some none
  | v ∷ vs ↦ value_switched_on before v
]
