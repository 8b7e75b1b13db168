-- ===== src/Inline/Tests.antt =====
-- A function that calls helpers, of which nothing is known.
use bin2llvm.Base.{ℕ, List, [], ◌∷◌, Option, none, ◌≡◌, refl, String}
use bin2llvm.Ir.{Inst, Function, call}
use bin2llvm.Inline.{inline_helpers, should_inline_call}
use bin2llvm.Inline.Ends.{inline_helpers-stuck}

abbrev call_of : ℕ → String → Inst
call_of n f = record { id = n; op = call f []; meta = [] }

abbrev func_of : List Inst → Function
func_of is = record {
  name = "tcg-llvm-tb-0-1000";
  blocks = record { label = 0; name = "entry"; insts = is } ∷ [];
}

abbrev two_calls : Function
two_calls = func_of (call_of 1 "helper_shl" ∷ call_of 2 "helper_puts" ∷ call_of 3 "uadd" ∷ [])

-- Nothing is known of the bodies of the helpers.
abbrev inline_none : Function → ℕ → Option Function
inline_none f c = none

inline_helpers-stuck_example : inline_helpers inline_none 100 two_calls ≡ none
unfolding should_inline_call
inline_helpers-stuck_example = inline_helpers-stuck inline_none 100 two_calls 1 (3 ∷ []) refl refl
