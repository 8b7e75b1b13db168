-- ===== src/Inline.antt =====
-- harvesting-passes/S2EInlineHelpersPass.cpp: calls of arithmetic helpers are inlined, round after
-- round. InlineFunction of LLVM is an argument, which has no result where it fails.
pub mod Ends
mod Tests
use bin2llvm.Base.{
  ℕ, zero, suc, Bool, true, false, not, ◌||◌, List, [], ◌∷◌, ◌++◌, Option, none, some, String,
  str_eq, if◌then◌else◌,
}
use bin2llvm.Ir.{
  Op, store, load, binary, call, branch, switch, ret, other_inst, Inst, Block, Function,
}
use bin2llvm.Ir.Pc.{all_insts, any}

-- INLINE_FUNCTIONS
abbrev pub inline_functions : List String
inline_functions =
    "helper_add_setq" ∷ "helper_add_saturate" ∷ "helper_sub_saturate" ∷ "helper_double_saturate"
    ∷ "helper_add_usaturate" ∷ "helper_sub_usaturate" ∷ "helper_ssat" ∷ "helper_ssat16"
    ∷ "helper_usat" ∷ "helper_usat16" ∷ "helper_add_cc" ∷ "helper_adc_cc" ∷ "helper_sub_cc"
    ∷ "helper_sbc_cc" ∷ "helper_shl" ∷ "helper_shr" ∷ "helper_sar" ∷ "helper_shl_cc"
    ∷ "helper_shr_cc" ∷ "helper_sar_cc" ∷ "helper_ror_cc" ∷ "uadds" ∷ "uadd" ∷ "uaddl" ∷ []

-- shouldInlineCall: a call of a known function with such a name.
unfoldable pub should_inline_call : Op → Bool
unfolding any
should_inline_call (call f args) = any (λ name. str_eq f name) inline_functions
should_inline_call (store v p) = false
should_inline_call (load p) = false
should_inline_call (binary o a b) = false
should_inline_call (branch l) = false
should_inline_call (switch v d cs) = false
should_inline_call ret = false
should_inline_call (other_inst vs) = false

abbrev pub inlined_ids : List Inst → List ℕ
inlined_ids [] = []
inlined_ids (i ∷ is) =
    let rest = inlined_ids is in if should_inline_call i.op then i.id ∷ rest else rest

-- functionsToInline, the calls by their ids.
abbrev pub functions_to_inline : Function → List ℕ
functions_to_inline f = inlined_ids (all_insts f.blocks)

module _ (inline_function : Function → ℕ → Option Function) where
  -- One round, which breaks at the first call that cannot be inlined, with inlinedFunctions.
  unfoldable pub inline_all : List ℕ → Function → Bool → Function × Bool
  inline_all [] f inlined = (f, inlined)
  inline_all (c ∷ cs) f inlined = elim (inline_function f c) [
    | none ↦ (f, inlined)
    | some g ↦ inline_all cs g true
  ]

  -- while (true); `none` where the fuel runs out.
  unfoldable pub inline_rounds : ℕ → Function → Bool → Option (Function × Bool)
  unfolding inline_all
  inline_rounds zero f inlined = none
  inline_rounds (suc fuel) f inlined = elim (functions_to_inline f) [
    | [] ↦ some (f, inlined)
    | c ∷ cs ↦ let r = inline_all (c ∷ cs) f inlined in inline_rounds fuel r.0 r.1
  ]

  unfoldable pub inline_helpers : ℕ → Function → Option (Function × Bool)
  unfolding inline_rounds
  inline_helpers fuel f = inline_rounds fuel f false
