-- ===== src/Inline/Ends.antt =====
-- When the rounds do not end.
use bin2llvm.Base.{ℕ, zero, suc, Bool, false, List, ◌∷◌, Option, none, ◌≡◌, refl}
use bin2llvm.Ir.{Function}
use bin2llvm.Inline.{functions_to_inline, inline_all, inline_rounds, inline_helpers}

module _ (inline_function : Function → ℕ → Option Function) where
  stuck_rounds :
      (fuel : ℕ) (f : Function) (inlined : Bool) (c : ℕ) (cs : List ℕ)
      → functions_to_inline f ≡ c ∷ cs
      → inline_function f c ≡ none
      → inline_rounds inline_function fuel f inlined ≡ none
  unfolding inline_rounds
  stuck_rounds zero f inlined c cs e h = refl
  stuck_rounds (suc fuel) f inlined c cs e h =
      rw (inline_rounds, e, inline_all, h) (stuck_rounds fuel f inlined c cs e h)

  -- If the first helper call of a function cannot be inlined, the pass does not end, whatever the
  -- number of its rounds.
  pub inline_helpers-stuck :
      (fuel : ℕ) (f : Function) (c : ℕ) (cs : List ℕ)
      → functions_to_inline f ≡ c ∷ cs
      → inline_function f c ≡ none
      → inline_helpers inline_function fuel f ≡ none
  unfolding inline_helpers
  inline_helpers-stuck fuel f c cs e h = stuck_rounds fuel f false c cs e h
