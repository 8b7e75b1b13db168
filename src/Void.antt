-- ===== src/Void.antt =====
-- TransformBBToVoid.cpp: each translated block is cloned into a function without a result, whose returns
-- are marked as fake ones. What CloneFunctionInto adds to a function, and the number of
-- arguments of the function with a name, are arguments; `none` is a failed assertion, or too little fuel.
pub mod Rewrites
mod Tests
use Prim.Native.String.{◌++◌ as str_append}
use bin2llvm.Base.{
  ℕ, zero, suc, Bool, true, false, not, ◌&&◌, ◌||◌, List, [], ◌∷◌, ◌++◌, Option, none, some, String,
  str_eq, map, filter, if◌then◌else◌, length, ◌+◌, ◌==◌,
}
use bin2llvm.Base.Abort.{◌>>=◌, ◌>>◌, assert}
use bin2llvm.Ir.{
  Op, store, load, binary, call, branch, switch, ret, other_inst, Inst, Block, Function, Module,
  ins_fake_return,
}
use bin2llvm.Ir.Pc.{contains, true_text}

-- A translated block that is not rewritten yet.
unfoldable pub rewrites : String → Bool
rewrites name = contains name "tcg-llvm-tb" && not (contains name "void-tcg-llvm-tb")

abbrev pub void_name : String → String
void_name name = str_append "void-" name

-- ReturnInst::Create with INS_fakeReturn, in the place of a return.
abbrev pub fake_return : Inst → Inst
fake_return i = elim (i.op) [
  | ret ↦ record i { meta = (ins_fake_return, true_text) ∷ [] }
  | store v p ↦ i
  | load p ↦ i
  | binary o a b ↦ i
  | call f vs ↦ i
  | branch l ↦ i
  | switch v d cs ↦ i
  | other_inst vs ↦ i
]

abbrev pub fake_returns : List Block → List Block
fake_returns bs = map (λ (b : Block). record b { insts = map fake_return b.insts }) bs

abbrev pub has_name : String → Module → Bool
has_name name [] = false
has_name name (f ∷ m) = str_eq f.name name || has_name name m

abbrev pub listed : String → List String → Bool
listed name [] = false
listed name (x ∷ xs) = str_eq x name || listed name xs

-- The blocks are added to the functions with the name.
abbrev pub add_blocks : String → List Block → Function → Function
add_blocks name bs f = if str_eq f.name name then record f { blocks = f.blocks ++ bs } else f

abbrev pub add_to : String → List Block → Module → Module
add_to name bs m = map (add_blocks name bs) m

-- getOrInsertFunction with the blocks, where `done` is in front of the iterator and `rest` behind it.
unfoldable pub insert_function : String → List Block → Module → Module → Module × Module
insert_function name bs done rest =
    if has_name name done || has_name name rest
    then (add_to name bs done, add_to name bs rest)
    else (done, rest ++ record { name = name; blocks = bs } ∷ [])

module _ (clone : Function → List Block) (arg_count : String → ℕ) where
  -- The loop over the functions, which meets the new ones too, and eraseFuncs.
  unfoldable pub rewrite_functions :
      ℕ → Module → Module → List String → Option (Module × List String)
  rewrite_functions fuel done [] erase = some (done, erase)
  rewrite_functions zero done (f ∷ rest) erase = none
  rewrite_functions (suc fuel) done (f ∷ rest) erase = elim (rewrites f.name) [
    | false ↦ rewrite_functions fuel (done ++ f ∷ []) rest erase
    | true ↦
        let r = insert_function (void_name f.name) (fake_returns (clone f)) done rest in
        let rest = rewrite_functions fuel (r.0 ++ f ∷ []) r.1 (erase ++ f.name ∷ []) in
        assert (arg_count f.name == 1) >> rest
  ]

  -- A function is known by its name. Each function adds one at most.
  unfoldable pub transform_to_void : Module → Option (Module × Bool)
  unfolding rewrite_functions
  transform_to_void m = do
    r ← rewrite_functions (length m + length m) [] m []
    some (filter (λ f. not (listed f.name r.1)) r.0, (elim r.1 [ [] ↦ false | _ ∷ _ ↦ true ]))
