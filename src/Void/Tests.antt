-- ===== src/Void/Tests.antt =====
-- Two translated blocks and a helper.
use bin2llvm.Base.{List, [], ◌∷◌, true, false, some, Bool, ◌≡◌, refl, All, String}
use bin2llvm.Ir.{Inst, Block, Function, Module, ret, ins_fake_return}
use bin2llvm.Ir.Pc.{true_text}
use bin2llvm.Void.{rewrites, insert_function, transform_to_void}
use bin2llvm.Void.Rewrites.{transform_to_void-rewrites}

abbrev blocks_of : Function → List Block
blocks_of f = f.blocks

abbrev func_with : String → Inst → Function
func_with name i = record {
  name = name;
  blocks = record { label = 0; name = "entry"; insts = i ∷ [] } ∷ [];
}

abbrev plain_ret : Inst
plain_ret = record { id = 0; op = ret; meta = [] }

abbrev marked_ret : Inst
marked_ret = record { id = 0; op = ret; meta = (ins_fake_return, true_text) ∷ [] }

abbrev three_funcs : Module
three_funcs =
    func_with "tcg-llvm-tb-0-1000" plain_ret
    ∷ func_with "helper" plain_ret
    ∷ func_with "tcg-llvm-tb-1-1004" plain_ret
    ∷ []

run_test :
    transform_to_void blocks_of (λ name. 1) three_funcs
    ≡ some (
      func_with "helper" plain_ret
          ∷ func_with "void-tcg-llvm-tb-0-1000" marked_ret
          ∷ func_with "void-tcg-llvm-tb-1-1004" marked_ret
          ∷ [],
      true,
    )
unfolding transform_to_void rewrites insert_function
run_test = refl

transform_to_void-rewrites_example :
    (r : Module × Bool) × (transform_to_void blocks_of (λ name. 1) three_funcs ≡ some r)
    × All (λ f. rewrites f.name ≡ false) r.0
unfolding rewrites
transform_to_void-rewrites_example =
    transform_to_void-rewrites blocks_of (λ name. 1) three_funcs
      ((λ y. refl, λ y. refl), ((λ y. refl, λ y. refl), ((λ y. refl, λ y. refl), tt)))
