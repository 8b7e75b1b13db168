-- ===== src/Rebuild/Tests.antt =====
-- A block that jumps to another one, which is then called.
use bin2llvm.Base.{ℕ, true, List, [], ◌∷◌, Option, none, some, ◌≡◌, refl, arith, here, there}
use bin2llvm.Base.Map.{find, insert}
use bin2llvm.Base.Abort.{◌>>=◌}
use bin2llvm.Disasm.Extract.{int_to_ptr, EnvStore}
use bin2llvm.Rebuild.Graph.{Built, Node, Kind, bb, trans, entry, term_of}
use bin2llvm.Rebuild.Functions.{get_or_create_function, declare, as_fake}
use bin2llvm.Rebuild.Functions.Fake.{get_or_create_function-as_fake}
use bin2llvm.Rebuild.Validate.Enclosed.{nowhere, further}
use bin2llvm.Rebuild.Insert.{SourceBlock, run_on_function, no_blocks}

abbrev stores_at : ℕ → ℕ → EnvStore
stores_at offset v = record { address = int_to_ptr "env_v" (some offset); value = some v }

abbrev one_block : List EnvStore → List SourceBlock
one_block ss = record { code = record { returns = true; stores = ss }; succs = [] } ∷ []

abbrev jump_to : ℕ → List SourceBlock
jump_to a = one_block (stores_at 0xc0 a ∷ [])

-- The block at 0x1000 jumps to 0x2000, which jumps to 0x3000.
abbrev two_blocks : Option Built
unfolding run_on_function
two_blocks = do
  s ← run_on_function 0x1000 0x1004 (jump_to 0x2000) no_blocks
  run_on_function 0x2000 0x2004 (jump_to 0x3000) s

abbrev node_of : ℕ → Kind → List ℕ → Node
node_of l k ss = record { label = l; parent = 0; kind = k; calls = []; terms = ss ∷ [] }

abbrev built : Built
built = record {
  nodes =
      node_of 0 entry (1 ∷ [])
      ∷ node_of 1 (bb 0x1000) (2 ∷ [])
      ∷ node_of 2 (trans 0x2000) (3 ∷ [])
      ∷ node_of 3 (bb 0x2000) (4 ∷ [])
      ∷ node_of 4 (trans 0x3000) []
      ∷ [];
  next_label = 5;
  next_function = 1;
  bbs = (0x1000, 1) ∷ (0x2000, 3) ∷ [];
  trans_bbs = (0x2000, 2) ∷ (0x3000, 4) ∷ [];
  functions = (0x1000, 0) ∷ [];
  fake_functions = [];
}

built_test : two_blocks ≡ some built
unfolding run_on_function insert
built_test = refl

-- Then the block at 0x3000 calls 0x2000 and returns to 0x3004.
abbrev call_to : ℕ → ℕ → List SourceBlock
call_to a next = one_block (stores_at 0xbc next ∷ stores_at 0xc0 a ∷ [])

called_maps : Option Built → List (Option ℕ)
called_maps none = []
called_maps (some s) =
    find 0x2000 s.functions ∷ find 0x2000 s.fake_functions ∷ find 0x3004 s.trans_bbs ∷ []

called_test :
    called_maps (run_on_function 0x3000 0x3004 (call_to 0x2000 0x3004) built)
    ≡ none ∷ some 1 ∷ some 7 ∷ []
unfolding run_on_function called_maps insert
called_test = refl

get_or_create_function-as_fake_example :
    get_or_create_function 0x2000 built ≡ some (1, as_fake 0x2000 1 5 (declare 0x2000 built))
unfolding find term_of
get_or_create_function-as_fake_example =
    get_or_create_function-as_fake 0x2000 built 0 3 refl refl refl (omega arith)
      (further (there (there (here refl))) refl
        (further (there (here refl)) refl (further (here refl) refl nowhere)))
      refl refl
