-- ===== src/Rebuild/Edges.antt =====
-- The edges out of a translated block: createDirectEdge, createIndirectEdge, createCallEdge and
-- createIndirectCallEdge, and getOrCreateTransBasicBlock.
use bin2llvm.Base.{ℕ, Bool, true, false, not, ◌||◌, List, [], ◌∷◌, Option, none, some, ◌==◌}
use bin2llvm.Base.Map.{find, insert, has}
use bin2llvm.Base.Abort.{◌>>=◌, ◌>>◌, assert}
use bin2llvm.Rebuild.Graph.{
  trans, Built, key, find_node, update, on_node, append_term, end_with, add_call, term_of,
  parent_of, add_node,
}
use bin2llvm.Rebuild.Functions.{get_or_create_function}

abbrev pub has_function : ℕ → Built → Bool
unfolding has
has_function a s = has (key a) s.functions

-- getOrCreateBasicBlock of a Trans_ block, with a temporary return.
unfoldable pub get_or_create_trans : ℕ → ℕ → Built → Option (ℕ × Built)
unfolding find update has find_node
get_or_create_trans f a s = do
  assert (not (has_function a s))
  elim (find (key a) s.trans_bbs) [
    | some t ↦ do
      n ← find_node t s.nodes
      elim (n.terms) [ [] ↦ some (t, on_node t (append_term []) s) | _ ∷ _ ↦ some (t, s) ]
    | none ↦
        let (t, made) = add_node f (trans (key a)) s in
        some
          (t, on_node t (append_term []) (record made { trans_bbs = insert (key a) t s.trans_bbs }))
  ]

-- A terminator takes the place of the old one, which has to be there.
unfoldable pub replace_terminator : ℕ → List ℕ → Built → Option Built
unfolding term_of update
replace_terminator b ss s = do old ← term_of b s.nodes; some (on_node b (end_with ss) s)

-- createCallEdge with isTailCall.
unfoldable pub create_tail_call : ℕ → ℕ → Built → Option Built
unfolding get_or_create_function replace_terminator update
create_tail_call b target s = do
  r ← get_or_create_function target s
  replace_terminator b [] (on_node b (add_call (some r.0)) r.1)

-- The branch to the block behind a call, or its tail call if a function begins there.
unfoldable pub go_on : ℕ → ℕ → Built → Option Built
unfolding has create_tail_call get_or_create_trans replace_terminator
go_on b next s = elim (has_function next s) [
  | true ↦ create_tail_call b next s
  | false ↦ do
    f ← parent_of b s.nodes
    t ← get_or_create_trans f next s
    replace_terminator b (t.0 ∷ []) t.1
]

-- createCallEdge without isTailCall.
unfoldable pub create_call_edge : ℕ → ℕ → ℕ → Built → Option Built
unfolding get_or_create_function go_on update
create_call_edge b target next s = do
  r ← get_or_create_function target s
  go_on b next (on_node b (add_call (some r.0)) r.1)

unfoldable pub create_indirect_call_edge : ℕ → ℕ → Built → Option Built
unfolding go_on update
create_indirect_call_edge b next s = go_on b next (on_node b (add_call none) s)

unfoldable pub create_indirect_edge : ℕ → Built → Option Built
unfolding replace_terminator
create_indirect_edge b s = replace_terminator b [] s

-- Whether a registered block belongs to another function than this one.
abbrev pub elsewhere : Option ℕ → ℕ → Built → Option Bool
unfolding find_node
elsewhere none f s = some false
elsewhere (some d) f s = do g ← parent_of d s.nodes; some (not (g == f))

unfoldable pub create_direct_edge : ℕ → ℕ → Built → Option Built
unfolding find has create_tail_call get_or_create_trans replace_terminator
create_direct_edge b target s = elim (has_function target s) [
  | true ↦ create_tail_call b target s
  | false ↦ do
    f ← parent_of b s.nodes
    far ← elsewhere (find (key target) s.bbs) f s
    far_trans ← elsewhere (find (key target) s.trans_bbs) f s
    elim (far || far_trans) [
      | true ↦ create_tail_call b target s
      | false ↦ do t ← get_or_create_trans f target s; replace_terminator b (t.0 ∷ []) t.1
    ]
]
