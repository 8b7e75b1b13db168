-- ===== src/Rebuild/Insert.antt =====
-- runOnFunction of the ARM build: the code of one translated block joins the graph.
use bin2llvm.Base.{
  ℕ, suc, ◌+◌, ◌-◌, ◌/◌, ◌^◌, Bool, true, false, not, ◌&&◌, ◌||◌, List, [], ◌∷◌, ◌++◌, Option, none,
  some, if◌then◌else◌, ◌==◌, length, map,
}
use bin2llvm.Base.Map.{find, insert, has}
use bin2llvm.Base.Abort.{◌>>=◌}
use bin2llvm.Ir.Pc.{is_some}
use bin2llvm.Disasm.Extract.{EnvStore, EnvBlock, is_store_to_pc, is_store_to_lr}
use bin2llvm.Rebuild.Graph.{
  Node, Kind, bb, inner, Built, key, update, with_nodes, on_node, append_term, parent_of,
}
use bin2llvm.Rebuild.Functions.{get_or_create_function, move_block, entry_of}
use bin2llvm.Rebuild.Edges.{
  create_call_edge, create_direct_edge, create_indirect_edge, create_indirect_call_edge,
  replace_terminator,
}

-- A block of F, the first one the entry, with the positions of its successors.
pub record SourceBlock : Type 0 where
  pub code : EnvBlock
  pub succs : List ℕ

-- A store to PC of a value that is no constant.
abbrev pub is_indirect_store_to_pc : EnvStore → Bool
is_indirect_store_to_pc s =
    not (is_some s.value) && is_some (is_store_to_pc (record s { value = some 0 }))

-- targetMap at one block: the last store to PC, if it stores a constant.
abbrev pub target_of : Option ℕ → List EnvStore → Option ℕ
target_of last [] = last
target_of last (s ∷ ss) =
    target_of
      (if is_indirect_store_to_pc s
        then none
        else elim (is_store_to_pc s) [ none ↦ last | some v ↦ some v ])
      ss

-- A constant for LR that is the next address but for the thumb bit.
abbrev pub returns_next : ℕ → List EnvStore → Bool
returns_next next [] = false
returns_next next (s ∷ ss) =
    elim (is_store_to_lr s) [
      | none ↦ false
      | some v ↦ not (next == 2 ^ 64 - 1) && v / 2 == next / 2
    ]
    || returns_next next ss

-- implicitTarget
abbrev pub implicit_target : ℕ → List SourceBlock → Bool
implicit_target next [] = false
implicit_target next (b ∷ bs) =
    (b.code.returns && returns_next next b.code.stores) || implicit_target next bs

-- CloneFunctionInto: the copies of the blocks, of which the first one has the label `base`.
abbrev pub copy_of : ℕ → ℕ → ℕ → Kind → SourceBlock → Node
copy_of base f l k b = record {
  label = l;
  parent = f;
  kind = k;
  calls = [];
  terms = (if b.code.returns then [] else map (λ i. base + i) b.succs) ∷ [];
}

abbrev pub copies : ℕ → ℕ → ℕ → List SourceBlock → List Node
copies base f l [] = []
copies base f l (b ∷ bs) = copy_of base f l inner b ∷ copies base f (suc l) bs

abbrev pub clone_into : ℕ → ℕ → List SourceBlock → ℕ → List Node
clone_into base f [] addr = []
clone_into base f (b ∷ bs) addr = copy_of base f base (bb addr) b ∷ copies base f (suc base) bs

-- terminatorList: the copies of the returning blocks, with their targets.
abbrev pub terminators : ℕ → List SourceBlock → List (ℕ × Option ℕ)
terminators l [] = []
terminators l (b ∷ bs) =
    let rest = terminators (suc l) bs in
    if b.code.returns then (l, target_of none b.code.stores) ∷ rest else rest

unfoldable pub find_parent_function : ℕ → Built → Option (ℕ × Built)
unfolding find get_or_create_function
find_parent_function addr s = elim (find (key addr) s.functions) [
  | some f ↦ some (f, s)
  | none ↦ elim (find (key addr) s.trans_bbs) [
    | some t ↦ do f ← parent_of t s.nodes; some (f, s)
    | none ↦ get_or_create_function addr s
  ]
]

-- The branch from the block that stood for the first one, or else from the entry.
unfoldable pub link_first : ℕ → ℕ → ℕ → Built → Option Built
unfolding find replace_terminator entry_of update
link_first addr first f s = elim (find (key addr) s.trans_bbs) [
  | some t ↦ replace_terminator t (first ∷ []) s
  | none ↦ do e ← entry_of f s.nodes; some (on_node e (append_term (first ∷ [])) s)
]

unfoldable pub jump_edge : ℕ → Option ℕ → Built → Option Built
unfolding create_direct_edge create_indirect_edge
jump_edge b none s = create_indirect_edge b s
jump_edge b (some target) s = create_direct_edge b target s

unfoldable pub jump_edges : List (ℕ × Option ℕ) → Built → Option Built
unfolding jump_edge
jump_edges [] s = some s
jump_edges ((b, t) ∷ ts) s = do done ← jump_edge b t s; jump_edges ts done

unfoldable pub call_edge : ℕ → Option ℕ → ℕ → Built → Option Built
unfolding create_call_edge create_indirect_call_edge
call_edge b none next s = create_indirect_call_edge b next s
call_edge b (some target) next s = create_call_edge b target next s

-- A conditional branch, a jump or a call.
unfoldable pub add_edges : List (ℕ × Option ℕ) → Bool → ℕ → Built → Option Built
unfolding jump_edges call_edge
add_edges ((b, t) ∷ []) true next s = call_edge b t next s
add_edges ts _ next s = jump_edges ts s

-- currBlockAddr and nextBlockAddr are set before.
unfoldable pub run_on_function : ℕ → ℕ → List SourceBlock → Built → Option Built
unfolding has find_parent_function link_first move_block add_edges
run_on_function addr next blocks s = elim (has (key addr) s.bbs) [
  | true ↦ some s
  | false ↦ do
    r ← find_parent_function addr s
    let base = r.1.next_label
    let cloned = record r.1 {
      nodes = r.1.nodes ++ clone_into base r.0 blocks (key addr);
      next_label = base + length blocks;
      bbs = insert (key addr) base r.1.bbs;
    }
    linked ← link_first addr base r.0 cloned
    moved ← move_block base r.0 linked.nodes
    add_edges (terminators base blocks) (implicit_target next blocks) next (with_nodes linked moved)
]

-- The module of the pass before its first block.
abbrev pub no_blocks : Built
no_blocks = record {
  nodes = [];
  next_label = 0;
  next_function = 0;
  bbs = [];
  trans_bbs = [];
  functions = [];
  fake_functions = [];
}
