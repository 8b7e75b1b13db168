-- ===== src/Rebuild/Functions.antt =====
-- getOrCreateFunction, with relinkOldTransBasicBlock and the moves of blocks. `none` is a failed
-- assertion, the terminator of a block without one, or a block that is erased while it is used.
pub mod Fake
pub mod Moves
use bin2llvm.Base.{
  ℕ, zero, suc, Bool, true, false, not, List, [], ◌∷◌, ◌++◌, Option, none, some, if◌then◌else◌,
  ◌==◌, ◌+◌, ◌*◌, map, length,
}
use bin2llvm.Base.Map.{NatMap, find, insert}
use bin2llvm.Base.Abort.{◌>>=◌, ◌>>◌, assert}
use bin2llvm.Rebuild.Graph.{
  Node, Kind, bb, trans, entry, inner, Built, key, find_node, elem, uses, users, preds, last_term,
  but_last, update, with_nodes, on_node, append_term, add_call, term_of, add_node, remove,
  remove_node,
}
use bin2llvm.Rebuild.Validate.{validate_move}

-- The entry block of a function: BasicBlock::Create with the name entry.
unfoldable pub entry_of : ℕ → List Node → Option ℕ
entry_of f [] = none
entry_of f (n ∷ ns) = elim (n.kind) [
  | entry ↦ if n.parent == f then some n.label else entry_of f ns
  | bb a ↦ entry_of f ns
  | trans a ↦ entry_of f ns
  | inner ↦ entry_of f ns
]

-- getSinglePredecessor, from the block of each use.
abbrev pub single : List ℕ → Option ℕ
single (p ∷ []) = some p
single _ = none

-- moveAfter a block of a function.
abbrev pub place : ℕ → Node → Node
place f n = record n { parent = f }

abbrev is_bb : Kind → Bool
is_bb (bb a) = true
is_bb _ = false

-- Whether a block goes behind its single predecessor in the same function.
abbrev pub follows : ℕ → Option ℕ → List Node → Option Bool
unfolding find_node
follows f none ns = some false
follows f (some p) ns = do n ← find_node p ns; some (n.parent == f)

-- moveBasicBlockToNewFunction
unfoldable pub move_block : ℕ → ℕ → List Node → Option (List Node)
unfolding find_node update entry_of
move_block b f ns = do
  n ← find_node b ns
  here ← follows f (single (preds b ns)) ns
  if not (is_bb n.kind)
      then some (update b (place f) ns)
      else if here
      then some (update b (place f) ns)
      else do e ← entry_of f ns; some (update b (place f) (update e (append_term (b ∷ [])) ns))

-- moveBasicBlocksToNewFunction on the blocks of a stack; a block that is there already is not entered.
unfoldable pub move_blocks : ℕ → List ℕ → ℕ → List Node → Option (List Node)
unfolding move_block term_of find_node
move_blocks fuel [] f ns = some ns
move_blocks zero (b ∷ bs) f ns = none
move_blocks (suc fuel) (b ∷ bs) f ns = do
  n ← find_node b ns
  elim (n.parent == f) [
    | true ↦ move_blocks fuel bs f ns
    | false ↦ do
      moved ← move_block b f ns
      ss ← term_of b moved
      move_blocks fuel (ss ++ bs) f moved
  ]

-- The successors of all terminators, and one.
abbrev pub term_sizes : List (List ℕ) → ℕ
term_sizes [] = 0
term_sizes (t ∷ ts) = length t + term_sizes ts

abbrev pub span : List Node → ℕ
span [] = 1
span (n ∷ ns) = term_sizes n.terms + span ns

-- A call of the new function and a return, before the terminator that leads to the old block.
abbrev pub tail_call : ℕ → Node → Node
unfolding but_last
tail_call f n = elim (last_term n.terms) [
  | none ↦ n
  | some ss ↦ record n { calls = n.calls ++ some f ∷ []; terms = but_last n.terms ++ [] ∷ ss ∷ [] }
]

-- relinkOldTransBasicBlock; the terminators stay until they are erased. Each is a branch with one
-- successor, so it is one use.
abbrev pub relink : ℕ → ℕ → List Node → List Node
relink f t ns = map (λ n. if uses t n then tail_call f n else n) ns

-- The terminators that relinkOldTransBasicBlock collects are erased.
unfoldable pub erase_terminators : List ℕ → List Node → List Node
unfolding update but_last
erase_terminators [] ns = ns
erase_terminators (l ∷ ls) ns =
    erase_terminators ls (update l (λ n. record n { terms = but_last n.terms }) ns)

-- transBlock->eraseFromParent(), which asserts that the block has no uses.
unfoldable pub erase_trans : ℕ → ℕ → Built → Option Built
unfolding remove remove_node
erase_trans k t s =
    let ns = remove_node t s.nodes in
    do
      assert (elim (users t ns) [ [] ↦ true | _ ∷ _ ↦ false ])
      some (record s { nodes = ns; trans_bbs = remove k s.trans_bbs })

-- A block with this address is in the middle of a function.
abbrev pub as_fake : ℕ → ℕ → ℕ → Built → Built
as_fake k f e s = record s {
  nodes = update e (append_term []) s.nodes;
  functions = remove k s.functions;
  fake_functions = insert k f s.fake_functions;
}

-- A block and what it leads to become the new function.
unfoldable pub take_over : ℕ → ℕ → ℕ → Built → Option Built
unfolding move_blocks erase_terminators erase_trans
take_over k f head s = do
  t ← find k s.trans_bbs
  let linked = relink f t s.nodes
  moved ← move_blocks (suc (length linked * span linked)) (head ∷ []) f linked
  erase_trans k t (with_nodes s (erase_terminators (users t s.nodes) moved))

-- Jumps to a block that is not there yet become calls of the new function.
unfoldable pub relink_unexplored : ℕ → ℕ → Built → Option Built
unfolding erase_terminators erase_trans find
relink_unexplored k f s = elim (find k s.trans_bbs) [
  | none ↦ some s
  | some t ↦
      erase_trans k t (with_nodes s (erase_terminators (users t s.nodes) (relink f t s.nodes)))
]

abbrev pub declare : ℕ → Built → Built
declare k s = record s {
  nodes =
      s.nodes
      ++ record {
        label = s.next_label;
        parent = s.next_function;
        kind = entry;
        calls = [];
        terms = [];
      }
        ∷ [];
  next_label = suc s.next_label;
  next_function = suc s.next_function;
  functions = insert k s.next_function s.functions;
}

-- The new function and its entry block, and what becomes of a block at this address.
unfoldable pub create_function : ℕ → Built → Option (ℕ × Built)
unfolding find validate_move take_over relink_unexplored
create_function k s =
    let f = s.next_function in
    let made = declare k s in
    elim (find k s.bbs) [
      | some head ↦ do
        ok ← validate_move made.nodes head
        elim ok [
          | false ↦ some (f, as_fake k f s.next_label made)
          | true ↦ do done ← take_over k f head made; some (f, done)
        ]
      | none ↦ do done ← relink_unexplored k f made; some (f, done)
    ]

unfoldable pub get_or_create_function : ℕ → Built → Option (ℕ × Built)
unfolding create_function find
get_or_create_function a s = elim (find (key a) s.functions) [
  | some f ↦ some (f, s)
  | none ↦ create_function (key a) s
]
