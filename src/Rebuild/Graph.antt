-- ===== src/Rebuild/Graph.antt =====
-- The module that is built: its basic blocks and the maps basicBlocks and functions. Blocks and
-- functions are known by numbers; of the instructions of a block the calls and the terminators count.
use bin2llvm.Base.{
  ℕ, suc, ◌%◌, ◌^◌, Bool, false, ◌||◌, List, [], ◌∷◌, ◌++◌, Option, none, some, if◌then◌else◌, ◌==◌,
  map, filter,
}
use bin2llvm.Base.Map.{NatMap}
use bin2llvm.Base.Abort.{◌>>=◌}

-- The name of a block: BB_ or Trans_ with an address, entry, or that of a block inside translated code.
pub data Kind : Type 0 where
  bb : ℕ → Kind
  trans : ℕ → Kind
  entry : Kind
  inner : Kind

-- The calls, with no function where it is computed, and the successors of each terminator. There is
-- more than one terminator only while another is about to be erased.
pub record Node : Type 0 where
  pub label : ℕ
  pub parent : ℕ
  pub kind : Kind
  pub calls : List (Option ℕ)
  pub terms : List (List ℕ)

-- intToString takes an unsigned int.
abbrev pub key : ℕ → ℕ
key a = a % 2 ^ 32

-- basicBlocks by the prefixes BB_ and Trans_, functions by Function_ and FakeFunction_.
pub record Built : Type 0 where
  pub nodes : List Node
  pub next_label : ℕ
  pub next_function : ℕ
  pub bbs : NatMap ℕ
  pub trans_bbs : NatMap ℕ
  pub functions : NatMap ℕ
  pub fake_functions : NatMap ℕ

unfoldable pub find_node : ℕ → List Node → Option Node
find_node l [] = none
find_node l (n ∷ ns) = if n.label == l then some n else find_node l ns

abbrev pub elem : ℕ → List ℕ → Bool
elem l [] = false
elem l (x ∷ xs) = x == l || elem l xs

-- The uses of a block are operands of terminators.
abbrev pub uses_in : ℕ → List (List ℕ) → Bool
uses_in l [] = false
uses_in l (t ∷ ts) = elem l t || uses_in l ts

abbrev pub uses : ℕ → Node → Bool
uses l n = uses_in l n.terms

abbrev pub users : ℕ → List Node → List ℕ
users l ns = map (λ n. n.label) (filter (uses l) ns)

abbrev concat : List (List ℕ) → List ℕ
concat [] = []
concat (t ∷ ts) = t ++ concat ts

-- The block of each use of a block.
abbrev pub preds : ℕ → List Node → List ℕ
preds l [] = []
preds l (n ∷ ns) = map (λ x. n.label) (filter (λ x. x == l) (concat n.terms)) ++ preds l ns

-- getTerminator, the last one.
unfoldable pub last_term : List (List ℕ) → Option (List ℕ)
last_term [] = none
last_term (t ∷ []) = some t
last_term (_ ∷ t ∷ ts) = last_term (t ∷ ts)

unfoldable pub but_last : List (List ℕ) → List (List ℕ)
but_last [] = []
but_last (_ ∷ []) = []
but_last (t ∷ u ∷ ts) = t ∷ but_last (u ∷ ts)

unfoldable pub update : ℕ → (Node → Node) → List Node → List Node
update l f [] = []
update l f (n ∷ ns) = (if n.label == l then f n else n) ∷ update l f ns

abbrev pub with_nodes : Built → List Node → Built
with_nodes s ns = record s { nodes = ns }

abbrev pub on_node : ℕ → (Node → Node) → Built → Built
on_node l f s = with_nodes s (update l f s.nodes)

-- BranchInst::Create or ReturnInst::Create at the end of a block.
abbrev pub append_term : List ℕ → Node → Node
append_term t n = record n { terms = n.terms ++ t ∷ [] }

-- The same before the terminator, which is then erased.
abbrev pub end_with : List ℕ → Node → Node
unfolding but_last
end_with t n = record n { terms = but_last n.terms ++ t ∷ [] }

-- CallInst::Create before the terminator.
abbrev pub add_call : Option ℕ → Node → Node
add_call f n = record n { calls = n.calls ++ f ∷ [] }

-- block->getTerminator(), which is not null where it is used.
unfoldable pub term_of : ℕ → List Node → Option (List ℕ)
unfolding find_node last_term
term_of l ns = do n ← find_node l ns; last_term n.terms

abbrev pub parent_of : ℕ → List Node → Option ℕ
unfolding find_node
parent_of l ns = do n ← find_node l ns; some n.parent

-- Another block in a function, by its number.
abbrev pub add_node : ℕ → Kind → Built → ℕ × Built
add_node f k s = (
  s.next_label,
  record s {
    nodes =
        s.nodes
        ++ record { label = s.next_label; parent = f; kind = k; calls = []; terms = [] } ∷ [];
    next_label = suc s.next_label;
  },
)

-- std::map::erase
unfoldable pub remove : ℕ → NatMap ℕ → NatMap ℕ
remove k [] = []
remove k ((j, v) ∷ m) = let rest = remove k m in if j == k then rest else (j, v) ∷ rest

-- eraseFromParent of a block, which has no uses left.
unfoldable pub remove_node : ℕ → List Node → List Node
remove_node l [] = []
remove_node l (n ∷ ns) = let rest = remove_node l ns in if n.label == l then rest else n ∷ rest
