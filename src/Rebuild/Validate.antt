-- ===== src/Rebuild/Validate.antt =====
-- validateMove: the blocks that a block leads to can be moved if nothing else leads to them.
pub mod Ends
pub mod Enclosed
pub mod Led
use bin2llvm.Base.{
  ℕ, zero, suc, ◌+◌, Bool, true, false, not, ◌&&◌, ◌||◌, List, [], ◌∷◌, ◌++◌, Option, none, some,
  if◌then◌else◌, length,
}
use bin2llvm.Rebuild.Graph.{Node, elem, uses, term_of, last_term}

-- visitedStage1, or a block without a terminator, whose successors are asked for.
pub data Walk : Type 0 where
  visited : List ℕ → Walk
  no_terminator out_of_fuel : Walk

-- The number of successors of the blocks that are not yet visited.
abbrev pub unseen : List ℕ → List Node → ℕ
unfolding last_term
unseen seen [] = 0
unseen seen (n ∷ ns) =
    if elem n.label seen
    then unseen seen ns
    else elim (last_term n.terms) [ none ↦ unseen seen ns | some ss ↦ length ss + unseen seen ns ]

-- A visited block, the users of which all have to be visited.
abbrev pub closed_at : List ℕ → ℕ → List Node → Bool
closed_at seen b [] = true
closed_at seen b (n ∷ ns) = (not (uses b n) || elem n.label seen) && closed_at seen b ns

abbrev pub closed : List ℕ → List ℕ → List Node → Bool
closed seen [] ns = true
closed seen (b ∷ bs) ns = closed_at seen b ns && closed seen bs ns

module _ (ns : List Node) where
  -- A block is visited once, so its successors enter the queue once.
  unfoldable pub walk : ℕ → List ℕ → List ℕ → Walk
  walk fuel [] seen = visited seen
  walk zero (head ∷ queue) seen = out_of_fuel
  walk (suc fuel) (head ∷ queue) seen = elim (elem head seen) [
    | true ↦ walk fuel queue seen
    | false ↦ elim (term_of head ns) [
      | none ↦ no_terminator
      | some ss ↦ walk fuel (queue ++ ss) (head ∷ seen)
    ]
  ]

  -- The visited blocks have no users but themselves.
  abbrev pub verdict : Walk → Option Bool
  verdict (visited seen) = some (closed seen seen ns)
  verdict no_terminator = none
  verdict out_of_fuel = none

  unfoldable pub validate_move : ℕ → Option Bool
  unfolding walk
  validate_move b = verdict (walk (suc (unseen [] ns)) (b ∷ []) [])
