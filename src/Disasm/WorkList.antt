-- ===== src/Disasm/WorkList.antt =====
-- The work list of the disassembler: explorePCLater, moreToExplore and getNextRealPC. `none` is a
-- failed assertion.
pub mod Once
use bin2llvm.Base.{
  ℕ, Bool, true, false, not, ◌||◌, List, [], ◌∷◌, Option, none, some, if◌then◌else◌,
}
use bin2llvm.Base.Map.{NatMap, insert, has}
use bin2llvm.Base.Abort.{◌>>=◌}
use bin2llvm.Disasm.Intervals.{Interval, bsearch}

-- The head of `scheduled` is the back of m_scheduledPCsVector.
pub record WorkList : Type 0 where
  pub visited : NatMap Bool
  pub intervals : List Interval
  pub scheduled_map : NatMap Bool
  pub scheduled : List ℕ

push : WorkList → ℕ → WorkList
push w pc = record w {
  scheduled = pc ∷ w.scheduled;
  scheduled_map = insert pc true w.scheduled_map;
}

-- The new list, and whether the address was scheduled.
unfoldable pub explore_pc_later : WorkList → ℕ → Option (WorkList × Bool)
unfolding push
explore_pc_later w pc = if has pc w.visited || has pc w.scheduled_map then some (w, false) else (do
  inside ← bsearch w.intervals pc
  some (if inside then (w, false) else (push w pc, true)))

unfoldable pub more_to_explore : WorkList → Bool
more_to_explore w = elim w.scheduled [ [] ↦ false | _ ∷ _ ↦ true ]

unfoldable pub get_next_real_pc : WorkList → Option (ℕ × WorkList)
get_next_real_pc w = elim w.scheduled [
  | [] ↦ none
  | pc ∷ rest ↦
      some (pc, record w { scheduled = rest; scheduled_map = insert pc false w.scheduled_map })
]

-- m_visitedPC[pc] = true
unfoldable pub mark_visited : WorkList → ℕ → WorkList
mark_visited w pc = record w { visited = insert pc true w.visited }

-- The calls that the plugin makes, in any order.
pub data Event : Type 0 where
  explore : ℕ → Event
  visit : ℕ → Event
  take : Event

-- The list after the calls, and the addresses that `take` returned, the latest first.
unfoldable pub run : WorkList → List ℕ → List Event → Option (WorkList × List ℕ)
unfolding explore_pc_later get_next_real_pc mark_visited
run w taken [] = some (w, taken)
run w taken (explore pc ∷ es) = do r ← explore_pc_later w pc; run r.0 taken es
run w taken (visit pc ∷ es) = run (mark_visited w pc) taken es
run w taken (take ∷ es) = do r ← get_next_real_pc w; run r.1 (r.0 ∷ taken) es
