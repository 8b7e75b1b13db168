-- ===== src/Disasm/WorkList/Once.antt =====
-- An address enters the work list once.
use bin2llvm.Base.{
  ℕ, ◌+◌, ◌≤◌, Bool, true, false, List, [], ◌∷◌, some, if◌then◌else◌, ◌≡◌, arith, count, All,
  ==_iff,
}
use bin2llvm.Base.Map.{has, has-insert}
use bin2llvm.Base.Abort.{>>=-eq-some}
use bin2llvm.Disasm.WorkList.{
  WorkList, explore_pc_later, get_next_real_pc, mark_visited, Event, explore, visit, take, run,
}

-- What was scheduled, in the list and taken from it.
abbrev pub total : WorkList → List ℕ → ℕ → ℕ
total w taken c = count c w.scheduled + count c taken

-- Each address that was scheduled is in the map, and it was scheduled once.
abbrev pub IsOnce : WorkList → List ℕ → Type 0
IsOnce w taken = (c : ℕ) → total w taken c ≤ (if has c w.scheduled_map then 1 else 0)

explore-IsOnce :
    (w u : WorkList) (taken : List ℕ) (pc : ℕ) (b : Bool)
    → IsOnce w taken
    → explore_pc_later w pc ≡ some (u, b)
    → IsOnce u taken
unfolding explore_pc_later
explore-IsOnce w u taken pc b h e c = ground (arith, h c, has-insert pc c true w.scheduled_map)

take-IsOnce :
    (w u : WorkList) (taken : List ℕ) (pc : ℕ)
    → IsOnce w taken
    → get_next_real_pc w ≡ some (pc, u)
    → IsOnce u (pc ∷ taken)
unfolding get_next_real_pc
take-IsOnce w u taken pc h e c = ground (arith, h c, has-insert pc c false w.scheduled_map)

visit-IsOnce :
    (w : WorkList) (taken : List ℕ) (pc : ℕ) → IsOnce w taken → IsOnce (mark_visited w pc) taken
unfolding mark_visited
visit-IsOnce w taken pc h = h

run-IsOnce :
    (w u : WorkList) (taken end : List ℕ) (es : List Event)
    → IsOnce w taken
    → run w taken es ≡ some (u, end)
    → IsOnce u end
unfolding run
run-IsOnce w u taken end [] h e =
    let ew : w ≡ u = ground arith in let et : taken ≡ end = ground arith in rw (← ew, ← et) h
run-IsOnce w u taken end (explore pc ∷ es) h e =
    let (r, er, rest) = >>=-eq-some (explore_pc_later w pc) _ e in
    run-IsOnce r.0 u taken end es (explore-IsOnce w r.0 taken pc r.1 h er) rest
run-IsOnce w u taken end (visit pc ∷ es) h e =
    run-IsOnce (mark_visited w pc) u taken end es (visit-IsOnce w taken pc h) e
run-IsOnce w u taken end (take ∷ es) h e =
    let (r, er, rest) = >>=-eq-some (get_next_real_pc w) _ e in
    run-IsOnce r.1 u (r.0 ∷ taken) end es (take-IsOnce w r.1 taken r.0 h er) rest

-- The lists of a fresh plugin are empty.
abbrev pub IsFresh : WorkList → Type 0
IsFresh w = (w.scheduled ≡ []) × (w.scheduled_map ≡ [])

-- What holds of everything that a list counts holds of its elements.
All-counted : (P : ℕ → Type 0) (xs : List ℕ) → ((c : ℕ) → 1 ≤ count c xs → P c) → All P xs
All-counted P [] h = tt
All-counted P (x ∷ xs) h =
    (h x (ground (arith, ==_iff x x)), All-counted P xs (λ c k. h c (ground (arith, k))))

-- From a fresh work list, however the calls are mixed, no address is handed out twice, although a
-- comment in getNextRealPC says that it can be explored again: explorePCLater refuses every address
-- that was handed out before.
pub taken_once :
    (w u : WorkList) (end : List ℕ) (es : List Event)
    → IsFresh w
    → run w [] es ≡ some (u, end)
    → ((c : ℕ) → count c end ≤ 1) × All (λ c. explore_pc_later u c ≡ some (u, false)) end
unfolding explore_pc_later
taken_once w u end es h e =
    let fresh : IsOnce w [] = λ a. rw (h.0, h.1) (omega arith) in
    let kept = run-IsOnce w u [] end es fresh e in
    (
      λ c. let k = kept c in ground arith,
      All-counted (λ c. explore_pc_later u c ≡ some (u, false)) end
          (λ c n. let k = kept c in ground arith),
    )
