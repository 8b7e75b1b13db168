-- ===== src/Disasm/Tests.antt =====
-- Runs of the disassembler's functions.
use bin2llvm.Base.{
  All, if◌then◌else◌, ℕ, ◌≤◌, true, false, List, [], ◌∷◌, none, some, ◌≡◌, ◌↔◌, refl, arith, count,
}
use bin2llvm.Base.Map.{find, has, insert}
use bin2llvm.Ir.{Block, store, ret, const_int, global_var}
use bin2llvm.Ir.Pc.{any}
use bin2llvm.Disasm.Thumb.{Returns, get_thumb_bit, sets_thumb, bit, get_thumb_bit_sure}
use bin2llvm.Disasm.Extract.{EnvBlock, int_to_ptr, extract_targets}
use bin2llvm.Disasm.Extract.Listed.{listed, listed_lr, with_implicit, extract_targets-listed}
use bin2llvm.JumpTable.{JumpTableInfo, IsTable}
use bin2llvm.Disasm.Intervals.{Interval, bsearch, linear}
use bin2llvm.Disasm.Intervals.Blind.{bsearch_blind}
use bin2llvm.Disasm.Intervals.Linear.{Covered, linear_iff}
use bin2llvm.Disasm.WorkList.{
  WorkList, Event, explore, take, run, get_next_real_pc, explore_pc_later,
}
use bin2llvm.Disasm.WorkList.Once.{taken_once}
use bin2llvm.Disasm.Slot.{
  thumb_pcs, BlockFacts, Plugin, Action, thumb_bit_set, thumb_bit_undefined,
  slot_execute_block_start,
}
use bin2llvm.Disasm.Slot.Total.{Inv, Leaves, slot_returns}

abbrev two_intervals : List Interval
two_intervals = (0, 15) ∷ (32, 47) ∷ []

-- 40 lies in the second interval, and the binary search does not find it.
bsearch_blind_example : bsearch two_intervals 40 ≡ some false
bsearch_blind_example = bsearch_blind two_intervals 40 (omega arith)

linear_iff_example : (linear two_intervals 40 ≡ true) ↔ Covered 40 two_intervals
linear_iff_example = linear_iff two_intervals 40 ((omega arith, tt), (tt, tt))

abbrev fresh_list : WorkList
fresh_list = record { visited = []; intervals = []; scheduled_map = []; scheduled = [] }

abbrev after_take : WorkList
after_take = record {
  visited = [];
  intervals = [];
  scheduled_map = (8, false) ∷ [];
  scheduled = [];
}

abbrev some_events : List Event
some_events = explore 8 ∷ explore 8 ∷ take ∷ explore 8 ∷ []

run-some_events : run fresh_list [] some_events ≡ some (after_take, 8 ∷ [])
unfolding run bsearch has insert
run-some_events = refl

taken_once_example :
    ((c : ℕ) → count c (8 ∷ []) ≤ 1)
    × All (λ c. explore_pc_later after_take c ≡ some (after_take, false)) (8 ∷ [])
taken_once_example =
    taken_once fresh_list after_take (8 ∷ []) some_events (refl, refl) run-some_events

abbrev one_scheduled : WorkList
one_scheduled = record {
  visited = [];
  intervals = [];
  scheduled_map = (8, true) ∷ [];
  scheduled = 8 ∷ [];
}

get_next-one_scheduled : get_next_real_pc one_scheduled ≡ some (8, after_take)
unfolding get_next_real_pc insert
get_next-one_scheduled = refl

-- A plugin that has just been set up, and a block with one target and the thumb flag set.
abbrev first_plugin : Plugin
first_plugin = record {
  work = fresh_list;
  is_pc_thumb = [];
  jump_tables = [];
  all_basic_blocks = [];
  first_translation = true;
}

abbrev one_target : BlockFacts
one_target = record {
  targets = 0x8001 ∷ [];
  implicit = none;
  thumb_bit = thumb_bit_set;
  first_pc_after_bb = 0x1008;
}

no_tables :
    (pc : ℕ) (info : JumpTableInfo) → find pc first_plugin.jump_tables ≡ some info → IsTable info
unfolding find
no_tables pc info e = absurd (cc)

first_plugin-Inv : Inv first_plugin
first_plugin-Inv = record { sound = record { even = tt; few = omega arith }; tables = no_tables }

slot_returns_example :
    (r : Plugin × Action) × (slot_execute_block_start
        (λ a. 0)
        (λ a. true)
        first_plugin
        true
        0x1000
        one_target
      ≡ some r)
    × Inv r.0
    × Leaves (λ a. true) first_plugin true 0x1000 r.0 r.1
slot_returns_example =
    slot_returns (λ a. 0) (λ a. true) first_plugin true 0x1000 one_target first_plugin-Inv
      (omega arith)

thumb_pcs-two : thumb_pcs ((8, true) ∷ (16, false) ∷ []) ≡ 8 ∷ []
unfolding thumb_pcs
thumb_pcs-two = refl

-- A block that sets the flag and returns.
abbrev to_thumb : Block
to_thumb = record {
  label = 0;
  name = "entry";
  insts =
      record { id = 0; op = store (const_int 1) (global_var "thumb"); meta = [] }
      ∷ record { id = 1; op = ret; meta = [] }
      ∷ [];
}

to_thumb-Returns : All (Returns true) (to_thumb ∷ [])
to_thumb-Returns = ((λ e. ((λ n k. ground arith), ((λ n k. ground arith), tt))), tt)

get_thumb_bit_sure_example :
    get_thumb_bit (to_thumb ∷ [])
    ≡ (if any sets_thumb (to_thumb ∷ []) then bit true else thumb_bit_undefined)
get_thumb_bit_sure_example = get_thumb_bit_sure (to_thumb ∷ []) true to_thumb-Returns

-- A block that returns with 8 in PC and 4 in LR.
abbrev call_exit : EnvBlock
call_exit = record {
  returns = true;
  stores =
      record { address = int_to_ptr "env_v" (some 0xbc); value = some 4 }
      ∷ record { address = int_to_ptr "env_v" (some 0xc0); value = some 8 }
      ∷ [];
}

extract_targets-one :
    extract_targets (call_exit ∷ []) ≡ some (record { target_pcs = 8 ∷ 4 ∷ []; implicit = some 4 })
unfolding extract_targets
extract_targets-one = refl

-- Two such blocks fail the assertion.
extract_targets-two : extract_targets (call_exit ∷ call_exit ∷ []) ≡ none
unfolding extract_targets
extract_targets-two = refl

extract_targets-listed_example :
    extract_targets (call_exit ∷ [])
    ≡ with_implicit (listed (call_exit ∷ [])) none (listed_lr (call_exit ∷ []))
extract_targets-listed_example = extract_targets-listed (call_exit ∷ [])
