-- ===== src/Overlap.antt =====
-- FixOverlappedBBs: translated blocks that end at the same address overlap, and each but the last is cut
-- where the next one starts, and linked with it. A Function * is its position in the module. The node
-- "lastpc" holds a ConstantInt; here it is the text of the number.
pub mod Cut
pub mod Order
pub mod Chain
pub mod Exits
pub mod Succeeds
mod Tests
use Prim.Native.String.{◌++◌ as str_append}
use bin2llvm.Base.{
  ℕ, zero, suc, ◌+◌, ◌%◌, ◌^◌, Bool, true, false, not, ◌&&◌, ◌||◌, List, [], ◌∷◌, ◌++◌, Option,
  none, some, String, str_eq, map, length, get_elem?, ltb, ◌==◌, if◌then◌else◌,
}
use bin2llvm.Base.Map.{NatMap, find, insert}
use bin2llvm.Base.Abort.{◌>>=◌, ◌>>◌, assert, map_option}
use bin2llvm.Hex.{Text, hex}
use bin2llvm.Ir.{
  last_pc, ins_split_call, ins_fake_return, ins_curr_pc, const_int, global_var, store, ret, Inst,
  Block, Function, Module,
}
use bin2llvm.Ir.Meta.{
  has_metadata, get_hex_metadata_from_ins, get_current_pc_of_ins, get_pc_start_of_func, entry_block,
}
use bin2llvm.Ir.Pc.{true_text, contains}

-- What linkWith appends: the store of the target, and the return.
abbrev pub link_store : ℕ → Inst
link_store target = record {
  id = 0;
  op = store (const_int (target % 2 ^ 32)) (global_var "PC");
  meta = (ins_split_call, true_text) ∷ [];
}

abbrev pub link_return : Inst
link_return = record { id = 0; op = ret; meta = (ins_fake_return, true_text) ∷ [] }

-- An instruction, where `rest` is the search behind it: the block is cut behind an instruction at pcB.
-- splitBasicBlock needs one more instruction there.
unfoldable pub cut_at :
    Bool → Inst → List Inst → Option (Option (List Inst)) → Option (Option (List Inst))
cut_at true i [] rest = none
cut_at true i (j ∷ js) rest = some (some (i ∷ []))
cut_at false i is rest = do
  r ← rest
  elim r [ none ↦ some none | some front ↦ some (some (i ∷ front)) ]

-- The block up to the first instruction at pcB, that instruction included; `none` if there is no such
-- instruction. An instruction without address before it fails the assertion, which is the outer `none`.
unfoldable pub cut_insts : ℕ → List Inst → Option (Option (List Inst))
unfolding cut_at
cut_insts pc_b [] = some none
cut_insts pc_b (i ∷ is) = do
  pc ← get_current_pc_of_ins i
  cut_at (pc == pc_b) i is (cut_insts pc_b is)

-- The first block that is cut, and the others as they are; `none` if the assertion that one is found
-- fails.
unfoldable pub cut_blocks : ℕ → List Block → Option (List Block)
unfolding cut_insts
cut_blocks pc_b [] = none
cut_blocks pc_b (b ∷ bs) = do
  r ← cut_insts pc_b b.insts
  elim r [
    | some front ↦ some (record b { insts = front ++ link_store pc_b ∷ link_return ∷ [] } ∷ bs)
    | none ↦ (do rest ← cut_blocks pc_b bs; some (b ∷ rest))
  ]

-- getLastPc of the entry block, as an unsigned.
unfoldable pub last_inst : List Inst → Option Inst
last_inst [] = none
last_inst (i ∷ []) = some i
last_inst (i ∷ j ∷ is) = last_inst (j ∷ is)

unfoldable pub get_last_pc : Block → Option ℕ
unfolding last_inst
get_last_pc b = do
  t ← last_inst b.insts
  pc ← get_hex_metadata_from_ins t last_pc
  some (pc % 2 ^ 32)

-- endings and overlaps.
pub record Endings : Type 0 where
  pub endings : NatMap (List ℕ)
  pub overlaps : List ℕ

abbrev pub ending_at : ℕ → NatMap (List ℕ) → List ℕ
ending_at pc m = elim (find pc m) [ none ↦ [] | some fs ↦ fs ]

-- endings[pcEnd].push_back(ifunc), and the overlap that the second function makes.
unfoldable pub add_ending : ℕ → ℕ → Endings → Endings
add_ending pc_end i st =
    let fs = ending_at pc_end st.endings ++ i ∷ [] in
    record {
      endings = insert pc_end fs st.endings;
      overlaps = if length fs == 2 then st.overlaps ++ pc_end ∷ [] else st.overlaps;
    }

unfoldable pub find_overlaps : ℕ → Module → Endings → Option Endings
unfolding add_ending get_last_pc entry_block
find_overlaps i [] st = some st
find_overlaps i (f ∷ fs) st = elim (contains f.name "void-tcg-llvm-tb") [
  | false ↦ find_overlaps (suc i) fs st
  | true ↦ (do
    b ← entry_block f.blocks
    pc_end ← get_last_pc b
    find_overlaps (suc i) fs (add_ending pc_end i st))
]

-- std::list::sort by the start: stable.
unfoldable pub insert_by_start : ℕ × ℕ → List (ℕ × ℕ) → List (ℕ × ℕ)
insert_by_start x [] = x ∷ []
insert_by_start x (y ∷ ys) = if ltb y.0 x.0 then y ∷ insert_by_start x ys else x ∷ y ∷ ys

unfoldable pub sort_by_start : List (ℕ × ℕ) → List (ℕ × ℕ)
unfolding insert_by_start
sort_by_start [] = []
sort_by_start (x ∷ xs) = insert_by_start x (sort_by_start xs)

-- myCompareStartOfFunc looks the starts up: the start and the position of each function.
unfoldable pub start_of : Module → ℕ → Option (ℕ × ℕ)
start_of m i = do f ← get_elem? m i; pc ← get_pc_start_of_func f; some (pc, i)

abbrev pub replace : ℕ → Function → Module → Module
replace i f [] = []
replace zero f (g ∷ gs) = f ∷ gs
replace (suc i) f (g ∷ gs) = g ∷ replace i f gs

-- A name is a list of bytes here: `to_string` makes the name of the text.
module _ (to_string : Text → String) where
  unfoldable pub truncate_func_and_link_with : Function → Function → Option Function
  unfolding cut_blocks
  truncate_func_and_link_with a b = do
    pc_a ← get_pc_start_of_func a
    pc_b ← get_pc_start_of_func b
    assert (ltb pc_a pc_b)
    bs ← cut_blocks pc_b a.blocks
    some (record {
      name = str_append (str_append a.name "-split-to-") (to_string (hex pc_b));
      blocks = bs;
    })

  -- Each function of a sorted list with the next one.
  unfoldable pub truncate_list : Module → List ℕ → Option Module
  unfolding truncate_func_and_link_with
  truncate_list m [] = some m
  truncate_list m (i ∷ []) = some m
  truncate_list m (i ∷ j ∷ js) = do
    a ← get_elem? m i
    b ← get_elem? m j
    c ← truncate_func_and_link_with a b
    truncate_list (replace i c m) (j ∷ js)

  unfoldable pub truncate_all : Module → List (List ℕ) → Option Module
  unfolding truncate_list
  truncate_all m [] = some m
  truncate_all m (fs ∷ rest) = do next ← truncate_list m fs; truncate_all next rest

  -- The module, and whether there was an overlap.
  unfoldable pub fix_overlapped_bbs : Module → Option (Module × Bool)
  unfolding map_option find_overlaps sort_by_start start_of truncate_all
  fix_overlapped_bbs m = do
    st ← find_overlaps 0 m (record { endings = []; overlaps = [] })
    lists ← map_option (λ o. map_option (start_of m) (ending_at o st.endings)) st.overlaps
    fixed ← truncate_all m (map (λ l. map (λ x. x.1) (sort_by_start l)) lists)
    some (fixed, not (length st.overlaps == 0))

-- The number of addresses of a function: visited.size().
unfoldable pub visit_pcs : List Inst → NatMap Bool → Option (NatMap Bool)
visit_pcs [] visited = some visited
visit_pcs (i ∷ is) visited = elim (has_metadata i ins_curr_pc) [
  | false ↦ visit_pcs is visited
  | true ↦ (do pc ← get_current_pc_of_ins i; visit_pcs is (insert pc true visited))
]

unfoldable pub visit_blocks : List Block → NatMap Bool → Option (NatMap Bool)
unfolding visit_pcs
visit_blocks [] visited = some visited
visit_blocks (b ∷ bs) visited = do next ← visit_pcs b.insts visited; visit_blocks bs next

unfoldable pub get_number_of_asm_instructions : Function → Option ℕ
unfolding visit_blocks
get_number_of_asm_instructions f = do visited ← visit_blocks f.blocks []; some (length visited)
