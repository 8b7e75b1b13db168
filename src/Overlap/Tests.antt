-- ===== src/Overlap/Tests.antt =====
-- A block of two instructions and the block that starts at the second one.
use mathlib.Core.Logic.{⊎_elim}
use bin2llvm.Base.{
  All, ℕ, List, [], ◌∷◌, some, String, ◌≡◌, ◌≢◌, ◌<◌, refl, arith, get_elem?, In, In-cons,
  not-In-nil,
}
use bin2llvm.Hex.{hex}
use bin2llvm.Ir.{Inst, Function, store, const_int, global_var, ret, bb_pc_start, ins_curr_pc}
use bin2llvm.Ir.Meta.{has_metadata, get_pc_start_of_func, get_current_pc_of_ins}
use bin2llvm.Ir.Pc.{any}
use bin2llvm.Build.Shape.{is_fake}
use bin2llvm.Overlap.Exits.{Plain}
use bin2llvm.Overlap.Succeeds.{truncate_returns}
use bin2llvm.Overlap.Chain.{Chain, truncate_list-Chain}
use bin2llvm.Overlap.{link_store, link_return, truncate_func_and_link_with, truncate_list}
use bin2llvm.Overlap.Cut.{Cut, truncate-Cut}

abbrev inst_at : ℕ → ℕ → Inst
inst_at pc n = record {
  id = 0;
  op = store (const_int n) (global_var "R0");
  meta = (bb_pc_start, hex pc) ∷ (ins_curr_pc, hex pc) ∷ [];
}

abbrev func_with : String → List Inst → Function
func_with name is = record {
  name = name;
  blocks = record { label = 0; name = "entry"; insts = is } ∷ [];
}

abbrev long_func : Function
long_func =
    func_with "a"
      (inst_at 0x1000 1 ∷ inst_at 0x1004 2 ∷ record { id = 0; op = ret; meta = [] } ∷ [])

abbrev short_func : Function
short_func = func_with "b" (inst_at 0x1004 2 ∷ record { id = 0; op = ret; meta = [] } ∷ [])

abbrev cut_func : Function
cut_func =
    func_with "a-split-to-x"
      (inst_at 0x1000 1 ∷ inst_at 0x1004 2 ∷ link_store 0x1004 ∷ link_return ∷ [])

truncate-Cut_example :
    (pc_a : ℕ) × (pc_b : ℕ) × (get_pc_start_of_func long_func ≡ some pc_a)
    × (get_pc_start_of_func short_func ≡ some pc_b)
    × (pc_a < pc_b)
    × Cut pc_b long_func.blocks cut_func.blocks
unfolding truncate_func_and_link_with hex get_pc_start_of_func get_current_pc_of_ins
truncate-Cut_example = truncate-Cut (λ t. "x") long_func short_func cut_func refl

single-absent : (k n : ℕ) → k ≢ n → ¬ In k (n ∷ [])
single-absent k n h x = ⊎_elim h (not-In-nil k) (In-cons k n [] x)

truncate_list-Chain_example :
    Chain (long_func ∷ short_func ∷ []) (cut_func ∷ short_func ∷ []) (0 ∷ 1 ∷ [])
    × (get_elem? (cut_func ∷ short_func ∷ []) 2 ≡ get_elem? (long_func ∷ short_func ∷ []) 2)
unfolding truncate_list truncate_func_and_link_with hex get_pc_start_of_func get_current_pc_of_ins
truncate_list-Chain_example =
    truncate_list-Chain (λ t. "x") (long_func ∷ short_func ∷ []) (cut_func ∷ short_func ∷ [])
      (0 ∷ 1 ∷ []) 2 (single-absent 0 1 (λ e. omega (arith, e)), (not-In-nil 1, tt))
      (λ x.
        ⊎_elim (λ e. omega (arith, e)) (single-absent 2 1 (λ e. omega (arith, e)))
          (In-cons 2 0 (1 ∷ []) x))
      refl

long_func-Plain : All Plain long_func.blocks
unfolding any has_metadata is_fake
long_func-Plain = (record { ends = refl; no_stray = refl }, tt)

short_func-start : get_pc_start_of_func short_func ≡ some 0x1004
unfolding get_pc_start_of_func hex
short_func-start = refl

long_func-start : get_pc_start_of_func long_func ≡ some 0x1000
unfolding get_pc_start_of_func hex
long_func-start = refl

long_func-Cut : Cut 0x1004 long_func.blocks cut_func.blocks
unfolding hex get_current_pc_of_ins
long_func-Cut = record {
  before = [];
  overlap = record {
    label = 0;
    name = "entry";
    insts = inst_at 0x1000 1 ∷ inst_at 0x1004 2 ∷ record { id = 0; op = ret; meta = [] } ∷ [];
  };
  behind = [];
  front = inst_at 0x1000 1 ∷ inst_at 0x1004 2 ∷ [];
  found = record {
    before = inst_at 0x1000 1 ∷ [];
    at = inst_at 0x1004 2;
    behind = record { id = 0; op = ret; meta = [] } ∷ [];
    whole = refl;
    kept = refl;
    at_pc = refl;
    first = ((0x1000, refl, (λ e. omega (arith, e))), tt);
    inside = λ e. cc;
  };
  earlier = tt;
  whole = refl;
  result = refl;
}

truncate_returns_example :
    (c : Function) × (truncate_func_and_link_with (λ t. "x") long_func short_func ≡ some c)
    × (c.blocks ≡ cut_func.blocks)
truncate_returns_example =
    truncate_returns (λ t. "x") long_func short_func cut_func.blocks 0x1000 0x1004 long_func-start
      short_func-start (omega arith) long_func-Cut
