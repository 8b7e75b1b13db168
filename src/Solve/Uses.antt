-- ===== src/Solve/Uses.antt =====
-- What replaced values do to the stores that the pass looks at.
use bin2llvm.Base.{
  ℕ, true, List, Option, none, some, String, ◌≡◌, refl, ◌∙◌, Bool-cases, Option-cases, inl, inr,
  ◌==◌,
}
use bin2llvm.Base.Map.{NatMap, find, insert, find-insert}
use bin2llvm.Hex.{hex}
use bin2llvm.Ir.{
  Value, Kind, const_int, inst_ref, global_var, cast_expr, other_value, Op, store, load, binary,
  call, branch, switch, ret, other_inst, Inst, ins_curr_pc, ins_computed_value,
}
use bin2llvm.Ir.Meta.{
  set_metadata, get_metadata-set_metadata, get_current_pc_of_ins, get_hex_metadata_from_ins,
}
use bin2llvm.Ir.Pc.{as_const, is_some}
use bin2llvm.Memory.Loads.{used, used_op, used_inst}
use bin2llvm.Solve.{global_store, known_store}

-- What is replaced in one map is replaced in the other.
abbrev pub Grows : NatMap ℕ → NatMap ℕ → Type 0
Grows env env' = (n c : ℕ) → find n env ≡ some c → (d : ℕ) × (find n env' ≡ some d)

pub Grows-insert : (n c : ℕ) (env : NatMap ℕ) → Grows env (insert n c env)
Grows-insert n c env k d e = elim (Bool-cases (n == k)) [
  | inl y ↦ (c, find-insert n k c env ∙ rw y refl)
  | inr o ↦ (d, find-insert n k c env ∙ rw o e)
]

-- The stored value under the final replacements.
pub used-const :
    (env env' : NatMap ℕ) (v : Value)
    → Grows env env'
    → is_some (as_const (used env v)) ≡ true
    → is_some (as_const (used env' v)) ≡ true
unfolding used
used-const env env' (const_int n) g h = refl
used-const env env' (inst_ref n) g h = elim (Option-cases (find n env)) [
  | inl e ↦ cc (rw (e, used) at h)
  | inr (c, e) ↦ let (d, f) = g n c e in rw (used, f) refl
]
used-const env env' (global_var x) g h = cc
used-const env env' (cast_expr x to) g h = cc
used-const env env' (other_value x) g h = cc

-- A store to a global stays one, of the value that is replaced or stays.
abbrev pub use_value : NatMap ℕ → Option (String × Value) → Option (String × Value)
use_value env none = none
use_value env (some (g, v)) = some (g, used env v)

abbrev pub use_known : NatMap ℕ → Option (String × Value × ℕ) → Option (String × Value × ℕ)
use_known env none = none
use_known env (some (g, v, pc)) = some (g, used env v, pc)

pub store-used :
    (env : NatMap ℕ) (v p : Value)
    → global_store (store (used env v) (used env p)) ≡ use_value env (global_store (store v p))
unfolding used
store-used env v (inst_ref n) = elim (Option-cases (find n env)) [
  | inl e ↦ rw (e, used) refl
  | inr (c, e) ↦ rw (e, used) refl
]
store-used env v (const_int n) = refl
store-used env v (global_var g) = refl
store-used env v (cast_expr c to) = refl
store-used env v (other_value n) = refl

pub global_store-used :
    (env : NatMap ℕ) (op : Op) → global_store (used_op env op) ≡ use_value env (global_store op)
unfolding used_op
global_store-used env (store v p) = store-used env v p
global_store-used env (load p) = refl
global_store-used env (binary o a b) = refl
global_store-used env (call f vs) = refl
global_store-used env (branch l) = refl
global_store-used env (switch v d cs) = refl
global_store-used env ret = refl
global_store-used env (other_inst vs) = refl

pub current_pc-used :
    (env : NatMap ℕ) (i : Inst) → get_current_pc_of_ins (used_inst env i) ≡ get_current_pc_of_ins i
unfolding get_current_pc_of_ins get_hex_metadata_from_ins
current_pc-used env i = refl

pub known_store-used :
    (env : NatMap ℕ) (i : Inst) → known_store (used_inst env i) ≡ use_known env (known_store i)
unfolding known_store
known_store-used env i = elim (Option-cases (get_current_pc_of_ins i)) [
  | inl e ↦ rw (current_pc-used env i, e) refl
  | inr (pc, e) ↦ elim (Option-cases (global_store i.op)) [
    | inl z ↦ rw (current_pc-used env i, e, global_store-used env i.op, z) refl
    | inr ((g, v), z) ↦ rw (current_pc-used env i, e, global_store-used env i.op, z) refl
  ]
]

pub current_pc-set_metadata :
    (i : Inst) (t : List ℕ)
    → get_current_pc_of_ins (set_metadata i ins_computed_value t) ≡ get_current_pc_of_ins i
unfolding get_current_pc_of_ins get_hex_metadata_from_ins
current_pc-set_metadata i t = rw (get_metadata-set_metadata i ins_computed_value ins_curr_pc t) refl

pub op-set_metadata : (i : Inst) (k : Kind) (t : List ℕ) → (set_metadata i k t).op ≡ i.op
unfolding set_metadata
op-set_metadata i k t = refl

-- Metadata that the pass writes are not those of the address.
pub known_store-set_metadata :
    (i : Inst) (v : ℕ) → known_store (set_metadata i ins_computed_value (hex v)) ≡ known_store i
unfolding known_store
known_store-set_metadata i v =
    let same : get_current_pc_of_ins (set_metadata i ins_computed_value (hex v))
        ≡ get_current_pc_of_ins i =
      current_pc-set_metadata i (hex v) in
    rw (same, op-set_metadata i ins_computed_value (hex v)) refl

pub used-used :
    (env env' : NatMap ℕ) (v : Value)
    → Grows env env'
    → is_some (as_const (used env' (used env v))) ≡ true
    → is_some (as_const (used env' v)) ≡ true
unfolding used
used-used env env' (const_int n) g h = refl
used-used env env' (inst_ref n) g h = elim (Option-cases (find n env)) [
  | inl e ↦ rw (e, used) at h
  | inr (c, e) ↦ let (d, f) = g n c e in rw (used, f) refl
]
used-used env env' (global_var x) g h = cc
used-used env env' (cast_expr x to) g h = cc
used-used env env' (other_value x) g h = cc

pub Grows_refl : (env : NatMap ℕ) → Grows env env
Grows_refl env n c e = (c, e)

pub Grows_trans : (a b c : NatMap ℕ) → Grows a b → Grows b c → Grows a c
Grows_trans a b c g h n x e = let (d, f) = g n x e in h n d f
