-- ===== src/Env/Uses.antt =====
-- processArgUse, processEnvUse and runOnFunction. The uses of a pointer into the CPU state form a tree:
-- each cast, addition or getelementptr has one such operand, and its own uses are the branches. The
-- instructions are known by their ids.
pub mod Spec
pub mod Access
pub mod Order
use bin2llvm.Base.{
  ℕ, zero, suc, ◌+◌, ◌-◌, ◌*◌, ◌%◌, ◌^◌, Bool, true, false, not, ◌&&◌, List, [], ◌∷◌, ◌++◌, Option,
  none, some, ltb, ◌==◌, if◌then◌else◌,
}
use bin2llvm.Base.Map.{NatMap}
use bin2llvm.Base.Abort.{◌>>=◌, ◌>>◌, assert}
use bin2llvm.Ir.Pc.{any}
use bin2llvm.Hex.{Text}
use bin2llvm.Env.Names.{get_global_name}

-- An index of a getelementptr: a zero, a field of a structure with the offset that its layout gives, an
-- element with its size and its number, as 64-bit words, or no constant.
pub data GepIndex : Type 0 where
  null : GepIndex
  field : ℕ → GepIndex
  element : ℕ → ℕ → GepIndex
  variable : GepIndex

-- elementOffset is an int.
unfoldable pub element_offset : ℕ → List GepIndex → Option ℕ
element_offset acc [] = some acc
element_offset acc (null ∷ is) = element_offset acc is
element_offset acc (field o ∷ is) = element_offset ((acc + o) % 2 ^ 32) is
element_offset acc (element size n ∷ is) = element_offset ((acc + size * n) % 2 ^ 32) is
element_offset acc (variable ∷ is) = none

-- An int as an int64_t.
abbrev pub sign_extend : ℕ → ℕ
sign_extend n = if ltb n (2 ^ 31) then n else n + (2 ^ 64 - 2 ^ 32)

-- -1 is the error.
unfoldable pub get_element_ptr_offset : List GepIndex → ℕ
unfolding element_offset
get_element_ptr_offset is = elim (element_offset 0 is) [
  | none ↦ 2 ^ 64 - 1
  | some n ↦ sign_extend n
]

mutual
  -- A use, with its own uses: for an addition operand 1, if it is a constant; for a store whether the
  -- pointer is its address.
  pub data Use : Type 0 where
    cast : ℕ → Uses → Use
    add : ℕ → Option ℕ → Uses → Use
    gep : ℕ → List GepIndex → Uses → Use
    load : ℕ → Uses → Use
    store : ℕ → Bool → Use
    other_use : Use

  pub data Uses : Type 0 where
    nil : Uses
    cons : Use → Uses → Uses

-- replaceMap: the loads and stores, with the global that each will name; and eraseList.
pub record Found : Type 0 where
  pub replace : List (ℕ × Text)
  pub erase : List ℕ

abbrev pub push_erase : ℕ → Found → Found
push_erase i st = record st { erase = st.erase ++ i ∷ [] }

-- if (recursiveSuccess) eraseList.push_back(useInstruction)
abbrev pub finish : ℕ → Bool × Found → Bool × Found
finish i (true, st) = (true, push_erase i st)
finish i (false, st) = (false, st)

abbrev pub sink : NatMap Text → ℕ → ℕ → Found → Found
sink names i offset st = record {
  replace = st.replace ++ (i, get_global_name names offset) ∷ [];
  erase = st.erase ++ i ∷ [];
}

-- currentOffset + constOffset, an unsigned int.
abbrev pub shifted : ℕ → ℕ → ℕ
shifted offset c = (offset + c) % 2 ^ 32

module _ (names : NatMap Text) where
  unfoldable mutual
    -- processEnvUse; `ok` is recursiveSuccess so far. All uses are processed, also behind a failure.
    pub process_env_use : Use → ℕ → Found → Bool × Found
    process_env_use (cast i us) offset st = finish i (process_env_uses us offset true st)
    process_env_use (add i none us) offset st = (false, st)
    process_env_use (add i (some c) us) offset st =
        finish i (process_env_uses us (shifted offset c) true st)
    process_env_use (gep i is us) offset st =
        let o = get_element_ptr_offset is in
        let r = finish i (process_env_uses us (shifted offset o) true st) in
        if o == 2 ^ 64 - 1 then (false, st) else r
    process_env_use (load i us) offset st = (true, sink names i offset st)
    process_env_use (store i true) offset st = (true, sink names i offset st)
    process_env_use (store i false) offset st = (false, st)
    process_env_use other_use offset st = (false, st)

    pub process_env_uses : Uses → ℕ → Bool → Found → Bool × Found
    process_env_uses nil offset ok st = (ok, st)
    process_env_uses (cons u us) offset ok st =
        let r = process_env_use u offset st in process_env_uses us offset (ok && r.0) r.1

-- The index list of a getelementptr that moves nowhere: one constant zero.
abbrev pub is_zero_gep : List GepIndex → Bool
is_zero_gep (null ∷ []) = true
is_zero_gep _ = false

module _ (names : NatMap Text) where
  unfoldable mutual
    unfolding process_env_uses

    pub process_arg_use : Use → Found → Bool × Found
    process_arg_use (cast i us) st = finish i (process_arg_uses us true st)
    process_arg_use (gep i is us) st =
        let r = finish i (process_arg_uses us true st) in if is_zero_gep is then r else (false, st)
    process_arg_use (load i us) st = finish i (process_env_uses names us 0 true st)
    process_arg_use (add i c us) st = (false, st)
    process_arg_use (store i p) st = (false, st)
    process_arg_use other_use st = (false, st)

    pub process_arg_uses : Uses → Bool → Found → Bool × Found
    process_arg_uses nil ok st = (ok, st)
    process_arg_uses (cons u us) ok st =
        let r = process_arg_use u st in process_arg_uses us (ok && r.0) r.1

  -- The uses of the argument, and then the loads of the pointer "env", with recursiveSuccess.
  unfoldable pub search_uses : Uses → Uses → Bool × Found
  unfolding process_arg_uses
  search_uses arg_uses env_loads =
      let r = process_arg_uses arg_uses true (record { replace = []; erase = [] }) in
      process_arg_uses env_loads r.0 r.1

-- The instruction of a use.
abbrev pub id_of : Use → Option ℕ
id_of (cast i us) = some i
id_of (add i c us) = some i
id_of (gep i is us) = some i
id_of (load i us) = some i
id_of (store i p) = some i
id_of other_use = none

abbrev pub is_erased : List ℕ → Use → Bool
is_erased erase u = elim (id_of u) [ none ↦ false | some i ↦ any (λ j. j == i) erase ]

-- The uses that the second loop of cleanup leaves, which erases the instructions of eraseList. The
-- first loop puts globals in the place of what is loaded and stored, which adds no use of the argument.
unfoldable pub cleanup : List ℕ → Uses → Uses
unfolding any
cleanup erase nil = nil
cleanup erase (cons u us) =
    let rest = cleanup erase us in if is_erased erase u then rest else cons u rest

abbrev pub no_uses : Uses → Bool
no_uses nil = true
no_uses (cons u us) = false

-- What the search found, and which uses of the argument and which loads of "env" are left.
pub record Cleaned : Type 0 where
  pub success : Bool
  pub found : Found
  pub arg_uses : Uses
  pub env_loads : Uses

abbrev pub cleaned : Bool × Found → Uses → Uses → Cleaned
unfolding cleanup
cleaned r arg_uses env_loads = record {
  success = r.0;
  found = r.1;
  arg_uses = cleanup r.1.erase arg_uses;
  env_loads = cleanup r.1.erase env_loads;
}

-- runOnFunction. loadEnv has taken the argument's place, so what uses the argument uses it; where the
-- search has succeeded it is erased, and eraseFromParent asserts that it has no uses.
unfoldable pub run_on_function : NatMap Text → Uses → Uses → Option Cleaned
unfolding search_uses cleanup
run_on_function names arg_uses env_loads = do
  let c = cleaned (search_uses names arg_uses env_loads) arg_uses env_loads
  assert (if c.success then no_uses c.arg_uses else true)
  some c
