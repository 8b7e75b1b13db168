-- ===== src/Env/Tests.antt =====
-- The example of the source: a load of R0 and a store to PC through env, one by an addition.
use bin2llvm.Base.{ℕ, ◌%◌, ◌^◌, true, false, [], ◌∷◌, some, ◌≡◌, refl, In, arith}
use bin2llvm.Hex.{Text}
use bin2llvm.Env.Names.{arm_names, get_global_name}
use bin2llvm.Env.Names.Injective.{get_global_name-inj}
use bin2llvm.Env.Uses.{
  Use, Uses, cast, add, load, store, other_use, nil, cons, Found, process_env_use, search_uses,
}
use bin2llvm.Env.Uses.Access.{process_env_use-Access, Access, Named}

-- env_v + 0x84, cast and loaded, and env_v + 0xc0, cast and stored to.
abbrev r0_use : Use
r0_use = add 1 (some 0x84) (cons (cast 2 (cons (load 3 nil) nil)) nil)

abbrev pc_use : Use
pc_use = add 4 (some 0xc0) (cons (cast 5 (cons (store 6 true) nil)) nil)

abbrev env_uses : Uses
env_uses = cons (load 0 (cons r0_use (cons pc_use nil))) nil

abbrev no_found : Found
no_found = record { replace = []; erase = [] }

-- The uses come before what they use.
run_test : (search_uses arm_names env_uses nil).1.erase ≡ 3 ∷ 2 ∷ 1 ∷ 6 ∷ 5 ∷ 4 ∷ 0 ∷ []
unfolding search_uses
run_test = refl

-- A call leaves its pointer, and what leads to it, behind.
call_test :
    (search_uses arm_names
      (cons (load 0 (cons r0_use (cons (cast 7 (cons other_use nil)) nil))) nil)
      nil).0
    ≡ false
unfolding search_uses
call_test = refl

get_global_name-inj_example : ◌≡◌ {A = ℕ} 0x84 0x84
get_global_name-inj_example = get_global_name-inj 0x84 0x84 (omega arith) (omega arith) refl

process_env_use-Access_example :
    let r = (process_env_use arm_names r0_use 0 (record { replace = []; erase = [] })).1.replace in
    ((i : ℕ) (t : Text) → In (i, t) r → Named arm_names r0_use 0 i t)
    × ((n i : ℕ) → Access r0_use n i → In (i, get_global_name arm_names (n % 2 ^ 32)) r)
process_env_use-Access_example = process_env_use-Access arm_names r0_use
