-- ===== src/Env/Names.antt =====
-- setRegisterName, initRegisterNames and getGlobalName, with the table of the ARM build.
pub mod Injective
use bin2llvm.Base.{
  ℕ, zero, suc, ◌+◌, ◌/◌, ◌%◌, ◌^◌, Bool, List, [], ◌∷◌, ◌++◌, Option, none, some, if◌then◌else◌,
  ltb, ◌==◌,
}
use bin2llvm.Base.Map.{NatMap, find, has}
use bin2llvm.Hex.{Text, hex_text}

-- std::map::insert, which keeps the name that is there.
unfoldable pub set_register_name : NatMap Text → ℕ × Text → NatMap Text
set_register_name names (offset, name) = if has offset names then names else (offset, name) ∷ names

unfoldable pub init_register_names : NatMap Text → List (ℕ × Text) → NatMap Text
unfolding set_register_name
init_register_names names [] = names
init_register_names names (r ∷ rs) = init_register_names (set_register_name names r) rs

-- R0 to R12.
abbrev pub reg : ℕ → Text
reg c = b'R' ∷ c ∷ []

abbrev pub reg1 : ℕ → Text
reg1 c = b'R' ∷ b'1' ∷ c ∷ []

abbrev pub s2e : Text
s2e = b's' ∷ b'2' ∷ b'e' ∷ b'_' ∷ []

abbrev pub icount : Text
icount = b'i' ∷ b'c' ∷ b'o' ∷ b'u' ∷ b'n' ∷ b't' ∷ []

abbrev pub current_tb : Text
current_tb = b'c' ∷ b'u' ∷ b'r' ∷ b'r' ∷ b'e' ∷ b'n' ∷ b't' ∷ b'_' ∷ b't' ∷ b'b' ∷ []

-- cpu_offset_names_arm
abbrev pub cpu_offset_names_arm : List (ℕ × Text)
cpu_offset_names_arm =
    (0xcc, b't' ∷ b'h' ∷ b'u' ∷ b'm' ∷ b'b' ∷ [])
    ∷ (0x80, b'Z' ∷ b'F' ∷ [])
    ∷ (0x74, b'C' ∷ b'F' ∷ [])
    ∷ (0x78, b'V' ∷ b'F' ∷ [])
    ∷ (0x7c, b'N' ∷ b'F' ∷ [])
    ∷ (0xc0, b'P' ∷ b'C' ∷ [])
    ∷ (0xbc, b'L' ∷ b'R' ∷ [])
    ∷ (0xb8, b'S' ∷ b'P' ∷ [])
    ∷ (0xb4, reg1 b'2')
    ∷ (0xb0, reg1 b'1')
    ∷ (0xac, reg1 b'0')
    ∷ (0xa8, reg b'9')
    ∷ (0xa4, reg b'8')
    ∷ (0xa0, reg b'7')
    ∷ (0x9c, reg b'6')
    ∷ (0x98, reg b'5')
    ∷ (0x94, reg b'4')
    ∷ (0x90, reg b'3')
    ∷ (0x8c, reg b'2')
    ∷ (0x88, reg b'1')
    ∷ (0x84, reg b'0')
    ∷ (0x1e8d8, s2e ++ icount)
    ∷ (0x4a8, current_tb)
    ∷ (
      0x4b0,
      s2e ++ icount ++ b'_' ∷ b'b' ∷ b'e' ∷ b'f' ∷ b'o' ∷ b'r' ∷ b'e' ∷ b'_' ∷ b't' ∷ b'b' ∷ [],
    )
    ∷ []

-- nameMap of the ARM build.
unfoldable pub arm_names : NatMap Text
unfolding init_register_names
arm_names = init_register_names [] cpu_offset_names_arm

-- "GLOBAL_@"
abbrev pub global_at : Text
global_at = b'G' ∷ b'L' ∷ b'O' ∷ b'B' ∷ b'A' ∷ b'L' ∷ b'_' ∷ b'@' ∷ []

-- The name of the global at an offset, an unsigned int.
unfoldable pub get_global_name : NatMap Text → ℕ → Text
get_global_name names offset = elim (find offset names) [
  | some name ↦ name
  | none ↦ global_at ++ hex_text offset
]
