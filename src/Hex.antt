-- ===== src/Hex.antt =====
-- The text form of a 64-bit number in the metadata: FixOverlappedBBs::hex, and the strtoll(s, NULL,
-- 16) of getHexMetadataFromIns.
pub mod RoundTrip
mod Tests
use bin2llvm.Base.{
  ℕ, zero, suc, ◌+◌, ◌-◌, ◌*◌, ◌/◌, ◌%◌, ◌^◌, Bool, true, false, ◌&&◌, ◌||◌, List, [], ◌∷◌, ◌++◌,
  ltb, leb, ◌==◌, if◌then◌else◌, length, replicate, Option, none, some,
}

-- A C string, as the list of its bytes.
abbrev pub Text : Type 0
Text = List ℕ

digit_char : ℕ → ℕ
digit_char d = if ltb d 10 then d + 48 else d + 87

-- The digits of n before the text `acc`; the fuel is the number of digits that fit.
hex_digits : ℕ → ℕ → Text → Text
unfolding digit_char
hex_digits zero n acc = acc
hex_digits (suc fuel) n acc =
    let acc' = digit_char (n % 16) ∷ acc in
    let rest = hex_digits fuel (n / 16) acc' in if ltb n 16 then acc' else rest

-- "%08lx"
pad8 : Text → Text
pad8 ds = replicate (8 - length ds) b'0' ++ ds

unfoldable pub hex : ℕ → Text
unfolding hex_digits pad8
hex n = b'0' ∷ b'x' ∷ pad8 (hex_digits 16 n [])

-- What a std::stringstream prints under std::hex.
unfoldable pub hex_text : ℕ → Text
unfolding hex_digits
hex_text n = hex_digits 16 n []

-- The value of a digit in base 16, if it is one.
digit_value : ℕ → Option ℕ
digit_value c =
    if leb b'0' c && leb c b'9'
    then some (c - 48)
    else if leb b'a' c && leb c b'f'
    then some (c - 87)
    else if leb b'A' c && leb c b'F'
    then some (c - 55)
    else none

parse_digits : ℕ → Text → ℕ
unfolding digit_value
parse_digits acc [] = acc
parse_digits acc (c ∷ cs) = elim (digit_value c) [
  | none ↦ acc
  | some d ↦ parse_digits (acc * 16 + d) cs
]

is_space : ℕ → Bool
is_space c = c == 32 || (leb 9 c && leb c 13)

skip_space : Text → Text
unfolding is_space
skip_space [] = []
skip_space (c ∷ cs) = if is_space c then skip_space cs else c ∷ cs

-- The optional 0x. Where no digit stands behind it, the number is the 0 and nothing changes.
skip_prefix : Text → Text
skip_prefix (c ∷ x ∷ cs) = if c == b'0' && (x == b'x' || x == b'X') then cs else c ∷ x ∷ cs
skip_prefix cs = cs

-- LLONG_MAX and the clamp of an overflow, with the result as a uint64_t.
abbrev pub llong_max : ℕ
llong_max = 0x7fff_ffff_ffff_ffff

pub clamp_pos : ℕ → ℕ
clamp_pos n = if leb n llong_max then n else llong_max

clamp_neg : ℕ → ℕ
clamp_neg n = if leb n (llong_max + 1) then (2 ^ 64 - n) % 2 ^ 64 else llong_max + 1

unsigned_part : Text → ℕ
unfolding parse_digits skip_prefix
unsigned_part cs = parse_digits 0 (skip_prefix cs)

signed_part : Text → ℕ
unfolding clamp_pos clamp_neg unsigned_part
signed_part [] = 0
signed_part (c ∷ cs) =
    if c == b'-'
    then clamp_neg (unsigned_part cs)
    else if c == b'+'
    then clamp_pos (unsigned_part cs)
    else clamp_pos (unsigned_part (c ∷ cs))

unfoldable pub strtoll16 : Text → ℕ
unfolding skip_space signed_part
strtoll16 cs = signed_part (skip_space cs)
