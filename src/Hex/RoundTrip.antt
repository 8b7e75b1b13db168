-- ===== src/Hex/RoundTrip.antt =====
-- What is written by `hex` and read back by `strtoll16`.
use bin2llvm.Base.{
  ℕ, zero, suc, ◌+◌, ◌-◌, ◌*◌, ◌/◌, ◌%◌, ◌^◌, ◌≤◌, ◌<◌, ◌≡◌, refl, ◌∙◌, [], ◌∷◌, ◌++◌, arith, some,
  inl, inr, Bool-cases, ltb, length, replicate, ap, sym, ◌≢◌,
}
use native.Mathlib.Nat.{pow-suc}
use bin2llvm.Hex.{
  Text, digit_char, digit_value, hex_digits, hex_text, pad8, hex, parse_digits, strtoll16,
  llong_max, clamp_pos,
}

digit_value-digit_char : (d : ℕ) → d < 16 → digit_value (digit_char d) ≡ some d
unfolding digit_value digit_char
digit_value-digit_char d h = ground arith

parse_digits-nil : (n : ℕ) → parse_digits n [] ≡ n
unfolding parse_digits
parse_digits-nil n = refl

parse_digits-digit_char :
    (acc d : ℕ) (cs : Text)
    → d < 16
    → parse_digits acc (digit_char d ∷ cs) ≡ parse_digits (acc * 16 + d) cs
unfolding parse_digits
parse_digits-digit_char acc d cs h = rw (digit_value-digit_char d h, parse_digits)

-- The digits of n read back as n, whatever text follows them.
parse_digits-hex_digits :
    (fuel n : ℕ) (cs : Text)
    → n < 16 ^ fuel
    → parse_digits 0 (hex_digits fuel n cs) ≡ parse_digits n cs
unfolding hex_digits
parse_digits-hex_digits zero n cs h = let e : n ≡ 0 = omega arith in rw e
parse_digits-hex_digits (suc fuel) n cs h = elim (Bool-cases (ltb n 16)) [
  | inl last ↦
      let e : 0 * 16 + n % 16 ≡ n = ground arith in
      rw last (parse_digits-digit_char 0 (n % 16) cs (omega arith) ∙ ap (λ k. parse_digits k cs) e)
  | inr more ↦
      let below : n / 16 < 16 ^ fuel = omega (arith, pow-suc 16 fuel) in
      let e : n / 16 * 16 + n % 16 ≡ n = omega arith in
      rw more (
        parse_digits-hex_digits fuel (n / 16) (digit_char (n % 16) ∷ cs) below
        ∙ parse_digits-digit_char (n / 16) (n % 16) cs (omega arith)
        ∙ ap (λ k. parse_digits k cs) e)
]

-- Two numbers of 64 bits with the same digits are equal.
pub hex_text-inj : (n m : ℕ) → n < 2 ^ 64 → m < 2 ^ 64 → hex_text n ≡ hex_text m → n ≡ m
unfolding hex_text
hex_text-inj n m hn hm e =
    sym (parse_digits-hex_digits 16 n [] hn ∙ parse_digits-nil n)
    ∙ ap (parse_digits 0) e
    ∙ parse_digits-hex_digits 16 m [] hm
    ∙ parse_digits-nil m

parse_digits-zeros :
    (k : ℕ) (cs : Text) → parse_digits 0 (replicate k b'0' ++ cs) ≡ parse_digits 0 cs
unfolding parse_digits digit_value
parse_digits-zeros zero cs = refl
parse_digits-zeros (suc k) cs = parse_digits-zeros k cs

parse_digits-pad8 : (cs : Text) → parse_digits 0 (pad8 cs) ≡ parse_digits 0 cs
unfolding pad8
parse_digits-pad8 cs = parse_digits-zeros (8 - length cs) cs

-- A text that `hex` wrote is read back as its number, clamped to the largest long long.
pub strtoll16-hex_clamped : (v : ℕ) → v < 2 ^ 64 → strtoll16 (hex v) ≡ clamp_pos v
unfolding strtoll16 hex
strtoll16-hex_clamped v h = ap clamp_pos (
    parse_digits-pad8 (hex_digits 16 v []) ∙ parse_digits-hex_digits 16 v [] h ∙ parse_digits-nil v)

-- Below 2^63 nothing is lost between `hex` and the strtoll that reads it.
pub strtoll16-hex : (v : ℕ) → v < 2 ^ 63 → strtoll16 (hex v) ≡ v
unfolding clamp_pos
strtoll16-hex v h = rw (strtoll16-hex_clamped v (omega arith)) (ground arith)

-- From 2^63 on, a uint64_t that is written by `hex` comes back as 2^63 - 1 instead of itself.
pub strtoll16-hex_saturates :
    (v : ℕ) → 2 ^ 63 ≤ v → v < 2 ^ 64 → (strtoll16 (hex v) ≡ llong_max) × (strtoll16 (hex v) ≢ v)
unfolding clamp_pos
strtoll16-hex_saturates v low high =
    let e : strtoll16 (hex v) ≡ llong_max = rw (strtoll16-hex_clamped v high) (ground arith) in
    (e, omega (arith, e))
