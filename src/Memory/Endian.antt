-- ===== src/Memory/Endian.antt =====
-- What a read returns, as a sum over the bytes.
use native.Mathlib.Nat.{pow-suc, pow-succ', pow-le-pow_right, add-mul}
use bin2llvm.Base.{
  ℕ, zero, suc, ◌+◌, ◌-◌, ◌*◌, ◌^◌, ◌≤◌, ◌<◌, Bool, true, false, List, [], ◌∷◌, none, some,
  if◌then◌else◌, length, get_elem?, ◌≡◌, refl, ◌∙◌, ap, arith, All,
}
use bin2llvm.Memory.{MemoryPool, mp_end, inside, push_byte, read_big, read_little, read}

-- The byte at a position; 0 past the end.
abbrev pub byte_at : List ℕ → ℕ → ℕ
byte_at file i = elim (get_elem? file i) [ none ↦ 0 | some b ↦ b ]

-- n bytes from a position on, the lowest address with the highest weight, and with the lowest.
abbrev pub big_value : List ℕ → ℕ → ℕ → ℕ
big_value file pos zero = 0
big_value file pos (suc n) = byte_at file pos * 256 ^ n + big_value file (pos + 1) n

abbrev pub little_value : List ℕ → ℕ → ℕ → ℕ
little_value file pos zero = 0
little_value file pos (suc n) = byte_at file (pos + n) * 256 ^ n + little_value file pos n

abbrev pub IsByte : ℕ → Type 0
IsByte b = b < 256

get_elem-lt :
    (file : List ℕ) (i : ℕ)
    → All IsByte file
    → i < length file
    → (get_elem? file i ≡ some (byte_at file i)) × (byte_at file i < 256)
get_elem-lt [] i h l = absurd (omega arith)
get_elem-lt (b ∷ file) zero h l = (refl, h.0)
get_elem-lt (b ∷ file) (suc i) h l = get_elem-lt file i h.1 (omega arith)

-- With k bytes read and more to come, the next shift loses nothing.
push_byte-small :
    (ret b k : ℕ)
    → ret < 256 ^ k
    → b < 256
    → k < 8
    → (push_byte ret b ≡ ret * 256 + b) × (push_byte ret b < 256 ^ suc k)
unfolding push_byte
push_byte-small ret b k h hb hk =
    let up : 256 ^ suc k ≤ 256 ^ 8 =
      pow-le-pow_right (omega arith) {i = suc k} {j = 8} (omega arith) in
    let s = pow-suc 256 k in (omega arith, omega arith)

-- (ret * 256 + b) * 256 ^ n + v
regroup : (ret b n v : ℕ) → (ret * 256 + b) * 256 ^ n + v ≡ ret * 256 ^ suc n + (b * 256 ^ n + v)
regroup ret b n v = let s = pow-succ' 256 n in simp (s, add-mul) (grind arith)

read_big-value :
    (file : List ℕ) (pos n ret k : ℕ)
    → All IsByte file
    → pos + n ≤ length file
    → ret < 256 ^ k
    → k + n ≤ 8
    → read_big file pos n ret ≡ some (ret * 256 ^ n + big_value file pos n)
unfolding read_big
read_big-value file pos zero ret k bytes fits small le = ap some (omega arith)
read_big-value file pos (suc n) ret k bytes fits small le =
    let (e, lt) = get_elem-lt file pos bytes (omega arith) in
    let b = byte_at file pos in
    let (shift, next) = push_byte-small ret b k small lt (omega arith) in
    rw e (
      read_big-value file (pos + 1) n (push_byte ret b) (suc k) bytes (omega arith) next
        (omega arith)
      ∙ ap some (rw shift (regroup ret b n (big_value file (pos + 1) n))))

read_little-value :
    (file : List ℕ) (off n ret k : ℕ)
    → All IsByte file
    → off + n ≤ length file
    → ret < 256 ^ k
    → k + n ≤ 8
    → read_little file off n ret ≡ some (ret * 256 ^ n + little_value file off n)
unfolding read_little
read_little-value file off zero ret k bytes fits small le = ap some (omega arith)
read_little-value file off (suc n) ret k bytes fits small le =
    let (e, lt) = get_elem-lt file (off + n) bytes (omega arith) in
    let b = byte_at file (off + n) in
    let (shift, next) = push_byte-small ret b k small lt (omega arith) in
    rw e (
      read_little-value file off n (push_byte ret b) (suc k) bytes (omega arith) next (omega arith)
      ∙ ap some (rw shift (regroup ret b n (little_value file off n))))

-- A read of one to eight bytes that lie in the pool succeeds, and its value is the sum of the bytes
-- at their weights: the first byte has the highest weight in a big-endian image, and the lowest in a
-- little-endian one.
pub read-value :
    (p : MemoryPool) (addr n : ℕ) (is_big_endian : Bool)
    → All IsByte p.mp_file
    → 0 < n
    → n ≤ 8
    → p.mp_start ≤ addr
    → addr + n ≤ mp_end p
    → let off = addr - p.mp_start in
      read p addr n is_big_endian
      ≡ some (if is_big_endian then big_value p.mp_file off n else little_value p.mp_file off n)
unfolding read inside
read-value p addr n true bytes pos le low high = ground (
  arith,
  read_big-value p.mp_file (addr - p.mp_start) n 0 0 bytes (omega arith) (omega arith)
      (omega arith),
)
read-value p addr n false bytes pos le low high = ground (
  arith,
  read_little-value p.mp_file (addr - p.mp_start) n 0 0 bytes (omega arith) (omega arith)
      (omega arith),
)

-- A read that starts in the pool and runs past its end stops at a failed assertion.
pub read_past_end :
    (p : MemoryPool) (addr n : ℕ) (is_big_endian : Bool)
    → inside p addr ≡ true
    → mp_end p < addr + n
    → read p addr n is_big_endian ≡ none
unfolding read inside
read_past_end p addr n is_big_endian i past = ground arith
