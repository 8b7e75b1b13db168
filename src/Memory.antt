-- ===== src/Memory.antt =====
-- postprocess/translator/ReplaceConstantLoads.cpp: the images of the memory, and the jump tables
-- that are read from them. `none` is a failed assertion.
-- The addresses of a pool end below 2^64.
pub mod Endian
pub mod Tables
pub mod Loads
mod Tests
use bin2llvm.Base.{
  ℕ, zero, suc, ◌+◌, ◌-◌, ◌*◌, ◌/◌, ◌%◌, ◌^◌, Bool, true, false, ◌&&◌, List, [], ◌∷◌, Option, none,
  some, ltb, leb, if◌then◌else◌, length, get_elem?,
}
use bin2llvm.Base.Abort.{◌>>=◌, ◌>>◌, assert}

-- MemoryPool: mp_start and the file's bytes; mp_end is the start plus their number.
pub record MemoryPool : Type 0 where
  pub mp_start : ℕ
  pub mp_file : List ℕ

abbrev pub mp_end : MemoryPool → ℕ
mp_end p = p.mp_start + length p.mp_file

pub inside : MemoryPool → ℕ → Bool
inside p addr = leb p.mp_start addr && ltb addr (mp_end p)

-- ret = (ret << 8) | b, for a byte b.
pub push_byte : ℕ → ℕ → ℕ
push_byte ret b = ret * 256 % 2 ^ 64 + b

-- The rounds of the loop: n are left, and `i` is the next. A read past the end is not good().
pub read_big : List ℕ → ℕ → ℕ → ℕ → Option ℕ
unfolding push_byte
read_big file pos zero ret = some ret
read_big file pos (suc n) ret = do
  b ← get_elem? file pos
  read_big file (pos + 1) n (push_byte ret b)

pub read_little : List ℕ → ℕ → ℕ → ℕ → Option ℕ
unfolding push_byte
read_little file off zero ret = some ret
read_little file off (suc n) ret = do
  b ← get_elem? file (off + n)
  read_little file off n (push_byte ret b)

pub read : MemoryPool → ℕ → ℕ → Bool → Option ℕ
unfolding inside read_big read_little
read p addr byte_cnt is_big_endian = do
  assert (inside p addr)
  assert (ltb 0 byte_cnt)
  assert (leb byte_cnt 8)
  assert (inside p (addr + byte_cnt - 1))
  if is_big_endian
      then read_big p.mp_file (addr - p.mp_start) byte_cnt 0
      else read_little p.mp_file (addr - p.mp_start) byte_cnt 0

-- getMemoryValue(address, size, isBigEndian): the first pool that holds the address.
unfoldable pub get_memory_value : List MemoryPool → ℕ → ℕ → Bool → Option ℕ
unfolding inside read
get_memory_value [] address size is_big_endian = some 0xdeadbeef
get_memory_value (p ∷ ps) address size is_big_endian =
    let rest = get_memory_value ps address size is_big_endian in
    if inside p address then read p address (size % 2 ^ 8) is_big_endian else rest

-- getMemoryValue(address, type, isBigEndian): `some none` is the null pointer.
unfoldable pub get_typed_value : List MemoryPool → ℕ → ℕ → Bool → Option (Option ℕ)
unfolding inside read
get_typed_value [] address bits is_big_endian = some none
get_typed_value (p ∷ ps) address bits is_big_endian =
    let rest = get_typed_value ps address bits is_big_endian in
    if inside p address
    then (do v ← read p address (bits / 8 % 2 ^ 8) is_big_endian; some (some (v % 2 ^ bits)))
    else rest
