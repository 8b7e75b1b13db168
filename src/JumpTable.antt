-- ===== src/JumpTable.antt =====
-- harvesting-passes/JumpTableInfo.h: one switch statement of the binary. Reading the JSON file is
-- not modelled; its numbers are uint64_t.
use bin2llvm.Base.{
  ℕ, ◌+◌, ◌-◌, ◌%◌, ◌^◌, ◌<◌, ◌≤◌, ◌&&◌, Option, none, some, ltb, leb, if◌then◌else◌, ◌≡◌, arith,
}

pub record JumpTableInfo : Type 0 where
  pub bb_start : ℕ
  pub bb_end : ℕ
  pub indirect_jmp_pc : ℕ
  pub default_case_pc : ℕ
  pub base_table : ℕ
  pub idx_start : ℕ
  pub idx_stop : ℕ

-- int cnt_entries = 1+idx_stop-idx_start, in 64 bits and then in 32, and assert(cnt_entries >= 1).
unfoldable pub cnt_entries : JumpTableInfo → Option ℕ
cnt_entries info =
    let cnt = (1 + info.idx_stop + 2 ^ 64 - info.idx_start) % 2 ^ 64 % 2 ^ 32 in
    if leb 1 cnt && ltb cnt (2 ^ 31) then some cnt else none

-- The indices of a switch are in order, and there are less than 2^31 of them.
pub record IsTable (info : JumpTableInfo) : Type 0 where
  pub ordered : info.idx_start ≤ info.idx_stop
  pub few : info.idx_stop - info.idx_start + 1 < 2 ^ 31
  pub word : info.idx_stop < 2 ^ 64

-- The number of entries is that of the indices, the first and the last counted.
pub cnt_entries_lem :
    (info : JumpTableInfo)
    → IsTable info
    → cnt_entries info ≡ some (info.idx_stop - info.idx_start + 1)
unfolding cnt_entries
cnt_entries_lem info h = ground arith
