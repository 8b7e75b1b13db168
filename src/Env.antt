-- ===== src/Env.antt =====
-- harvesting-passes/S2ETransformPass.cpp: the accesses to QEMU's CPU state become accesses to globals
-- that are named as the registers.
pub mod Names
pub mod Uses
mod Tests
