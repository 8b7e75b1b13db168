-- ===== src/Disasm.antt =====
-- harvesting-passes/RecursiveDescentDisassembler.cpp, for TARGET_ARM: the plugin that walks over the
-- code of a binary.
pub mod Intervals
pub mod WorkList
pub mod Slot
pub mod Thumb
pub mod Extract
mod Tests
