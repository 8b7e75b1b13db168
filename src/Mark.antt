-- ===== src/Mark.antt =====
-- The passes that mark what a store to PC does: postprocess/translator/ARMMarkCall.cpp,
-- ARMMarkReturn.cpp and ARMMarkJumps.cpp. `none` is a failed assertion. A pass returns the function
-- and whether it was modified. The renaming of a block by LLVM on a clash of names is not modelled.
pub mod Call
pub mod Keeps
pub mod Return
pub mod Jumps
mod Tests
