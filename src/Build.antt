-- ===== src/Build.antt =====
-- postprocess/translator/BuildFunctions.cpp: the pass that builds functions from basic blocks.
pub mod Shape
pub mod Fixup
pub mod Targets
pub mod Explore
pub mod Assemble
pub mod Ready
pub mod Entry
mod Tests
