-- ===== src/Rebuild.antt =====
-- harvesting-passes/S2EExtractAndBuildPass.cpp: the code of each translated block joins a growing graph
-- of basic blocks in functions.
pub mod Graph
pub mod Validate
pub mod Functions
pub mod Edges
pub mod Insert
mod Tests
