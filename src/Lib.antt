-- ===== src/Lib.antt =====
-- Verification of bin2llvm: the passes that turn the translated basic blocks of a binary back into
-- functions, and the disassembler that harvests the blocks.
--
-- The program has two stages. harvesting-passes/ is a plugin of S2E that translates a binary block by
-- block: RecursiveDescentDisassembler keeps a work list of addresses and the thumb mode of each, and
-- its handler slotExecuteBlockStart adds the block that is about to run, schedules its targets (those
-- of a jump table included) and moves the CPU to the next address. postprocess/translator/ holds LLVM
-- passes that run on the module of all blocks: they mark every store to PC as a call, a return or a
-- jump by metadata, and BuildFunctions follows these marks to collect the blocks of a function.
-- The stages meet in the metadata, which are numbers in hexadecimal text.
--
-- Files:
--   Base          shared types, Boolean tests, lists over native numbers, std::map, assertions
--   Hex           FixOverlappedBBs::hex and the strtoll of getHexMetadataFromIns
--   Ir            LLVM modules, functions, blocks, instructions; Ir/Meta getMetadata, setMetadata and
--                 the getters of FixOverlappedBBs; Ir/Pc the tests for a store to PC or LR
--   Mark          Mark/Call ARMMarkCall, Mark/Return ARMMarkReturn, Mark/Jumps ARMMarkJumps, and what
--                 these passes leave alone (Mark/Keeps)
--   Build         BuildFunctions::exploreBB: Build/Targets the targets of an instruction,
--                 Build/Explore the work list, Build/Ready the marking passes before it;
--                 Build/Fixup buildBBMap and the fixups for calls, jumps, indirect jumps and returns,
--                 Build/Assemble makeFunctionForward and runOnModule; Build/Entry MarkFuncEntry.cpp
--   JumpTable     harvesting-passes/JumpTableInfo.h and the number of entries
--   Memory        ReplaceConstantLoads.cpp: MemoryPool::read, getMemoryValue, and in Memory/Tables the
--                 annotation of jump tables, in Memory/Loads the constant loads and runOnFunction
--   Clean         the passes before the marks: Clean/Trace RemoveBranchTrace.cpp and
--                 S2EDeleteInstructionCount.cpp, Clean/ExtraPc RemoveExtraStoreToPC.cpp, Clean/Modes
--                 S2EARMMergePcThumbPass.cpp; Clean/Dump ARMDumpThumbBit.cpp and FunctionRename.cpp
--   Overlap       FixOverlappedBBs.cpp
--   Disasm        RecursiveDescentDisassembler.cpp: Disasm/Intervals the two interval searches,
--                 Disasm/WorkList explorePCLater and getNextRealPC, Disasm/Slot slotExecuteBlockStart
--                 and prepareStateForNextRealPC of the ARM build, Disasm/Thumb ARMGetThumbBit.cpp,
--                 Disasm/Extract ExtractPossibleTargetsPass.cpp
--   Env           harvesting-passes/S2ETransformPass.cpp: Env/Names the names of the CPU state, Env/Uses
--                 the search for its accesses
--   Rebuild       harvesting-passes/S2EExtractAndBuildPass.cpp: Rebuild/Graph blocks and the maps of their
--                 names, Rebuild/Validate validateMove, Rebuild/Functions getOrCreateFunction and the
--                 moves, Rebuild/Edges the edges, Rebuild/Insert runOnFunction
--   Save          harvesting-passes/SaveTranslatedBBs.cpp: the module of all translated blocks
--   Inline        harvesting-passes/S2EInlineHelpersPass.cpp
--   Void          TransformBBToVoid.cpp
--   Solve         SolveIndirectSingle.cpp
--   Linker        gatherFuncs and gatherFuncsFromModule of postprocess/linker/main.cpp, in Linker/Link
--                 linkFuncs and main
--
-- A failed assert is `none`. Functions and blocks keep their order; a Function * is its position in
-- the module, an operand that is an instruction is its id. 64-bit arithmetic wraps where the source
-- may overflow. exploreBB is given the number of functions of the module as fuel, since each enters
-- the queue once; the binary search the number of intervals plus one; the loop of the handler the
-- number of scheduled addresses, since each round takes one. The search of validateMove gets the
-- number of all successors plus one, since each block is entered once. The moves get the number of
-- blocks times that number plus one, which is enough (Rebuild/Functions/Moves). hex is given the 16
-- digits of 64 bits. TransformBBToVoid has twice the number of functions, since each adds one at
-- most.
--
-- Not modelled: S2E, QEMU and LLVM themselves. What the handler gets from them (the targets and the
-- thumb bit of a block, the words of memory, which addresses are valid) are its arguments, and so
-- are the blocks that CloneFunctionInto adds, the uses of a value as a tree and the text of a name.
-- InlineFunction is an argument too, and so is the number of arguments of a function. An instruction
-- that is erased twice is `none`, since that is undefined. Messages, options and files are left out,
-- and so are LoadViaGlobalAliasReplace and InternalizeGlobals of postprocess/translator, the
-- functions copyGlobalReferences, which only declare globals, fixupEnvStruct, fixupStores and
-- fixupLoads of S2ETransformPass.cpp, which nothing calls, and saveTranslatedBasicBlocks of
-- SaveTranslatedBBs.cpp, which writes text. Of S2EExtractAndBuildPass.cpp the order of the blocks in
-- a function is left out.
pub mod Base
pub mod Ir
pub mod Hex
pub mod Mark
pub mod Build
pub mod JumpTable
pub mod Memory
pub mod Disasm
pub mod Clean
pub mod Env
pub mod Rebuild
pub mod Save
pub mod Solve
pub mod Void
pub mod Inline
pub mod Overlap
pub mod Linker
