-- ===== src/Ir.antt =====
-- The LLVM objects that the passes read and change, as far as the passes look: modules, functions,
-- basic blocks, instructions with operands, and the metadata of an instruction.
--
-- A basic block and an instruction are C++ objects with an identity: `label` and `id`. An operand
-- that is an instruction is a reference by id. Widths of constants are not kept: a constant is the
-- number that getZExtValue returns.
pub mod Meta
pub mod Pc
use bin2llvm.Base.{
  ℕ, suc, ◌+◌, Bool, true, false, ◌||◌, List, [], ◌∷◌, ◌++◌, Option, none, some, String, str_eq,
  ◌==◌, if◌then◌else◌,
}
use bin2llvm.Hex.{Text}

-- The names of metadata, in the order of their use along the passes; `ins_switch_case i` is the name
-- that snprintf("INS_switch_case%d", i) makes.
pub data Kind : Type 0 where
  bb_pc_start bb_pc_end ins_curr_pc : Kind
  ins_direct_call ins_indirect_call ins_call_return ins_return : Kind
  ins_direct_jump ins_indirect_jump ins_fake_return ins_split_call : Kind
  ins_unresolved_call ins_computed_value : Kind
  ins_switch_cnt ins_switch_default ins_switch_idx_start : Kind
  last_pc trans_next_instruction_set inst_start : Kind
  ins_switch_case : ℕ → Kind

abbrev kind_code : Kind → ℕ
kind_code bb_pc_start = 0
kind_code bb_pc_end = 1
kind_code ins_curr_pc = 2
kind_code ins_direct_call = 3
kind_code ins_indirect_call = 4
kind_code ins_call_return = 5
kind_code ins_return = 6
kind_code ins_direct_jump = 7
kind_code ins_indirect_jump = 8
kind_code ins_fake_return = 9
kind_code ins_split_call = 10
kind_code ins_unresolved_call = 11
kind_code ins_computed_value = 12
kind_code ins_switch_cnt = 13
kind_code ins_switch_default = 14
kind_code ins_switch_idx_start = 15
kind_code last_pc = 16
kind_code trans_next_instruction_set = 17
kind_code inst_start = 18
kind_code (ins_switch_case i) = 19 + i

abbrev pub kind_eq : Kind → Kind → Bool
kind_eq a b = kind_code a == kind_code b

-- An MDNode with one MDString.
abbrev pub Metadata : Type 0
Metadata = List (Kind × Text)

pub data Value : Type 0 where
  const_int : ℕ → Value
  global_var : String → Value
  inst_ref : ℕ → Value
  -- a constant expression that is a cast; the flag says whether its type is i8*, and the name is that
  -- of the global whose address is cast, if it is one
  cast_expr : Bool → Option String → Value
  other_value : ℕ → Value

pub data Opcode : Type 0 where
  and_op shl_op other_op : Opcode

pub data Op : Type 0 where
  -- the stored value, then the pointer
  store : Value → Value → Op
  load : Value → Op
  binary : Opcode → Value → Value → Op
  call : String → List Value → Op
  branch : ℕ → Op
  -- the value switched on, the default block, and the cases
  switch : Value → ℕ → List (ℕ × ℕ) → Op
  ret : Op
  other_inst : List Value → Op

pub record Inst : Type 0 where
  pub id : ℕ
  pub op : Op
  pub meta : Metadata

pub record Block : Type 0 where
  pub label : ℕ
  pub name : String
  pub insts : List Inst

pub record Function : Type 0 where
  pub name : String
  pub blocks : List Block

abbrev pub Module : Type 0
Module = List Function
