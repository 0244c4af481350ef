-- ===== src/Local.antt =====
-- lib/seadsa/DsaLocal.cc: the points-to graph of one function, from its instructions. What the
-- builders read of LLVM beyond types and kinds of values stands here.
pub mod Values
pub mod Cells
pub mod Gep
pub mod Source
pub mod Memory
pub mod Atomic
pub mod Aggregate
pub mod Copy
pub mod Escape
pub mod Call
pub mod Spec
pub mod Initial
pub mod Analysis
use Prim.Native.String.{String}
use sea_dsa.Common.{ℕ, Bool, Option, List}

-- The opcode of a cast that is a constant expression.
pub data Cast : Type 0 where
  int_to_ptr ptr_to_int other : Cast

-- An instruction with its operands, or another value. A constant expression is one of `const_cast`,
-- `const_gep` and `const_expr` (an addition is `add` here too); other constants follow. A call that
-- sets or copies memory is `mem_set` or `mem_transfer`, with getDest(), getSource() and getLength().
pub data Value : Type 0 where
  alloca : Value
  select : (condition then_value else_value : ℕ) → Value
  load : (pointer : ℕ) → Value
  store : (pointer stored : ℕ) → Value
  cmpxchg : (pointer new_value : ℕ) → Value
  rmw : (pointer : ℕ) → Value
  ret : (operand : Option ℕ) → Value
  int_to_ptr : (operand : ℕ) → Value
  ptr_to_int : (operand : ℕ) → Value
  bit_cast : (operand : ℕ) → Value
  cmp : Value
  insert_value : (aggregate inserted : ℕ) → (indices : List ℕ) → Value
  extract_value : (aggregate : ℕ) → (indices : List ℕ) → Value
  shuffle : Value
  gep : (pointer : ℕ) → (indices : List ℕ) → Value
  mem_set : (dest : ℕ) → Value
  mem_transfer : (dest source length : ℕ) → Value
  call : Value
  phi : (incoming : List ℕ) → Value
  branch : Value
  sub : (lhs rhs : ℕ) → Value
  add : (lhs rhs : ℕ) → Value
  instruction : Value
  const_cast : (opcode : Cast) → (operand : ℕ) → Value
  const_gep : (pointer : ℕ) → (indices : List ℕ) → Value
  const_expr : Value
  undef : Value
  aggregate_zero : Value
  const_vector : (elements : List ℕ) → Value
  const_array : (elements : List ℕ) → Value
  const_struct : (elements : List ℕ) → Value
  const_data : Value
  null_pointer : Value
  global_variable : (initializer : Option ℕ) → Value
  other : Value

-- getZExtValue and getSExtValue of a ConstantInt, the latter as a 64-bit word
pub record ConstantInt : Type 0 where
  pub zext : ℕ
  pub sext : ℕ

pub record Ir : Type 0 where
  pub value : ℕ → Value
  pub type_of : ℕ → ℕ
  pub name : ℕ → String
  -- dyn_cast<ConstantInt>, and isNullValue() of a constant
  pub constant_int : ℕ → Option ConstantInt
  pub is_null_value : ℕ → Bool
  pub users : ℕ → List ℕ
  -- Type::isFunctionTy, isSized, getTypeSizeInBits, and the type i8*
  pub is_function_type : ℕ → Bool
  pub is_sized : ℕ → Bool
  pub type_bits : ℕ → ℕ
  pub byte_pointer : ℕ
  -- of a call: isa<InvokeInst>, getCalledFunction(), isInlineAsm(), isIndirectCall(), isAllocationFn() and
  -- getArgumentAliasingToReturnedPointer()
  pub is_invoke : ℕ → Bool
  pub direct_callee : ℕ → Option ℕ
  pub is_inline_asm : ℕ → Bool
  pub is_indirect_call : ℕ → Bool
  pub is_allocation_fn : ℕ → Bool
  pub returned_argument : ℕ → Option ℕ
  -- of a function: isDeclaration(), returnDoesNotAlias()
  pub is_declaration : ℕ → Bool
  pub return_does_not_alias : ℕ → Bool
  -- the global variables of the module
  pub globals : List ℕ

-- The command line options, AllocWrapInfo's set of wrappers, and m_track_callsites.
pub record Setup : Type 0 where
  pub wrappers : List ℕ
  pub track_callsites : Bool
  -- -sea-dsa-assume-external-functions-allocators
  pub external_allocators : Bool
