-- ===== src/Llvm.antt =====
-- What the analysis reads of LLVM, which is not part of the repository: types, the data layout and
-- the kinds of values. All of it is one record of functions, an argument of the definitions that
-- use it. Types, values and functions are numbered by their addresses: LLVM makes one object of a
-- type, so equality of types is equality of addresses. The command line options stand here too.
use sea_dsa.Common.{ℕ, Bool, true, false, List}

pub data Shape : Type 0 where
  pointer : (elem space : ℕ) → Shape
  integer : (width : ℕ) → Shape
  floating : Shape
  array : (len elem : ℕ) → Shape
  vector : (len elem : ℕ) → Shape
  struct : (fields : List ℕ) → Shape
  void : Shape
  other : Shape

pub data Kind : Type 0 where
  alloca : Kind
  call : Kind
  instruction : Kind
  argument : Kind
  function : Kind
  alias : Kind
  variable : Kind
  constant : Kind
  other : Kind

pub record Llvm : Type 0 where
  pub shape : ℕ → Shape
  -- T.getPointerTo(space)
  pub pointer_to : ℕ → ℕ → ℕ
  pub alloc_size : ℕ → ℕ
  pub store_size : ℕ → ℕ
  pub primitive_bits : ℕ → ℕ
  -- the offset of the i-th element of a struct type
  pub element_offset : ℕ → ℕ → ℕ
  pub kind : ℕ → Kind
  -- V.stripPointerCasts()
  pub strip : ℕ → ℕ
  -- CB.getCalledOperand() of a call, GA.getAliasee() of an alias
  pub called_operand : ℕ → ℕ
  pub aliasee : ℕ → ℕ
  -- the function that an instruction is in, and whether a value has a pointer type
  pub parent_function : ℕ → ℕ
  pub is_pointer_value : ℕ → Bool
  -- the arguments of a function, and of a call
  pub params : ℕ → List ℕ
  pub arguments : ℕ → List ℕ
  -- -sea-dsa-type-aware, -sea-dsa-omnipotent-char
  pub type_aware : Bool
  pub omnipotent_char : Bool

-- isa<GlobalValue>, isa<Argument>, isa<Function> and isa<AllocaInst>
module _ (l : Llvm) where
  unfoldable pub is_global : ℕ → Bool
  is_global v = elim (l.kind v) [
    | Kind.function ↦ true
    | Kind.alias ↦ true
    | Kind.variable ↦ true
    | _ ↦ false
  ]

  unfoldable pub is_argument : ℕ → Bool
  is_argument v = elim (l.kind v) [ Kind.argument ↦ true | _ ↦ false ]

  unfoldable pub is_function : ℕ → Bool
  is_function v = elim (l.kind v) [ Kind.function ↦ true | _ ↦ false ]

  unfoldable pub is_alloca : ℕ → Bool
  is_alloca v = elim (l.kind v) [ Kind.alloca ↦ true | _ ↦ false ]

  unfoldable pub is_alias : ℕ → Bool
  is_alias v = elim (l.kind v) [ Kind.alias ↦ true | _ ↦ false ]

  unfoldable pub is_constant : ℕ → Bool
  unfolding is_global
  is_constant v = elim (l.kind v) [ Kind.constant ↦ true | _ ↦ is_global v ]
