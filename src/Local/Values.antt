-- ===== src/Local/Values.antt =====
-- BlockBuilderBase of lib/seadsa/DsaLocal.cc: isSkip, hasPointerTy, containsPointer and
-- isNullConstant; with getCalledFunction, isBytePtrTy and hasNoPointerTy.
pub mod Pointers
pub mod Nested
pub mod Ends
use sea_dsa.Common.{
  ℕ, zero, suc, Bool, true, false, not, ◌&&◌, ◌||◌, Option, none, some, List, [], ◌∷◌, ◌++◌, ◌==◌,
  push_all, if◌then◌else◌, member,
}
use sea_dsa.Llvm.{Llvm, Shape, is_function, is_constant}
use sea_dsa.Local.{Value, Ir}

-- The loop of hasNoPointerTy over the elements of a struct; `none` is out of fuel.
all_without : (ℕ → Option Bool) → List ℕ → Option Bool
all_without rec [] = some true
all_without rec (t ∷ ts) =
    let rest = all_without rec ts in
    elim (rec t) [ none ↦ none | some false ↦ some false | some true ↦ rest ]

module _ (l : Llvm) where
  -- Type::isPointerTy, isStructTy, isAggregateType, isVectorTy
  unfoldable pub is_pointer_type : ℕ → Bool
  is_pointer_type t = elim (l.shape t) [ Shape.pointer e s ↦ true | _ ↦ false ]

  unfoldable pub is_struct_type : ℕ → Bool
  is_struct_type t = elim (l.shape t) [ Shape.struct es ↦ true | _ ↦ false ]

  unfoldable pub is_aggregate_type : ℕ → Bool
  is_aggregate_type t = elim (l.shape t) [
    | Shape.struct es ↦ true
    | Shape.array len e ↦ true
    | _ ↦ false
  ]

  unfoldable pub is_vector_type : ℕ → Bool
  is_vector_type t = elim (l.shape t) [ Shape.vector len e ↦ true | _ ↦ false ]

  -- What hasPointerTy pushes for a type, the first one pushed first.
  unfoldable pub components : ℕ → List ℕ
  components t = elim (l.shape t) [
    | Shape.struct es ↦ es
    | Shape.array len e ↦ e ∷ []
    | Shape.vector len e ↦ e ∷ []
    | _ ↦ []
  ]

  -- The loop of hasPointerTy. The head of the worklist is its back; `none` is out of fuel.
  unfoldable pub has_pointer_loop : ℕ → (seen worklist : List ℕ) → Option Bool
  unfolding is_pointer_type components
  has_pointer_loop zero seen ws = none
  has_pointer_loop (suc k) seen [] = some false
  has_pointer_loop (suc k) seen (t ∷ ws) = elim (member t seen) [
    | true ↦ has_pointer_loop k seen ws
    | false ↦ elim (is_pointer_type t) [
      | true ↦ some true
      | false ↦ has_pointer_loop k (t ∷ seen) (push_all (components t) ws)
    ]
  ]

  unfoldable pub has_pointer_ty : ℕ → ℕ → Option Bool
  unfolding has_pointer_loop
  has_pointer_ty k t = has_pointer_loop k [] (t ∷ [])

  -- isBytePtrTy
  unfoldable pub is_byte_ptr_ty : ℕ → Bool
  is_byte_ptr_ty t = elim (l.shape t) [
    | Shape.pointer e s ↦ elim (l.shape e) [ Shape.integer w ↦ w == 8 | _ ↦ false ]
    | _ ↦ false
  ]

  -- Type::getPointerElementType
  unfoldable pub pointer_element : ℕ → Option ℕ
  pointer_element t = elim (l.shape t) [ Shape.pointer e s ↦ some e | _ ↦ none ]

  -- hasNoPointerTy of a type that is not null, on fuel for its nesting
  unfoldable pub has_no_pointer_ty : ℕ → ℕ → Option Bool
  unfolding all_without
  has_no_pointer_ty zero t = none
  has_no_pointer_ty (suc k) t = elim (l.shape t) [
    | Shape.pointer e s ↦ some false
    | Shape.struct es ↦ all_without (has_no_pointer_ty k) es
    | Shape.array len e ↦ has_no_pointer_ty k e
    | Shape.vector len e ↦ has_no_pointer_ty k e
    | _ ↦ some true
  ]

  module _ (ir : Ir) where
    -- BlockBuilderBase::isSkip
    unfoldable pub is_skip : ℕ → Bool
    unfolding is_pointer_type
    is_skip v =
        if is_pointer_type (ir.type_of v)
        then false
        else elim (ir.value v) [ Value.ptr_to_int u ↦ false | _ ↦ true ]

    -- isa<Constant>(v) && cast<Constant>(v)->isNullValue()
    unfoldable pub is_null_const : ℕ → Bool
    unfolding is_constant
    is_null_const v = is_constant l v && ir.is_null_value v

    -- BlockBuilderBase::isNullConstant. A bitcast is looked at before it is stripped, a gep after.
    unfoldable pub is_null_constant : ℕ → ℕ → Option Bool
    unfolding is_null_const
    is_null_constant zero v = none
    is_null_constant (suc k) v =
        if is_null_const (l.strip v) then some true else elim (ir.value v) [
          | Value.bit_cast u ↦ is_null_constant k u
          | Value.ptr_to_int u ↦ is_null_constant k u
          | _ ↦ elim (ir.value (l.strip v)) [
            | Value.gep base is ↦ some (is_null_const (l.strip base))
            | _ ↦ some false
          ]
        ]

    -- getCalledFunction
    unfoldable pub get_called_function : ℕ → Option ℕ
    unfolding is_function
    get_called_function i = elim (ir.direct_callee i) [
      | some f ↦ some f
      | none ↦ let v = l.strip (l.called_operand i) in if is_function l v then some v else none
    ]

    -- isa<ConstantExpr>, isa<UndefValue>
    unfoldable pub is_const_expr : ℕ → Bool
    unfolding is_constant
    is_const_expr v = elim (ir.value v) [
      | Value.const_cast b u ↦ true
      | Value.const_gep p is ↦ true
      | Value.const_expr ↦ true
      | Value.add a b ↦ is_constant l v
      | _ ↦ false
    ]

    unfoldable pub is_undef : ℕ → Bool
    is_undef v = elim (ir.value v) [ Value.undef ↦ true | _ ↦ false ]
