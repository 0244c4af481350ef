-- ===== src/Local/Memory.antt =====
-- IntraBlockBuilder of lib/seadsa/DsaLocal.cc: visitInstruction, visitAllocaInst, visitSelectInst,
-- visitLoadInst, visitStoreInst, visitBitCastInst, visitGetElementPtrInst and visitReturnInst.
use sea_dsa.Common.{ℕ, Bool, true, not, ◌&&◌, ◌||◌, Option, none, some, List, if◌then◌else◌}
use sea_dsa.Llvm.{Llvm, is_function, is_constant}
use sea_dsa.Graph.{Cell, cell, M, pure, skip, assert, when, ok, ◌>>=◌, ◌>>◌, is_null, mk_node}
use sea_dsa.Graph.Resolve.{resolve_cell}
use sea_dsa.Graph.Table.{mk_cell, has_cell, mk_ret_cell}
use sea_dsa.Local.{Value, Ir}
use sea_dsa.Local.Values.{
  is_pointer_type, is_struct_type, is_byte_ptr_ty, pointer_element, has_pointer_ty, is_skip,
  is_null_constant, is_undef, is_const_expr,
}
use sea_dsa.Local.Cells.{
  answer, cell_at, cell_mark, set_read, set_modified, set_alloca, record_site, field_0,
  cell_add_accessed_type, cell_grow_size, cell_put_link, cell_unify, demand_link, fresh_cell,
  new_memory,
}
use sea_dsa.Local.Gep.{visit_gep}
use sea_dsa.Local.Source.{value_cell}

module _ (l : Llvm) (ir : Ir) (fuel : ℕ) where
  -- visitInstruction
  unfoldable pub visit_instruction : ℕ → M (Unit {0})
  unfolding is_skip fresh_cell
  visit_instruction i = if is_skip l ir i then skip else do fresh_cell l fuel i; skip

  -- visitAllocaInst
  unfoldable pub visit_alloca : ℕ → M (Unit {0})
  unfolding has_cell new_memory mk_cell
  visit_alloca i = do
    λ g. assert (not (has_cell l g i)) g
    n ← new_memory l fuel set_alloca i
    mk_cell l i (cell n 0)
    skip

  -- visitSelectInst
  unfoldable pub visit_select : (i then_value else_value : ℕ) → M (Unit {0})
  unfolding is_skip has_cell value_cell cell_unify mk_cell
  visit_select i a b = if is_skip l ir i then skip else do
    λ g. assert (not (has_cell l g i)) g
    c ← value_cell l ir fuel a
    d ← value_cell l ir fuel b
    (c', _) ← cell_unify l fuel c d
    mk_cell l i (cell_at c' 0)
    skip

  -- Whether a pointer operand is one that loads and stores skip: it has no cell, and is no constant
  -- expression.
  unfoldable pub is_lost : ℕ → M Bool
  unfolding has_cell is_const_expr
  is_lost p g = ok (not (has_cell l g (l.strip p)) && not (is_const_expr l ir (l.strip p))) g

  -- The function that a load through a cast global finds in its initializer.
  casted_function : ℕ → Option ℕ
  unfolding is_pointer_type is_function
  casted_function p = elim (ir.value p) [
    | Value.const_cast op u ↦
        if not (is_pointer_type l (ir.type_of u)) then none else elim (ir.value u) [
          | Value.global_variable (some f) ↦ if is_function l f then some f else none
          | _ ↦ none
        ]
    | _ ↦ none
  ]

  -- The end of visitLoadInst, from the cell of the pointer.
  load_from : ℕ → Cell → M (Unit {0})
  unfolding cell_add_accessed_type cell_mark is_skip field_0 demand_link mk_cell is_struct_type
  load_from i c = do
    assert (not (is_null c))
    c ← cell_add_accessed_type l fuel c 0 (ir.type_of i)
    base ← cell_mark c set_read
    base ← if is_skip l ir i then pure base else do
      f ← field_0 l fuel (ir.type_of i)
      (d, base') ← demand_link l fuel base f (λ n. skip)
      r ← mk_cell l i d
      assert (not (is_null r))
      pure base'
    when (is_struct_type l (ir.type_of i)) (do mk_cell l i base; skip)

  -- visitLoadInst
  unfoldable pub visit_load : (i pointer : ℕ) → M (Unit {0})
  unfolding answer is_null_constant is_lost casted_function mk_node record_site mk_cell value_cell
      load_from
  visit_load i p = do
    null ← answer (is_null_constant l ir fuel p)
    lost ← is_lost p
    if null || lost then skip else elim (casted_function p) [
      | some f ↦ do n ← mk_node l; record_site n f; mk_cell l i (cell n 0); skip
      | none ↦ do c ← value_cell l ir fuel (l.strip p); load_from i c
    ]

  -- The type of the link that a store makes: for a byte pointer, that of the memory stored to.
  unfoldable pub stored_type : (pointer stored : ℕ) → ℕ
  unfolding is_byte_ptr_ty is_pointer_type pointer_element
  stored_type p v =
      let t = ir.type_of v in
      if not (is_byte_ptr_ty l t) then t else elim (pointer_element l (ir.type_of (l.strip p))) [
        | none ↦ t
        | some e ↦ if is_pointer_type l e then e else t
      ]

  -- The end of visitStoreInst, from the cell of the pointer.
  store_to : Cell → (pointer stored : ℕ) → M (Unit {0})
  unfolding cell_mark cell_grow_size cell_add_accessed_type is_skip answer is_null_constant is_undef
      value_cell stored_type field_0 resolve_cell cell_put_link
  store_to c p v = do
    assert (not (is_null c))
    c ← cell_mark c set_modified
    c ← cell_grow_size l fuel c 0 (ir.type_of v)
    base ← cell_add_accessed_type l fuel c 0 (ir.type_of v)
    if is_skip l ir v then skip else do
      null ← answer (is_null_constant l ir fuel v)
      if null || is_undef l ir v then skip else do
        d ← value_cell l ir fuel v
        assert (not (is_null d))
        d ← resolve_cell d
        f ← field_0 l fuel (stored_type p v)
        cell_put_link l fuel base f d
        skip

  -- visitStoreInst
  unfoldable pub visit_store : (pointer stored : ℕ) → M (Unit {0})
  unfolding answer is_null_constant is_lost value_cell store_to
  visit_store p v = do
    null ← answer (is_null_constant l ir fuel (l.strip p))
    lost ← is_lost p
    if null || lost then skip else do c ← value_cell l ir fuel (l.strip p); store_to c p v

  -- visitBitCastInst
  unfoldable pub visit_bit_cast : (i operand : ℕ) → M (Unit {0})
  unfolding is_skip answer is_null_constant value_cell mk_cell
  visit_bit_cast i u = if is_skip l ir i then skip else do
    null ← answer (is_null_constant l ir fuel u)
    if null
        then skip
        else do c ← value_cell l ir fuel u; assert (not (is_null c)); mk_cell l i c; skip

  -- A gep that is the constant operand of a gep, perhaps behind a bitcast, is visited first.
  visit_nested_gep : ℕ → M (Unit {0})
  unfolding is_constant visit_gep value_cell
  visit_nested_gep p = elim (ir.value p) [
    | Value.const_gep q is ↦ visit_gep l ir fuel (value_cell l ir fuel) p q is
    | Value.const_cast op u ↦ elim (ir.value u) [
      | Value.const_gep q is ↦ visit_gep l ir fuel (value_cell l ir fuel) u q is
      | _ ↦ skip
    ]
    | _ ↦ skip
  ]

  -- visitGetElementPtrInst
  unfoldable pub visit_get_element_ptr : (i pointer : ℕ) → List ℕ → M (Unit {0})
  unfolding visit_nested_gep fresh_cell visit_gep value_cell
  visit_get_element_ptr i p is = do
    visit_nested_gep p
    elim (ir.value p) [
      | Value.shuffle ↦ do fresh_cell l fuel i; skip
      | _ ↦ visit_gep l ir fuel (value_cell l ir fuel) i p is
    ]

  -- visitReturnInst of the function `fn`
  unfoldable pub visit_return : ℕ → Option ℕ → M (Unit {0})
  unfolding answer is_skip has_pointer_ty value_cell mk_ret_cell
  visit_return fn none = skip
  visit_return fn (some v) = do
    inside ← if is_skip l ir v then answer (has_pointer_ty l fuel (ir.type_of v)) else pure true
    if not inside
        then skip
        else do c ← value_cell l ir fuel v; if is_null c then skip else do mk_ret_cell fn c; skip
