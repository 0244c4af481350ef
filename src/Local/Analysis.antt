-- ===== src/Local/Analysis.antt =====
-- InterBlockBuilder and LocalAnalysis::runOnFunction of lib/seadsa/DsaLocal.cc: the passes over the
-- blocks of a function.
use text.Mathlib.Text
use sea_dsa.Common.{ℕ, Bool, false, not, ◌&&◌, ◌||◌, List, reverse, if◌then◌else◌}
use sea_dsa.Llvm.{Llvm, is_constant}
use sea_dsa.Graph.{
  null_cell, cell, M, pure, skip, fail, assert, when, for_each, ok, ◌>>=◌, ◌>>◌, is_null, mk_node,
}
use sea_dsa.Graph.Table.{put_entry, mk_cell, has_cell}
use sea_dsa.Graph.Compress.{compress}
use sea_dsa.Graph.Dead.{remove_dead}
use sea_dsa.Local.{Value, Ir, Setup}
use sea_dsa.Local.Values.{is_pointer_type, is_null_constant, is_undef}
use sea_dsa.Local.Cells.{answer, mark, set_alloca, record_site, cell_unify}
use sea_dsa.Local.Source.{value_cell}
use sea_dsa.Local.Memory.{
  visit_instruction, visit_alloca, visit_select, visit_load, visit_store, visit_bit_cast,
  visit_get_element_ptr, visit_return,
}
use sea_dsa.Local.Source.{visit_cast_int_to_ptr}
use sea_dsa.Local.Atomic.{visit_atomic_cmp_xchg, visit_atomic_rmw}
use sea_dsa.Local.Aggregate.{visit_insert_value, visit_extract_value, visit_shuffle_vector}
use sea_dsa.Local.Copy.{visit_mem_set, visit_mem_transfer}
use sea_dsa.Local.Escape.{visit_ptr_to_int}
use sea_dsa.Local.Spec.{visit_call_base}
use sea_dsa.Local.Initial.{init_global_variables}

module _ (l : Llvm) (ir : Ir) (fuel : ℕ) where
  -- The incoming values that visitPHINode skips at once.
  is_skipped_incoming : ℕ → M Bool
  unfolding is_null_constant answer is_undef is_constant
  is_skipped_incoming v = do
    null ← answer (is_null_constant l ir fuel v)
    through_null ← elim (ir.value v) [
      | Value.load p ↦ answer (is_null_constant l ir fuel p)
      | _ ↦ pure false
    ]
    pure (null || through_null || (is_constant l v && is_undef l ir v))

  -- A null cell is an error, but for a gep from null.
  null_incoming : ℕ → M (Unit {0})
  unfolding is_null_constant answer
  null_incoming v = elim (ir.value v) [
    | Value.gep p is ↦ do null ← answer (is_null_constant l ir fuel p); assert null
    | _ ↦ fail
  ]

  -- One incoming value of the phi node `i`.
  incoming : (i v : ℕ) → M (Unit {0})
  unfolding is_skipped_incoming value_cell null_incoming mk_cell cell_unify put_entry
  incoming i v = do
    skipped ← is_skipped_incoming v
    if skipped then skip else do
      c ← value_cell l ir fuel v
      if is_null c then null_incoming v else do
        p ← mk_cell l i null_cell
        (p', _) ← cell_unify l fuel p c
        put_entry l (l.strip i) p'

  -- visitPHINode
  unfoldable pub visit_phi_node : ℕ → List ℕ → M (Unit {0})
  unfolding is_pointer_type has_cell mk_cell incoming
  visit_phi_node i vs = if not (is_pointer_type l (ir.type_of i)) then skip else do
    λ g. assert (has_cell l g i) g
    mk_cell l i null_cell
    for_each (incoming i) vs
    p ← mk_cell l i null_cell
    assert (not (is_null p))

  -- IntraBlockBuilder::visit of one instruction of the function `fn`
  unfoldable pub visit_intra : Setup → (fn i : ℕ) → M (Unit {0})
  unfolding visit_instruction visit_alloca visit_select visit_load visit_store visit_bit_cast
      visit_get_element_ptr visit_return visit_cast_int_to_ptr visit_atomic_cmp_xchg
      visit_atomic_rmw visit_insert_value visit_extract_value visit_shuffle_vector visit_mem_set
      visit_mem_transfer visit_ptr_to_int visit_call_base value_cell
  visit_intra setup fn i = elim (ir.value i) [
    | Value.alloca ↦ visit_alloca l ir fuel i
    | Value.select c a b ↦ visit_select l ir fuel i a b
    | Value.load p ↦ visit_load l ir fuel i p
    | Value.store p v ↦ visit_store l ir fuel p v
    | Value.cmpxchg p v ↦ visit_atomic_cmp_xchg l ir fuel i p v
    | Value.rmw p ↦ visit_atomic_rmw l ir fuel i p
    | Value.ret v ↦ visit_return l ir fuel fn v
    | Value.int_to_ptr u ↦ visit_cast_int_to_ptr l ir fuel (value_cell l ir fuel) i
    | Value.ptr_to_int u ↦ visit_ptr_to_int l ir fuel i u
    | Value.bit_cast u ↦ visit_bit_cast l ir fuel i u
    | Value.cmp ↦ skip
    | Value.insert_value a v is ↦ visit_insert_value l ir fuel i a v is
    | Value.extract_value a is ↦ visit_extract_value l ir fuel i a is
    | Value.shuffle ↦ visit_shuffle_vector l ir fuel i
    | Value.gep p is ↦ visit_get_element_ptr l ir fuel i p is
    | Value.mem_set d ↦ visit_mem_set l ir fuel d
    | Value.mem_transfer d s len ↦ visit_mem_transfer l ir fuel d s len
    | Value.call ↦ visit_call_base l ir fuel setup i
    | _ ↦ visit_instruction l ir fuel i
  ]

  -- InterBlockBuilder::visit
  unfoldable pub visit_inter : ℕ → M (Unit {0})
  unfolding visit_phi_node
  visit_inter i = elim (ir.value i) [ Value.phi vs ↦ visit_phi_node i vs | _ ↦ skip ]

  -- The node of a formal argument of `fn`.
  visit_argument : (fn a : ℕ) → M (Unit {0})
  unfolding is_pointer_type has_cell mk_node mk_cell record_site mark
  visit_argument fn a g =
      if is_pointer_type l (ir.type_of a) && not (has_cell l g a)
      then (do
        n ← mk_node l
        mk_cell l a (cell n 0)
        when (Text.◌==◌ (ir.name fn) "main") (record_site n a)
        mark n set_alloca)
          g
      else ok tt g

  -- LocalAnalysis::runOnFunction. `post_order` holds the blocks, as lists of instructions, in the
  -- order of revTopoSort: a post-order walk of the control flow, which LLVM makes.
  unfoldable pub run_on_function : Setup → (fn : ℕ) → (post_order : List (List ℕ)) → M (Unit {0})
  unfolding visit_argument init_global_variables visit_intra visit_inter compress remove_dead
  run_on_function setup fn post_order = do
    for_each (visit_argument fn) (l.params fn)
    init_global_variables l ir fuel fn
    for_each (for_each (visit_intra setup fn)) (reverse post_order)
    for_each (for_each visit_inter) (reverse post_order)
    compress
    remove_dead
