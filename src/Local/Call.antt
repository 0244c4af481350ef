-- ===== src/Local/Call.antt =====
-- The calls of lib/seadsa/DsaLocal.cc: visitInlineAsmCall, visitExternalCall, visitIndirectCall,
-- visitAllocWrapperCall and visitAllocationFnCall.
use text.Mathlib.Text.{starts_with}
use sea_dsa.Common.{ℕ, not, ◌||◌, none, some, if◌then◌else◌}
use sea_dsa.Llvm.{Llvm}
use sea_dsa.Graph.{Cell, null_cell, cell, M, skip, fail, assert, when, ok, ◌>>=◌, ◌>>◌}
use sea_dsa.Graph.Resolve.{get_node}
use sea_dsa.Graph.Table.{put_entry, mk_cell, get_cell, has_cell, mk_call_site}
use sea_dsa.Local.{Ir, Setup}
use sea_dsa.Local.Values.{is_skip, get_called_function}
use sea_dsa.Local.Cells.{
  mark, set_external, set_heap, record_site, cell_unify, fresh_cell, new_memory,
}

module _ (l : Llvm) (ir : Ir) (fuel : ℕ) where
  -- visitInlineAsmCall
  unfoldable pub visit_inline_asm_call : ℕ → M (Unit {0})
  unfolding is_skip fresh_cell get_node mark record_site
  visit_inline_asm_call i = do
    assert (ir.is_inline_asm i)
    if is_skip l ir i
        then skip
        else do c ← fresh_cell l fuel i; n ← get_node c; mark n set_external; record_site n i

  -- The result of an external call is one of its arguments.
  unify_argument : (i argument : ℕ) → Cell → M (Unit {0})
  unfolding has_cell mk_cell cell_unify put_entry
  unify_argument i v c = do
    λ g. assert (has_cell l g v) g
    a ← mk_cell l v null_cell
    (c', a') ← cell_unify l fuel c a
    put_entry l (l.strip i) c'
    put_entry l (l.strip v) a'

  -- visitExternalCall
  unfoldable pub visit_external_call : Setup → ℕ → M (Unit {0})
  unfolding is_skip get_called_function fresh_cell get_node mark unify_argument record_site
  visit_external_call setup i = if is_skip l ir i then skip else elim (get_called_function l ir i) [
    | none ↦ fail
    | some f ↦ do
      assert (ir.is_declaration f)
      c ← fresh_cell l fuel i
      n ← get_node c
      mark n set_external
      if starts_with (ir.name f) "verifier.nondet.abstract.memory"
          then skip
          else elim (ir.returned_argument i) [
            | some v ↦ unify_argument i v c
            | none ↦
                when (ir.return_does_not_alias f || setup.external_allocators) (record_site n i)
          ]
  ]

  -- visitIndirectCall
  unfoldable pub visit_indirect_call : Setup → ℕ → M (Unit {0})
  unfolding is_skip fresh_cell has_cell get_cell mk_call_site
  visit_indirect_call setup i = do
    if is_skip l ir i then skip else do fresh_cell l fuel i; skip
    if not setup.track_callsites then skip else λ g.
        if has_cell l g (l.called_operand i)
        then (do c ← get_cell l (l.called_operand i); mk_call_site l i c; skip) g
        else ok tt g

  -- visitAllocationFnCall and visitAllocWrapperCall
  unfoldable pub visit_allocation_fn_call : ℕ → M (Unit {0})
  unfolding new_memory mk_cell
  visit_allocation_fn_call i = do n ← new_memory l fuel set_heap i; mk_cell l i (cell n 0); skip
