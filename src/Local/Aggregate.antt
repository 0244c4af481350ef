-- ===== src/Local/Aggregate.antt =====
-- visitInsertValueInst, visitExtractValueInst and visitShuffleVectorInst of lib/seadsa/DsaLocal.cc.
use sea_dsa.Common.{ℕ, not, ◌||◌, none, some, List, if◌then◌else◌}
use sea_dsa.Common.Words.{u32}
use sea_dsa.Llvm.{Llvm}
use sea_dsa.Graph.{Cell, cell, M, pure, skip, fail, assert, ◌>>=◌, ◌>>◌, is_null}
use sea_dsa.Graph.Resolve.{resolve_cell}
use sea_dsa.Graph.Table.{mk_cell}
use sea_dsa.Local.{Ir}
use sea_dsa.Local.Values.{is_skip, is_null_constant, is_undef}
use sea_dsa.Local.Cells.{
  answer, cell_at, cell_mark, set_read, set_modified, set_alloca, mark, record_site, field_0,
  cell_add_accessed_type, cell_grow_size, cell_put_link, demand_link, fresh_cell, new_memory,
}
use sea_dsa.Local.Gep.{compute_indexed_offset}
use sea_dsa.Local.Source.{value_cell}

module _ (l : Llvm) (ir : Ir) (fuel : ℕ) where
  -- The cell of an aggregate operand, with a new node on the stack if it has none.
  aggregate_cell : (i aggregate : ℕ) → M Cell
  unfolding value_cell new_memory mk_cell
  aggregate_cell i a = do
    c ← value_cell l ir fuel (l.strip a)
    if not (is_null c)
        then pure c
        else do n ← new_memory l fuel set_alloca i; mk_cell l a (cell n 0)

  insert_at : (inserted : ℕ) → Cell → M (Unit {0})
  unfolding cell_grow_size cell_add_accessed_type cell_mark is_skip answer is_null_constant is_undef
      value_cell field_0 cell_put_link
  insert_at v c = do
    c ← cell_grow_size l fuel c 0 (ir.type_of v)
    c ← cell_add_accessed_type l fuel c 0 (ir.type_of v)
    out ← cell_mark c set_modified
    if is_skip l ir v then skip else do
      null ← answer (is_null_constant l ir fuel v)
      if null || is_undef l ir v then skip else do
        d ← value_cell l ir fuel v
        assert (not (is_null d))
        f ← field_0 l fuel (ir.type_of v)
        cell_put_link l fuel out f d
        skip

  -- visitInsertValueInst, where the instruction has the type of the aggregate
  unfoldable pub visit_insert_value : (i aggregate inserted : ℕ) → List ℕ → M (Unit {0})
  unfolding aggregate_cell mk_cell compute_indexed_offset insert_at
  visit_insert_value i a v is = do
    c ← aggregate_cell i a
    mk_cell l i c
    elim (compute_indexed_offset l (ir.type_of i) is) [
      | none ↦ fail
      | some o ↦ insert_at v (cell_at c (u32 o))
    ]

  extract_from : ℕ → Cell → M (Unit {0})
  unfolding field_0 cell_add_accessed_type cell_mark is_skip demand_link record_site mark
      resolve_cell mk_cell
  extract_from i c = do
    f ← field_0 l fuel (ir.type_of i)
    c ← cell_add_accessed_type l fuel c 0 (ir.type_of i)
    c ← cell_mark c set_read
    if is_skip l ir i then skip else do
      (d, _) ← demand_link l fuel c f (λ n. do record_site n i; mark n set_alloca)
      r ← resolve_cell d
      mk_cell l i r
      skip

  -- visitExtractValueInst
  unfoldable pub visit_extract_value : (i aggregate : ℕ) → List ℕ → M (Unit {0})
  unfolding aggregate_cell compute_indexed_offset extract_from
  visit_extract_value i a is = do
    c ← aggregate_cell i a
    elim (compute_indexed_offset l (ir.type_of a) is) [
      | none ↦ fail
      | some o ↦ extract_from i (cell_at c (u32 o))
    ]

  -- visitShuffleVectorInst
  unfoldable pub visit_shuffle_vector : ℕ → M (Unit {0})
  unfolding fresh_cell
  visit_shuffle_vector i = do fresh_cell l fuel i; skip
