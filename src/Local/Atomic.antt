-- ===== src/Local/Atomic.antt =====
-- visitAtomicCmpXchgInst and visitAtomicRMWInst of lib/seadsa/DsaLocal.cc.
use sea_dsa.Common.{ℕ, not, Option, none, some, ◌∷◌, if◌then◌else◌}
use sea_dsa.Llvm.{Llvm, Shape}
use sea_dsa.Graph.{Cell, M, skip, fail, assert, when, ok, ◌>>=◌, ◌>>◌, is_null}
use sea_dsa.Graph.Table.{mk_cell, has_cell}
use sea_dsa.Local.{Ir}
use sea_dsa.Local.Values.{is_pointer_type, is_skip}
use sea_dsa.Local.Cells.{
  cell_mark, set_read, set_modified, field_0, cell_add_accessed_type, cell_grow_size, cell_unify,
  demand_link, fresh_cell,
}
use sea_dsa.Local.Source.{value_cell}

module _ (l : Llvm) (ir : Ir) (fuel : ℕ) where
  -- The marks, the size and the type that an atomic access leaves behind its pointer.
  access : Cell → (type : ℕ) → M Cell
  unfolding cell_mark cell_grow_size cell_add_accessed_type
  access c t = do
    assert (not (is_null c))
    c ← cell_mark c set_modified
    c ← cell_mark c set_read
    c ← cell_grow_size l fuel c 0 t
    cell_add_accessed_type l fuel c 0 t

  -- The loaded pointer of a compare and exchange becomes its result, unified with the new value.
  exchange_pointer : (i new_value type : ℕ) → Cell → M (Unit {0})
  unfolding field_0 demand_link mk_cell is_skip value_cell cell_unify
  exchange_pointer i v t c = do
    f ← field_0 l fuel t
    (d, _) ← demand_link l fuel c f (λ n. skip)
    r ← mk_cell l i d
    if is_skip l ir v
        then skip
        else do e ← value_cell l ir fuel v; assert (not (is_null e)); cell_unify l fuel r e; skip

  -- The first element of the struct that a compare and exchange returns.
  old_type : ℕ → Option ℕ
  old_type i = elim (l.shape (ir.type_of i)) [ Shape.struct (t ∷ ts) ↦ some t | _ ↦ none ]

  -- visitAtomicCmpXchgInst: the size and the type are those of the pointer
  unfoldable pub visit_atomic_cmp_xchg : (i pointer new_value : ℕ) → M (Unit {0})
  unfolding has_cell value_cell access old_type is_pointer_type exchange_pointer
  visit_atomic_cmp_xchg i p v g =
      if not (has_cell l g (l.strip p))
      then ok tt g
      else (do
        c ← value_cell l ir fuel p
        assert (not (is_null c))
        elim (old_type i) [
          | none ↦ fail
          | some t ↦ do
            c ← access c (ir.type_of p)
            when (is_pointer_type l t) (exchange_pointer i v t c)
        ])
          g

  -- visitAtomicRMWInst: the result is unified with the pointer itself
  unfoldable pub visit_atomic_rmw : (i pointer : ℕ) → M (Unit {0})
  unfolding value_cell access is_skip fresh_cell cell_unify
  visit_atomic_rmw i p = do
    c ← value_cell l ir fuel p
    c ← access c (ir.type_of i)
    if is_skip l ir i then skip else do r ← fresh_cell l fuel i; cell_unify l fuel r c; skip
