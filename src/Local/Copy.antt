-- ===== src/Local/Copy.antt =====
-- transfersNoPointers, visitMemSetInst and visitMemTransferInst of lib/seadsa/DsaLocal.cc. The
-- static map of answers known already is left out: an entry for a type and a length, cut to 32 bits,
-- holds what the walk below answered.
use sea_dsa.Common.{
  ℕ, zero, suc, ◌*◌, Bool, true, false, not, ◌&&◌, ◌||◌, Option, none, some, ltb, leb,
  if◌then◌else◌, is_empty,
}
use sea_dsa.Common.Words.{u64}
use sea_dsa.Llvm.{Llvm}
use sea_dsa.TypeUtils.{AggregateIterator, mk_begin, do_step}
use sea_dsa.Graph.{null_cell, M, pure, skip, fail, ok, ◌>>=◌, ◌>>◌, load, deref, is_null}
use sea_dsa.Graph.Resolve.{resolve_cell}
use sea_dsa.Graph.Table.{mk_cell, has_cell}
use sea_dsa.Local.{Ir}
use sea_dsa.Local.Values.{is_pointer_type, pointer_element, has_no_pointer_ty, is_null_constant}
use sea_dsa.Local.Cells.{answer, cell_mark, set_read, set_modified, cell_unify}
use sea_dsa.Local.Source.{value_cell}

module _ (l : Llvm) where
  -- The loop over the parts of a type that begin below `length`; `none` is out of fuel.
  unfoldable pub no_pointer_below : ℕ → (length : ℕ) → AggregateIterator → Option Bool
  unfolding do_step is_pointer_type
  no_pointer_below zero length it = none
  no_pointer_below (suc k) length it = elim it.current.ty [
    | none ↦ some true
    | some t ↦ elim (leb length it.current.offset) [
      | true ↦ some true
      | false ↦ elim (is_pointer_type l t) [
        | true ↦ some false
        | false ↦ elim (do_step l (suc k) true it) [
          | none ↦ none
          | some it' ↦ no_pointer_below k length it'
        ]
      ]
    ]
  ]

  module _ (ir : Ir) (fuel : ℕ) where
    -- transfersNoPointers, from the type behind the source and the length
    unfoldable pub transfers_no_pointers : (type length : ℕ) → Option Bool
    unfolding mk_begin no_pointer_below
    transfers_no_pointers t length = elim (ir.constant_int length) [
      | none ↦ some false
      | some c ↦
          if not (ir.is_sized t) || ltb (ir.type_bits t) (u64 (c.zext * 8))
          then some false
          else elim (mk_begin l fuel true t) [
            | none ↦ none
            | some it ↦ no_pointer_below fuel c.zext it
          ]
    ]

    -- visitMemSetInst
    unfoldable pub visit_mem_set : (dest : ℕ) → M (Unit {0})
    unfolding value_cell cell_mark
    visit_mem_set d = do
      c ← value_cell l ir fuel d
      if is_null c then skip else do cell_mark c set_modified; skip

    -- Whether a copy need not unify source and destination, by the links behind the source.
    keeps_apart : (source length : ℕ) → (has_no_links : Bool) → M Bool
    unfolding pointer_element has_no_pointer_ty transfers_no_pointers answer
    keeps_apart s len has_no_links = elim (pointer_element l (ir.type_of s)) [
      | none ↦ fail
      | some t ↦ do
        plain ← if has_no_links then answer (has_no_pointer_ty l fuel t) else pure false
        if plain then pure true else answer (transfers_no_pointers t len)
    ]

    copy_cells : (dest source length : ℕ) → M (Unit {0})
    unfolding value_cell mk_cell resolve_cell deref keeps_apart cell_unify cell_mark
    copy_cells d s len = do
      c ← value_cell l ir fuel s
      e ← mk_cell l d null_cell
      c ← resolve_cell c
      n ← deref c
      nd ← load n
      apart ← keeps_apart s len (is_empty nd.links)
      (e, c) ← if apart then pure (e, c) else cell_unify l fuel e c
      cell_mark c set_read
      cell_mark e set_modified
      skip

    -- visitMemTransferInst
    unfoldable pub visit_mem_transfer : (dest source length : ℕ) → M (Unit {0})
    unfolding answer is_null_constant has_cell copy_cells
    visit_mem_transfer d s len = do
      null_source ← answer (is_null_constant l ir fuel s)
      null_dest ← answer (is_null_constant l ir fuel d)
      if null_source || null_dest then skip else λ g.
          if has_cell l g s && has_cell l g d then copy_cells d s len g else ok tt g
