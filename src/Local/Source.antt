-- ===== src/Local/Source.antt =====
-- valueCell, isFixedOffset and visitCastIntToPtr of BlockBuilderBase in lib/seadsa/DsaLocal.cc: the
-- cell of a value, made where the graph has none yet.
use sea_dsa.Common.{ℕ, zero, suc, Bool, true, false, not, ◌||◌, Option, none, some, if◌then◌else◌}
use sea_dsa.Common.Words.{u32}
use sea_dsa.Llvm.{Llvm, is_global, is_alias}
use sea_dsa.Graph.{
  Cell, null_cell, cell, M, pure, skip, fail, assert, out_of_fuel, ok, ◌>>=◌, ◌>>◌, load, is_null,
  deref, mk_node,
}
use sea_dsa.Graph.Resolve.{resolve_cell}
use sea_dsa.Graph.Table.{mk_cell, has_cell}
use sea_dsa.Local.{Cast, Value, Ir}
use sea_dsa.Local.Values.{
  is_pointer_type, is_aggregate_type, is_null_constant, is_undef, is_const_expr,
}
use sea_dsa.Local.Cells.{
  answer, cell_at, cell_mark, set_read, set_alloca, set_int_to_ptr, mark, record_site, field_0,
  cell_add_accessed_type, demand_link, fresh_cell,
}
use sea_dsa.Local.Gep.{visit_gep}

module _ (l : Llvm) (ir : Ir) (fuel : ℕ) where
  module _ (rec : ℕ → M Cell) where
    -- The base and the offset of `x + o`, for a pointer made an integer or an integer loaded.
    offset_from : (x o : ℕ) → M (Option (ℕ × ℕ))
    unfolding has_cell is_global cell_add_accessed_type cell_mark field_0 demand_link mk_cell
    offset_from x o = elim (ir.value x) [
      | Value.ptr_to_int base ↦
          λ g. ok (if has_cell l g base || is_global l base then some (base, o) else none) g
      | Value.const_cast Cast.ptr_to_int base ↦
          λ g. ok (if has_cell l g base || is_global l base then some (base, o) else none) g
      | Value.load p ↦ do
        c ← rec (l.strip p)
        c ← cell_add_accessed_type l fuel c 0 ir.byte_pointer
        c ← cell_mark c set_read
        f ← field_0 l fuel ir.byte_pointer
        (d, _) ← demand_link l fuel c f (λ n. skip)
        mk_cell l x d
        pure (some (x, o))
      | _ ↦ pure none
    ]

    -- isFixedOffset, with the operand of the cast
    unfoldable pub is_fixed_offset : ℕ → M (Option (ℕ × ℕ))
    unfolding offset_from
    is_fixed_offset op = elim (ir.value op) [
      | Value.add a b ↦ elim (ir.constant_int b) [
        | some c ↦ offset_from a c.zext
        | none ↦ elim (ir.constant_int a) [ some c ↦ offset_from b c.zext | none ↦ pure none ]
      ]
      | _ ↦ pure none
    ]

    -- The end of visitCastIntToPtr: a new node.
    fresh_int_to_ptr : ℕ → M (Unit {0})
    unfolding mk_node mark record_site mk_cell
    fresh_int_to_ptr dest = do
      n ← mk_node l
      mark n set_int_to_ptr
      record_site n dest
      mark n set_alloca
      mk_cell l dest (cell n 0)
      skip

    offset_int_to_ptr : (dest base offset : ℕ) → M (Unit {0})
    unfolding has_cell resolve_cell deref mk_cell
    offset_int_to_ptr dest base offset = do
      c ← rec base
      assert (not (is_null c))
      λ g. assert (not (has_cell l g dest)) g
      r ← resolve_cell c
      n ← deref r
      nd ← load n
      mk_cell l dest (if nd.flags.offset_collapsed then cell n 0 else cell_at r (u32 offset))
      skip

    -- visitCastIntToPtr
    unfoldable pub visit_cast_int_to_ptr : ℕ → M (Unit {0})
    unfolding is_fixed_offset fresh_int_to_ptr offset_int_to_ptr has_cell is_global
    visit_cast_int_to_ptr dest = elim (ir.value dest) [
      | Value.int_to_ptr op ↦ do
        at ← is_fixed_offset op
        elim at [
          | none ↦ fresh_int_to_ptr dest
          | some (base, o) ↦ λ g.
              if has_cell l g base || is_global l base
              then offset_int_to_ptr dest base o g
              else fresh_int_to_ptr dest g
        ]
      | _ ↦ fresh_int_to_ptr dest
    ]

    -- The cell that a constant expression got, or else a new one.
    known_or_fresh : ℕ → M Cell
    unfolding has_cell mk_cell fresh_cell
    known_or_fresh v g = if has_cell l g v then mk_cell l v null_cell g else fresh_cell l fuel v g

    is_const_int_to_ptr : ℕ → Bool
    is_const_int_to_ptr v = elim (ir.value v) [
      | Value.const_cast Cast.int_to_ptr u ↦ true
      | _ ↦ false
    ]

    -- valueCell of a constant expression
    const_expr_cell : ℕ → M Cell
    unfolding is_pointer_type visit_cast_int_to_ptr known_or_fresh visit_gep is_const_int_to_ptr
        fresh_cell
    const_expr_cell v = elim (ir.value v) [
      | Value.const_cast op u ↦ if is_pointer_type l (ir.type_of u) then rec u else elim op [
        | Cast.int_to_ptr ↦ do visit_cast_int_to_ptr v; known_or_fresh v
        | _ ↦ fresh_cell l fuel v
      ]
      | Value.const_gep base is ↦ do
        if is_const_int_to_ptr base then (do rec base; skip) else skip
        visit_gep l ir fuel rec v base is
        known_or_fresh v
      | _ ↦ fresh_cell l fuel v
    ]

    -- valueCell of a value that has no cell yet
    new_value_cell : ℕ → M Cell
    unfolding is_alias is_aggregate_type fresh_cell is_undef is_const_expr const_expr_cell
    new_value_cell v =
        if is_undef l ir v
        then pure null_cell
        else if is_alias l v
        then rec (l.aliasee v)
        else elim (ir.value v) [
          | Value.const_struct vs ↦ fresh_cell l fuel v
          | Value.const_array vs ↦ fresh_cell l fuel v
          | Value.const_vector vs ↦ fresh_cell l fuel v
          | Value.const_data ↦ fresh_cell l fuel v
          | _ ↦
              if is_aggregate_type l (ir.type_of v)
              then pure null_cell
              else if is_const_expr l ir v
              then const_expr_cell v
              else fail
        ]

  -- valueCell; calls nest at most as deep as the first argument
  unfoldable pub value_cell_on : ℕ → ℕ → M Cell
  unfolding is_null_constant answer has_cell mk_cell new_value_cell
  value_cell_on zero v = λ g. out_of_fuel
  value_cell_on (suc k) v =
      let rec = value_cell_on k in
      do
        null ← answer (is_null_constant l ir fuel v)
        if null then pure null_cell else elim (ir.value v) [
          | Value.ptr_to_int u ↦ rec u
          | _ ↦ λ g.
              if has_cell l g v
              then (do c ← mk_cell l v null_cell; assert (not (is_null c)); pure c) g
              else new_value_cell rec v g
        ]

  unfoldable pub value_cell : ℕ → M Cell
  unfolding value_cell_on
  value_cell v = value_cell_on fuel v
