-- ===== src/Local/Initial.antt =====
-- GlobalBuilder of lib/seadsa/DsaLocal.cc: what the initializers of global variables link to.
use text.Mathlib.Text
use sea_dsa.Common.{ℕ, zero, suc, ◌+◌, ◌*◌, none, some, List, [], ◌∷◌, if◌then◌else◌}
use sea_dsa.Common.Words.{u32}
use sea_dsa.Llvm.{Llvm, Shape}
use sea_dsa.Graph.{Cell, null_cell, cell, M, skip, for_each, out_of_fuel, ok, ◌>>=◌, ◌>>◌, mk_node}
use sea_dsa.Graph.Resolve.{get_node}
use sea_dsa.Graph.Table.{mk_cell, has_cell}
use sea_dsa.Local.{Value, Ir}
use sea_dsa.Local.Values.{is_pointer_type, pointer_element}
use sea_dsa.Local.Cells.{
  record_site, field_0, cell_add_accessed_type, cell_grow_size, cell_put_link,
}
use sea_dsa.Local.Source.{value_cell}

module _ (l : Llvm) (ir : Ir) (fuel : ℕ) where
  -- growSize, addAccessedType and addLink of a pointer of type `t` at a cell
  connect : Cell → (t : ℕ) → Cell → M (Unit {0})
  unfolding cell_grow_size cell_add_accessed_type field_0 cell_put_link
  connect c t d = do
    c ← cell_grow_size l fuel c 0 t
    c ← cell_add_accessed_type l fuel c 0 t
    f ← field_0 l fuel t
    cell_put_link l fuel c f d
    skip

  -- The last part of init, for a constant that is no aggregate.
  init_pointer : ℕ → Cell → M (Unit {0})
  unfolding is_pointer_type pointer_element mk_node record_site has_cell mk_cell connect
  init_pointer v c g = elim (pointer_element l (ir.type_of v)) [
    | none ↦ ok tt g
    | some t ↦
        if ir.is_function_type t
        then (do n ← mk_node l; record_site n v; connect c (ir.type_of v) (cell n 0)) g
        else if has_cell l g v
        then (do d ← mk_cell l v null_cell; connect c (ir.type_of v) d) g
        else ok tt g
  ]

  -- The element size of an array or a vector.
  element_size : ℕ → ℕ
  element_size v = elim (l.shape (ir.type_of v)) [
    | Shape.array len e ↦ l.alloc_size e
    | Shape.vector len e ↦ l.alloc_size e
    | _ ↦ 0
  ]

  -- The elements of a vector, an array or a struct, from the i-th on; `rec` is the call of init. The
  -- cell of an element is that of the node, at the offset in the initializer.
  init_elements :
      (ℕ → Cell → ℕ → M (Unit {0})) → (place : ℕ → ℕ) → Cell → (i : ℕ) → List ℕ → M (Unit {0})
  unfolding get_node
  init_elements rec place c i [] = skip
  init_elements rec place c i (v ∷ vs) = do
    n ← get_node c
    rec v (cell n (place i)) (place i)
    init_elements rec place c (suc i) vs

  -- GlobalBuilder::init; initializers nest at most as deep as the first argument
  unfoldable pub init : ℕ → (v : ℕ) → Cell → (offset : ℕ) → M (Unit {0})
  unfolding init_elements element_size init_pointer
  init zero v c o = λ g. out_of_fuel
  init (suc k) v c o =
      let rec = init k in
      elim (ir.value v) [
        | Value.undef ↦ skip
        | Value.const_vector vs ↦ init_elements rec (λ i. u32 (o + i * element_size v)) c 0 vs
        | Value.aggregate_zero ↦ skip
        | Value.const_array vs ↦ init_elements rec (λ i. u32 (o + i * element_size v)) c 0 vs
        | Value.const_struct vs ↦
            init_elements rec (λ i. u32 (o + l.element_offset (ir.type_of v) i)) c 0 vs
        | Value.const_data ↦ skip
        | Value.null_pointer ↦ skip
        | _ ↦ init_pointer v c
      ]

  -- The body of the loop over the global variables.
  init_global : ℕ → M (Unit {0})
  unfolding value_cell init
  init_global v = if Text.◌==◌ (ir.name v) "llvm.used" then skip else elim (ir.value v) [
    | Value.global_variable (some i) ↦ do c ← value_cell l ir fuel v; init fuel i c 0
    | _ ↦ skip
  ]

  -- initGlobalVariables of the function `fn`
  unfoldable pub init_global_variables : (fn : ℕ) → M (Unit {0})
  unfolding init_global
  init_global_variables fn =
      if Text.◌==◌ (ir.name fn) "main" then for_each init_global ir.globals else skip
