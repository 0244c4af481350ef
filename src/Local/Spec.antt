-- ===== src/Local/Spec.antt =====
-- The functions that describe memory to the analysis: SeadsaFn, getSeaDsaFn, isSeaDsaFn,
-- getSeaDsaAttrbFunc and visitSeaDsaFnCall of lib/seadsa/DsaLocal.cc, with visitCallBase.
pub mod Names
use Prim.Native.String.{String}
use text.Mathlib.Text
use text.Mathlib.Text.{starts_with}
use sea_dsa.Common.{
  ℕ, zero, suc, Bool, true, false, not, ◌&&◌, ◌||◌, Option, none, some, List, [], ◌∷◌, ◌==◌, leb,
  if◌then◌else◌, get_elem?, member,
}
use sea_dsa.Common.Words.{u32}
use sea_dsa.Llvm.{Llvm}
use sea_dsa.FieldType.{Field}
use sea_dsa.NodeType.{NodeType}
use sea_dsa.Graph.{
  Cell, null_cell, cell, M, pure, skip, fail, assert, when, ok, ◌>>=◌, ◌>>◌, load, deref, is_null,
}
use sea_dsa.Graph.Resolve.{get_node}
use sea_dsa.Graph.Types.{add_accessed_type}
use sea_dsa.Graph.Unify.{operations}
use sea_dsa.Graph.Table.{get_cell, has_cell}
use sea_dsa.Local.{ConstantInt, Ir, Setup}
use sea_dsa.Local.Values.{is_pointer_type, is_skip, get_called_function}
use sea_dsa.Local.Cells.{
  mark, set_external, set_heap, set_read, set_modified, set_int_to_ptr, set_ptr_to_int, cell_unify,
  set_array_size, field_type, fresh_cell,
}
use sea_dsa.Local.Source.{value_cell}
use sea_dsa.Local.Call.{
  visit_inline_asm_call, visit_external_call, visit_indirect_call, visit_allocation_fn_call,
}

pub data SeadsaFn : Type 0 where
  modify read heap ptr_to_int int_to_ptr extern alias collapse make_seq link make access unknown :
      SeadsaFn

-- The cases of the StringSwitch, which compare whole names, first.
unfoldable pub exact_fn : String → SeadsaFn
exact_fn n =
    if Text.◌==◌ n "sea_dsa_set_modified"
    then SeadsaFn.modify
    else if Text.◌==◌ n "sea_dsa_set_read"
    then SeadsaFn.read
    else if Text.◌==◌ n "sea_dsa_set_heap"
    then SeadsaFn.heap
    else if Text.◌==◌ n "sea_dsa_set_ptrtoint"
    then SeadsaFn.ptr_to_int
    else if Text.◌==◌ n "sea_dsa_set_inttoptr"
    then SeadsaFn.int_to_ptr
    else if Text.◌==◌ n "sea_dsa_set_extern"
    then SeadsaFn.extern
    else if Text.◌==◌ n "sea_dsa_alias"
    then SeadsaFn.alias
    else if Text.◌==◌ n "sea_dsa_collapse"
    then SeadsaFn.collapse
    else if Text.◌==◌ n "sea_dsa_mk_seq"
    then SeadsaFn.make_seq
    else if Text.◌==◌ n "sea_dsa_mk"
    then SeadsaFn.make
    else SeadsaFn.unknown

-- getSeaDsaFn of a function with the name `n`
unfoldable pub get_sea_dsa_fn : String → SeadsaFn
unfolding exact_fn
get_sea_dsa_fn n = elim (exact_fn n) [
  | SeadsaFn.unknown ↦
      if starts_with n "sea_dsa_link"
      then SeadsaFn.link
      else if starts_with n "sea_dsa_access"
      then SeadsaFn.access
      else SeadsaFn.unknown
  | f ↦ f
]

-- isSeaDsaFn
unfoldable pub is_sea_dsa_fn : String → Bool
is_sea_dsa_fn n = starts_with n "sea_dsa_"

-- getSeaDsaAttrbFunc
unfoldable pub get_sea_dsa_attrb_func : SeadsaFn → Option (NodeType → NodeType)
get_sea_dsa_attrb_func f = elim f [
  | SeadsaFn.modify ↦ some set_modified
  | SeadsaFn.read ↦ some set_read
  | SeadsaFn.heap ↦ some set_heap
  | SeadsaFn.ptr_to_int ↦ some set_ptr_to_int
  | SeadsaFn.int_to_ptr ↦ some set_int_to_ptr
  | SeadsaFn.extern ↦ some set_external
  | _ ↦ none
]

module _ (l : Llvm) (ir : Ir) (fuel : ℕ) where
  -- Runs `k` on the k-th argument of a call, if that is a pointer.
  with_pointer : ℕ → ℕ → (ℕ → M (Unit {0})) → M (Unit {0})
  unfolding is_pointer_type
  with_pointer i j k = elim (get_elem? (l.arguments i) j) [
    | none ↦ fail
    | some a ↦ if is_pointer_type l (ir.type_of a) then k a else skip
  ]

  with_constant : ℕ → ℕ → (ConstantInt → M (Unit {0})) → M (Unit {0})
  with_constant i j k = elim (get_elem? (l.arguments i) j) [
    | none ↦ fail
    | some a ↦ elim (ir.constant_int a) [ none ↦ skip | some c ↦ k c ]
  ]

  -- Runs `k` if `a` is not skipped and has a cell.
  with_cell : ℕ → M (Unit {0}) → M (Unit {0})
  unfolding is_skip has_cell
  with_cell a k g = if not (is_skip l ir a) && has_cell l g a then k g else ok tt g

  set_attribute : ℕ → Option (NodeType → NodeType) → M (Unit {0})
  unfolding with_pointer with_cell value_cell get_node mark
  set_attribute i setter = with_pointer i 0 (λ a. with_cell a (do
    c ← value_cell l ir fuel a
    n ← get_node c
    elim setter [ none ↦ skip | some f ↦ mark n f ]))

  -- The cells of the pointer arguments of sea_dsa_alias.
  alias_cells : List ℕ → M (List Cell)
  unfolding is_skip has_cell value_cell is_pointer_type
  alias_cells [] = pure []
  alias_cells (a ∷ as') =
      let rest = alias_cells as' in
      λ g.
        if is_pointer_type l (ir.type_of a) && not (is_skip l ir a) && has_cell l g (l.strip a)
        then (do
          c ← value_cell l ir fuel (l.strip a)
          cs ← rest
          pure (if is_null c then cs else c ∷ cs))
            g
        else rest g

  -- Unifies a cell with each one of a list.
  merge_cells : Cell → List Cell → M (Unit {0})
  unfolding cell_unify
  merge_cells c [] = skip
  merge_cells c (d ∷ ds) = do (c', _) ← cell_unify l fuel c d; merge_cells c' ds

  alias_arguments : ℕ → M (Unit {0})
  unfolding alias_cells merge_cells
  alias_arguments i = do
    cs ← alias_cells (l.arguments i)
    elim cs [ [] ↦ skip | c ∷ ds ↦ merge_cells c ds ]

  collapse_argument : ℕ → M (Unit {0})
  unfolding with_pointer with_cell value_cell get_node operations
  collapse_argument i = with_pointer i 0 (λ a.
      with_cell a
        (do c ← value_cell l ir fuel a; n ← get_node c; (operations l fuel).collapse_offsets n))

  make_sequence : ℕ → M (Unit {0})
  unfolding with_pointer with_constant with_cell value_cell get_node set_array_size
  make_sequence i = with_pointer i 0 (λ a. with_constant i 1 (λ k. with_cell a (do
    c ← value_cell l ir fuel a
    n ← get_node c
    nd ← load n
    if nd.flags.array then skip else do
      assert (not (k.zext == 0))
      when (leb nd.size k.zext) (set_array_size n (u32 k.zext)))))

  link_arguments : ℕ → M (Unit {0})
  unfolding with_pointer with_constant with_cell get_cell get_node field_type operations
  link_arguments i = with_pointer i 0 (λ a. with_constant i 1 (λ k. with_pointer i 2 (λ b.
      with_cell a (
        with_cell b (do
          c ← get_cell l a
          n ← get_node c
          d ← get_cell l b
          t ← field_type l fuel (ir.type_of b)
          (operations l fuel).add_link n (record { offset = u32 k.zext; type = t }) d)))))

  access_argument : ℕ → M (Unit {0})
  unfolding with_pointer with_constant with_cell get_cell get_node add_accessed_type operations
  access_argument i = with_pointer i 0 (λ a. with_constant i 1 (λ k. with_cell a (do
    c ← get_cell l a
    n ← get_node c
    add_accessed_type l (operations l fuel) n (u32 k.zext) (ir.type_of a))))

  -- visitSeaDsaFnCall of a call of the function `f`
  unfoldable pub visit_sea_dsa_fn_call : Setup → (f i : ℕ) → M (Unit {0})
  unfolding get_sea_dsa_fn get_sea_dsa_attrb_func set_attribute alias_arguments collapse_argument
      make_sequence link_arguments access_argument fresh_cell visit_external_call
  visit_sea_dsa_fn_call setup f i = elim (get_sea_dsa_fn (ir.name f)) [
    | SeadsaFn.alias ↦ alias_arguments i
    | SeadsaFn.collapse ↦ collapse_argument i
    | SeadsaFn.make_seq ↦ make_sequence i
    | SeadsaFn.link ↦ link_arguments i
    | SeadsaFn.make ↦ do fresh_cell l fuel i; skip
    | SeadsaFn.access ↦ access_argument i
    | SeadsaFn.unknown ↦ visit_external_call l ir fuel setup i
    | a ↦ set_attribute i (get_sea_dsa_attrb_func a)
  ]

  -- The end of visitCallBase: a call that nothing else handles.
  other_call : ℕ → M (Unit {0})
  unfolding is_skip fresh_cell is_pointer_type
  other_call i =
      if not (is_skip l ir i)
      then (do fresh_cell l fuel i; skip)
      else if not (is_pointer_type l (ir.type_of i))
      then skip
      else fail

  -- visitCallBase
  unfoldable pub visit_call_base : Setup → ℕ → M (Unit {0})
  unfolding visit_inline_asm_call visit_indirect_call visit_allocation_fn_call get_called_function
      is_sea_dsa_fn visit_sea_dsa_fn_call visit_external_call other_call
  visit_call_base setup i =
      if ir.is_inline_asm i
      then visit_inline_asm_call l ir fuel i
      else if ir.is_indirect_call i
      then visit_indirect_call l ir fuel setup i
      else if ir.is_allocation_fn i
      then visit_allocation_fn_call l ir fuel i
      else elim (get_called_function l ir i) [
        | none ↦ other_call i
        | some f ↦
            if member f setup.wrappers
            then visit_allocation_fn_call l ir fuel i
            else if is_sea_dsa_fn (ir.name f)
            then visit_sea_dsa_fn_call setup f i
            else if ir.is_declaration f
            then visit_external_call l ir fuel setup i
            else other_call i
      ]
