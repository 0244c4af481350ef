-- ===== src/Local/Cells.antt =====
-- The operations of Cell in include/seadsa/Graph.hh that the builders of lib/seadsa/DsaLocal.cc
-- call, Node::setArraySize, and steps that several builders share. An operation hands on the new
-- value of the cell, which points behind all forwarding nodes.
use sea_dsa.Common.{ℕ, Bool, true, false, not, Option, none, some, [], leb, if◌then◌else◌}
use sea_dsa.Common.Words.{add32}
use sea_dsa.Llvm.{Llvm}
use sea_dsa.FieldType.{FieldType, Field, add_offset}
use sea_dsa.NodeType.{NodeType}
use sea_dsa.TypeUtils.{mk_field_type}
use sea_dsa.Graph.{
  Cell, cell, M, pure, assert, out_of_fuel, ok, ◌>>=◌, ◌>>◌, load, modify, is_forwarding, is_null,
  deref, mk_node,
}
use sea_dsa.Graph.Resolve.{resolve_cell}
use sea_dsa.Graph.Offset.{has_link, get_link}
use sea_dsa.Graph.Types.{grow_size_at, add_accessed_type}
use sea_dsa.Graph.Link.{unify, cell_add_link}
use sea_dsa.Graph.Unify.{operations}
use sea_dsa.Graph.Table.{mk_cell, mk_alloc_site, add_alloc_site}

-- An answer found on fuel.
unfoldable pub answer : {A : Type 0} → Option A → M A
answer none g = out_of_fuel
answer (some a) g = ok a g

-- Node::setAlloca, setHeap, setExternal, setRead, setModified, setIntToPtr, setPtrToInt
abbrev pub set_alloca : NodeType → NodeType
set_alloca t = record t { alloca = true }

abbrev pub set_heap : NodeType → NodeType
set_heap t = record t { heap = true }

abbrev pub set_external : NodeType → NodeType
set_external t = record t { external = true }

abbrev pub set_read : NodeType → NodeType
set_read t = record t { read = true }

abbrev pub set_modified : NodeType → NodeType
set_modified t = record t { modified = true }

abbrev pub set_int_to_ptr : NodeType → NodeType
set_int_to_ptr t = record t { inttoptr = true }

abbrev pub set_ptr_to_int : NodeType → NodeType
set_ptr_to_int t = record t { ptrtoint = true }

unfoldable pub mark : ℕ → (NodeType → NodeType) → M (Unit {0})
mark n f = modify n (λ d. record d { flags = f d.flags })

-- Cell::setRead and setModified
unfoldable pub cell_mark : Cell → (NodeType → NodeType) → M Cell
unfolding resolve_cell deref mark
cell_mark c f = do r ← resolve_cell c; n ← deref r; mark n f; pure r

-- Node::setArraySize
unfoldable pub set_array_size : ℕ → ℕ → M (Unit {0})
set_array_size n sz = do
  nd ← load n
  assert (not nd.flags.array)
  assert (not (is_forwarding nd))
  assert (leb nd.size sz)
  modify n (λ d. record d { flags = record d.flags { array = true }; size = sz })

-- mkAllocSite(v) and addAllocSite on a node
unfoldable pub record_site : ℕ → ℕ → M (Unit {0})
unfolding mk_alloc_site add_alloc_site
record_site n v = do mk_alloc_site v; add_alloc_site n v

-- Cell(const Cell &, unsigned), without following any forwarding
abbrev pub cell_at : Cell → ℕ → Cell
cell_at c o = record { node = c.node; offset = add32 c.offset o }

module _ (l : Llvm) (fuel : ℕ) where
  -- FieldType(t) with an empty cache of innermost types
  unfoldable pub field_type : ℕ → M FieldType
  unfolding mk_field_type answer
  field_type t = do (r, _) ← answer (mk_field_type l fuel [] t); pure r

  -- Field(0, FieldType(t))
  unfoldable pub field_0 : ℕ → M Field
  unfolding field_type
  field_0 t = do r ← field_type t; pure (record { offset = 0; type = r })

  unfoldable pub cell_add_accessed_type : Cell → ℕ → ℕ → M Cell
  unfolding resolve_cell deref add_accessed_type
  cell_add_accessed_type c o t = do
    r ← resolve_cell c
    n ← deref r
    add_accessed_type l (operations l fuel) n (add32 r.offset o) t
    pure r

  unfoldable pub cell_grow_size : Cell → ℕ → ℕ → M Cell
  unfolding resolve_cell deref grow_size_at
  cell_grow_size c o t = do
    assert (not (is_null c))
    r ← resolve_cell c
    n ← deref r
    grow_size_at l (operations l fuel) n (add32 r.offset o) (some t)
    pure r

  unfoldable pub cell_has_link : Cell → Field → M (Bool × Cell)
  unfolding resolve_cell deref has_link add_offset
  cell_has_link c f =
      if is_null c
      then pure (false, c)
      else do r ← resolve_cell c; n ← deref r; b ← has_link l n (add_offset f r.offset); pure (b, r)

  unfoldable pub cell_get_link : Cell → Field → M Cell
  unfolding resolve_cell deref get_link add_offset
  cell_get_link c f = do
    assert (not (is_null c))
    r ← resolve_cell c
    n ← deref r
    get_link l n (add_offset f r.offset)

  unfoldable pub cell_put_link : Cell → Field → Cell → M Cell
  unfolding cell_add_link
  cell_put_link c f d = cell_add_link l (operations l fuel) c f d

  -- c.unify(d) for two local cells
  unfoldable pub cell_unify : Cell → Cell → M (Cell × Cell)
  unfolding unify
  cell_unify c d = unify l (operations l fuel) c d

  -- A new node with the cell of `v` at its beginning.
  unfoldable pub fresh_cell : ℕ → M Cell
  unfolding mk_node mk_cell
  fresh_cell v = do n ← mk_node l; mk_cell l v (cell n 0)

  -- A new node that is the memory that `site` allocates.
  unfoldable pub new_memory : (NodeType → NodeType) → (site : ℕ) → M ℕ
  unfolding mk_node record_site mark
  new_memory f site = do n ← mk_node l; record_site n site; mark n f; pure n

  -- The link of a cell at a field, made with a new node if there is none.
  unfoldable pub demand_link : Cell → Field → (ℕ → M (Unit {0})) → M (Cell × Cell)
  unfolding cell_has_link cell_get_link cell_put_link mk_node
  demand_link c f init = do
    (present, c') ← cell_has_link c f
    c'' ←
        if present
        then pure c'
        else do n ← mk_node l; r ← cell_put_link c' f (cell n 0); init n; pure r
    d ← cell_get_link c'' f
    pure (d, c'')
