-- ===== src/Graph/Resolve.antt =====
-- Cell::getNode, Cell::getRawOffset, Node::getNode and Node::getRawOffset of lib/seadsa/Graph.cc:
-- cells follow forwarding nodes, and compress the path that they follow.
pub mod Compression
pub mod Total
pub mod Ordered
use sea_dsa.Common.{
  ℕ, zero, suc, Bool, true, false, Option, none, some, lookup, length, if◌then◌else◌, ◌≡◌,
}
use sea_dsa.Common.Words.{add32}
use sea_dsa.Graph.{
  Cell, null_cell, cell, Node, Graph, M, pure, out_of_fuel, ◌>>=◌, ◌>>◌, load, modify,
  is_forwarding, is_null, deref,
}

-- The cell that begins `o` bytes behind `c`.
abbrev pub shift : Cell → ℕ → Cell
shift c o = record { node = c.node; offset = add32 o c.offset }

-- Cell::getNode, which leaves the cell pointing at a node that is not forwarding. Fuel bounds the
-- length of the chain of forwarding nodes.
unfoldable pub resolve : ℕ → Cell → M Cell
resolve zero c = λ g. out_of_fuel
resolve (suc k) c = elim c.node [
  | none ↦ pure c
  | some n ↦ do
    nd ← load n
    if is_null nd.forward then pure c else do
      f ← resolve k nd.forward
      modify n (λ d. record d { forward = f })
      pure (shift f c.offset)
]

-- The same walk with no change to the graph; `none` is a dangling pointer or a chain longer than `k`.
unfoldable pub find : ℕ → Graph → Cell → Option Cell
find zero g c = none
find (suc k) g c = elim c.node [
  | none ↦ some c
  | some n ↦ elim (lookup n g.nodes) [
    | none ↦ none
    | some nd ↦
        if is_null nd.forward
        then some c
        else elim (find k g nd.forward) [ none ↦ none | some f ↦ some (shift f c.offset) ]
  ]
]

-- A chain of distinct nodes is at most as long as the graph.
abbrev pub enough : Graph → ℕ
enough g = suc (suc (length g.nodes))

-- The cell with its forwarding resolved, on enough fuel.
unfoldable pub resolve_cell : Cell → M Cell
unfolding resolve
resolve_cell c g = resolve (enough g) c g

-- The address of the node that a cell points into.
unfoldable pub get_node : Cell → M ℕ
unfolding resolve_cell deref
get_node c = do r ← resolve_cell c; deref r
