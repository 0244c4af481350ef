-- ===== src/Graph/Offset.antt =====
-- Node::Offset, Cell::pointTo, Cell::getOffset and the links and types of one node:
-- include/seadsa/Graph.hh and lib/seadsa/Graph.cc.
pub mod Links
use sea_dsa.Common.{
  ℕ, ◌%◌, Bool, true, false, not, ◌&&◌, ◌||◌, Option, none, some, List, [], ◌∷◌, lookup, ltb, ◌==◌,
  if◌then◌else◌, is_some, is_empty, all_of,
}
use sea_dsa.Llvm.{Llvm}
use sea_dsa.FieldType.{Field, field_eq, field_lt, is_unknown, mk_omni_field, add_offset}
use sea_dsa.Graph.{
  Cell, cell, null_cell, Node, M, pure, fail, assert, ◌>>=◌, ◌>>◌, load, modify, is_forwarding,
  is_null,
}
use sea_dsa.Graph.Resolve.{resolve_cell, get_node}

-- The offset in a node that is not forwarding. In an array of size 0 the source divides by zero.
abbrev pub adjust : Node → ℕ → ℕ
adjust nd o = if nd.flags.offset_collapsed then 0 else if nd.flags.array then o % nd.size else o

-- Node::getNode
unfoldable pub node_of : ℕ → M ℕ
unfolding get_node
node_of n = get_node (cell n 0)

-- Offset::getNumericOffset
unfoldable pub numeric_offset : ℕ → ℕ → M ℕ
unfolding node_of
numeric_offset n o = do
  r ← node_of n
  nd ← load r
  assert (not (nd.flags.array && nd.size == 0) || nd.flags.offset_collapsed)
  pure (adjust nd o)

-- Offset::getAdjustedField
unfoldable pub adjusted_field : ℕ → Field → M Field
unfolding numeric_offset
adjusted_field n f = do o ← numeric_offset n f.offset; pure (record f { offset = o })

-- Cell::getOffset, given the node that the cell points into after `resolve_cell`
unfoldable pub get_offset : Cell → M ℕ
unfolding resolve_cell
get_offset c = if is_null c then pure 0 else do
  r ← resolve_cell c
  elim r.node [ none ↦ pure 0 | some n ↦ do nd ← load n; pure (adjust nd r.offset) ]

module _ (l : Llvm) where
  -- links_type, a map ordered by `field_lt`: find, operator[] with an assignment
  unfoldable pub find_link : Field → List (Field × Cell) → Option Cell
  find_link f [] = none
  find_link f ((g, c) ∷ ls) = if field_eq l g f then some c else find_link f ls

  unfoldable pub put_link : Field → Cell → List (Field × Cell) → List (Field × Cell)
  put_link f c [] = (f, c) ∷ []
  put_link f c ((g, d) ∷ ls) =
      if field_eq l g f
      then (g, c) ∷ ls
      else if field_lt l f g
      then (f, c) ∷ (g, d) ∷ ls
      else (g, d) ∷ put_link f c ls

  -- Node::hasLink
  unfoldable pub has_link : ℕ → Field → M Bool
  unfolding find_link adjusted_field is_unknown
  has_link n f = do
    assert (l.type_aware || is_unknown f.type)
    g ← adjusted_field n f
    nd ← load n
    pure (is_some (find_link g nd.links))

  -- Node::getLink_
  unfoldable pub get_link_ : ℕ → Field → M Cell
  unfolding find_link put_link adjusted_field
  get_link_ n f = do
    nd ← load n
    assert (not (is_forwarding nd))
    g ← adjusted_field n f
    elim (find_link g nd.links) [
      | some c ↦ pure c
      | none ↦ do modify n (λ d. record d { links = put_link g null_cell d.links }); pure null_cell
    ]

  -- Node::getLink
  unfoldable pub get_link : ℕ → Field → M Cell
  unfolding find_link adjusted_field is_unknown mk_omni_field
  get_link n f = do
    nd ← load n
    assert (not (is_forwarding nd))
    assert (l.type_aware || is_unknown f.type)
    g ← adjusted_field n f
    elim (find_link g nd.links) [
      | some c ↦ pure c
      | none ↦ do
        assert l.type_aware
        assert (not g.type.is_omni)
        elim (find_link (mk_omni_field g) nd.links) [ some c ↦ pure c | none ↦ fail ]
    ]

  -- Node::setLink
  unfoldable pub set_link : ℕ → Field → Cell → M (Unit {0})
  unfolding put_link adjusted_field
  set_link n f c = do
    nd ← load n
    assert (not (is_forwarding nd))
    g ← adjusted_field n f
    modify n (λ d. record d { links = put_link g c d.links })

-- Node::hasAccessedType and Node::isEmtpyAccessedType
unfoldable pub has_accessed_type : ℕ → ℕ → M Bool
unfolding numeric_offset
has_accessed_type n o = do
  nd ← load n
  if nd.flags.offset_collapsed then pure false else do
    a ← numeric_offset n o
    elim (lookup a nd.accessed_types) [ none ↦ pure false | some ts ↦ pure (not (is_empty ts)) ]

unfoldable pub is_empty_accessed_type : Node → Bool
is_empty_accessed_type nd = all_of (λ (o, ts). is_empty ts) nd.accessed_types
