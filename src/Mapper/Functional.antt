-- ===== src/Mapper/Functional.antt =====
-- class FunctionalMapper of include/seadsa/Mapper.hh and lib/seadsa/Mapper.cc: a map from the cells
-- and nodes of one graph to cells of another one. Cells are read through forwarding pointers, and
-- paths are not shortened.
use sea_dsa.Common.{
  ℕ, zero, suc, Bool, true, not, ◌&&◌, Option, none, some, List, [], ◌∷◌, ◌==◌, lookup, put, ltb,
  is_some, if◌then◌else◌,
}
use sea_dsa.Common.Words.{sub32}
use sea_dsa.Llvm.{Llvm}
use sea_dsa.FieldType.{Field, add_offset}
use sea_dsa.Graph.{Cell, null_cell, cell, Graph, is_null}
use sea_dsa.Graph.Query.{Place, place, place_offset, is_proper, link?}

-- The keys of `cells` are the address and the raw offset of a cell.
pub record FunctionalMapper : Type 0 where
  pub cells : List ((ℕ × ℕ) × Cell)
  pub nodes : List (ℕ × Cell)

abbrev pub cell_at : ℕ × ℕ → List ((ℕ × ℕ) × Cell) → Cell
cell_at k [] = null_cell
cell_at (n, o) (((m, p), c) ∷ cs) = if (m == n) && (o == p) then c else cell_at (n, o) cs

-- get(const Cell &) and get(const Node &)
unfoldable pub get_cell : FunctionalMapper → Place → Cell
get_cell m p = cell_at (p.address, p.raw) m.cells

unfoldable pub get_node : FunctionalMapper → ℕ → Cell
get_node m n = elim (lookup n m.nodes) [ none ↦ null_cell | some c ↦ c ]

-- Whether a node is mapped to no node or to this one, the assertion of insert.
abbrev pub is_same_node : Cell → ℕ → Bool
is_same_node c n = elim c.node [ none ↦ true | some m ↦ m == n ]

-- Both emplace calls of insert, of which the one for nodes keeps an entry that is there.
unfoldable pub emplace : FunctionalMapper → Place → Place → FunctionalMapper
emplace m p q = record {
  cells = ((p.address, p.raw), cell q.address q.raw) ∷ m.cells;
  nodes =
      if is_some (lookup p.address m.nodes)
      then m.nodes
      else put p.address (cell q.address (sub32 q.raw p.raw)) m.nodes;
}

module _ (l : Llvm) (from to : Graph) where
  -- The loop over the links of the source; `rec` is the call of insert for a pair of cells.
  insert_links :
      (Cell → Cell → FunctionalMapper → Option FunctionalMapper)
      → (p q : Place) → List (Field × Cell)
      → FunctionalMapper
      → Option FunctionalMapper
  unfolding add_offset is_proper link?
  insert_links rec p q [] m = some m
  insert_links rec p q ((f, c) ∷ ls) m =
      let rest = insert_links rec p q ls in
      let f' = add_offset f (sub32 q.raw p.raw) in
      if ltb f.offset (place_offset p)
      then rest m
      else if not (is_proper l f')
      then none
      else elim (link? l q.node f') [
        | none ↦ rest m
        | some d ↦ elim (rec c d m) [ none ↦ none | some m' ↦ rest m' ]
      ]

  -- insert; `none` is out of fuel, a failed assertion, or a null or dangling pointer.
  unfoldable pub insert : ℕ → (src dst : Cell) → FunctionalMapper → Option FunctionalMapper
  unfolding place get_cell get_node emplace insert_links
  insert zero src dst m = none
  insert (suc k) src dst m = elim (place from src) [
    | none ↦ none
    | some p ↦ elim (place to dst) [
      | none ↦ none
      | some q ↦
          if not (is_null (get_cell m p))
          then some m
          else if not (is_same_node (get_node m p.address) q.address)
          then none
          else if ltb q.raw p.raw
          then none
          else insert_links (insert k) p q p.node.links (emplace m p q)
    ]
  ]
