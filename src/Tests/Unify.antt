-- ===== src/Tests/Unify.antt =====
-- A run of unification that loses an allocation site.
use sea_dsa.Common.{ℕ, true, false, List, [], ◌∷◌, ◌≡◌, refl}
use sea_dsa.Graph.{
  Cell, cell, null_cell, Node, Graph, M, Run, ok, skip, ◌>>=◌, ◌>>◌, modify, mk_node, empty_graph,
}
use sea_dsa.Graph.Types.{add_accessed_type}
use sea_dsa.Graph.Link.{unify}
use sea_dsa.Graph.Unify.{operations}
use sea_dsa.NodeType.{join}
use sea_dsa.Tests.Toy.{toy}

-- The nodes with their sizes, where they forward to, and their allocation sites.
abbrev view : Graph → List (ℕ × ℕ × Cell × List ℕ)
view g = go g.nodes
  where
    go : List (ℕ × Node) → List (ℕ × ℕ × Cell × List ℕ)
    go [] = []
    go ((n, nd) ∷ ns) = (n, nd.size, nd.forward, nd.alloca_sites) ∷ go ns

-- An array of 4 bytes and a struct with an 8 byte integer, each with an allocation site.
lost : M (Unit {0})
unfolding mk_node modify add_accessed_type unify operations
lost = do
  a ← mk_node toy
  modify a
      (λ d. record d { size = 4; flags = record d.flags { array = true }; alloca_sites = 7 ∷ [] })
  b ← mk_node toy
  modify b (λ d. record d { alloca_sites = 8 ∷ [] })
  add_accessed_type toy (operations toy 5) b 0 8
  unify toy (operations toy 5) (cell a 0) (cell b 0)
  skip

abbrev run : M (Unit {0}) → Run (List (ℕ × ℕ × Cell × List ℕ))
run m = (m >>= λ _ g. ok (view g) (empty_graph false)) (empty_graph false)

-- Node 1 forwards to node 0 and that to node 2, which has the site 7 but not the site 8.
run-lost :
    run lost
    ≡ ok
        ((0, 0, cell 2 0, 8 ∷ []) ∷ (1, 0, cell 0 0, []) ∷ (2, 1, null_cell, 7 ∷ []) ∷ [])
        (empty_graph false)
unfolding lost join
run-lost = refl
