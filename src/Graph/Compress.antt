-- ===== src/Graph/Compress.antt =====
-- Graph::compress of lib/seadsa/Graph.cc: every cell is made to point at a node that is not
-- forwarding, and the forwarding nodes are dropped.
pub mod Values
use sea_dsa.Common.{ℕ, none, some, List, [], ◌∷◌, remove_if, if◌then◌else◌, count_if}
use sea_dsa.Graph.{
  Cell, cell, Node, CallSite, Graph, M, pure, skip, fail, ok, for_each, ◌>>=◌, ◌>>◌, load, modify,
  is_forwarding,
}
use sea_dsa.Graph.Resolve.{resolve_cell}

-- for (auto &kv : m) kv.second->getNode()
unfoldable pub resolve_values : {K : Type 0} → List (K × Cell) → M (List (K × Cell))
unfolding resolve_cell
resolve_values [] = pure []
resolve_values ((k, c) ∷ m) = do r ← resolve_cell c; rest ← resolve_values m; pure ((k, r) ∷ rest)

resolve_call_sites : List (ℕ × CallSite) → M (List (ℕ × CallSite))
unfolding resolve_cell
resolve_call_sites [] = pure []
resolve_call_sites ((i, cs) ∷ m) = do
  c ← elim cs.cell [ none ↦ fail | some c ↦ resolve_cell c ]
  rest ← resolve_call_sites m
  pure ((i, record cs { cell = some c }) ∷ rest)

-- The node itself, and its links if it is not forwarding.
resolve_links : ℕ × Node → M (Unit {0})
unfolding resolve_values
resolve_links (n, _) = do
  resolve_cell (cell n 0)
  nd ← load n
  if is_forwarding nd
      then skip
      else do ls ← resolve_values nd.links; modify n (λ d. record d { links = ls })

unfoldable pub compress : M (Unit {0})
unfolding resolve_values resolve_call_sites resolve_links
compress g =
    (do
      for_each resolve_links g.nodes
      vs ← resolve_values g.values
      fs ← resolve_values g.formals
      rs ← resolve_values g.returns
      cs ← resolve_call_sites g.call_sites
      λ h. ok tt (record h {
        nodes = remove_if (λ (n, nd). is_forwarding nd) h.nodes;
        values = vs;
        formals = fs;
        returns = rs;
        call_sites = cs;
      }))
      g

-- Graph::numCollapsed
unfoldable pub num_collapsed : Graph → ℕ
num_collapsed g = count_if (λ (n, nd). nd.flags.offset_collapsed) g.nodes
