-- ===== src/Graph/Dead.antt =====
-- Graph::remove_dead of lib/seadsa/Graph.cc.
pub mod Reach
pub mod Walk
pub mod Round
pub mod Start
pub mod Correct
use sea_dsa.Common.{
  ℕ, zero, suc, Bool, true, false, not, Option, none, some, List, [], ◌∷◌, ◌++◌, reverse, lookup,
  remove_if, if◌then◌else◌, is_empty, member, set_insert, length, map,
}
use sea_dsa.FieldType.{Field}
use sea_dsa.Graph.{
  Cell, cell, Node, Graph, M, Run, pure, skip, fail, ok, fault, out_of_fuel, assert, for_each,
  ◌>>=◌, ◌>>◌, load, modify, is_forwarding, is_null, deref,
}
use sea_dsa.Graph.Resolve.{find, enough, resolve_cell}

-- The node that a cell points into, where getNode does not rewrite the cell; `none` is a dangling
-- pointer.
unfoldable pub target : Graph → Cell → Option ℕ
unfolding find
target g c = elim (find (enough g) g c) [ none ↦ none | some r ↦ r.node ]

-- The nodes of the cells that are not null, and `none` if a pointer dangles.
unfoldable pub targets : {K : Type 0} → Graph → List (K × Cell) → Option (List ℕ)
unfolding target
targets g [] = some []
targets g ((k, c) ∷ m) = elim (targets g m) [
  | none ↦ none
  | some ns ↦
      if is_null c then some ns else elim (target g c) [ none ↦ none | some n ↦ some (n ∷ ns) ]
]

-- What the walk has found: the set of the reachable nodes, and the worklist with its back first.
pub record Search : Type 0 where
  pub reachable : List ℕ
  pub worklist : List ℕ

-- if (reachable.insert(s).second) worklist.push_back(s)
unfoldable pub offer : Search → ℕ → Search
offer s n =
    if member n s.reachable
    then s
    else record { reachable = set_insert n s.reachable; worklist = n ∷ s.worklist }

unfoldable pub offers : Search → List ℕ → Search
unfolding offer
offers s [] = s
offers s (n ∷ ns) = offers (offer s n) ns

-- The cells of a map, each after getNode if it is not null, and the nodes of those.
unfoldable pub get_nodes : {K : Type 0} → List (K × Cell) → M (List (K × Cell) × List ℕ)
unfolding resolve_cell deref
get_nodes [] = pure ([], [])
get_nodes ((k, c) ∷ m) = elim (is_null c) [
  | true ↦ do (m', ns) ← get_nodes m; pure ((k, c) ∷ m', ns)
  | false ↦ do r ← resolve_cell c; n ← deref r; (m', ns) ← get_nodes m; pure ((k, r) ∷ m', n ∷ ns)
]

-- The loop over the worklist.
unfoldable pub search : ℕ → Search → M (List ℕ)
unfolding offers get_nodes load modify
search zero s = elim s.worklist [ [] ↦ pure s.reachable | _ ∷ _ ↦ λ g. out_of_fuel ]
search (suc k) s = elim s.worklist [
  | [] ↦ pure s.reachable
  | n ∷ rest ↦ do
    nd ← load n
    (ls, ts) ← get_nodes nd.links
    modify n (λ d. record d { links = ls })
    search k (offers (record s { worklist = rest }) ts)
]

-- The nodes of scalars, formals and returns.
unfoldable pub get_roots : M (List ℕ)
unfolding get_nodes
get_roots g =
    (do
      (vs, xs) ← get_nodes g.values
      (fs, ys) ← get_nodes g.formals
      (rs, zs) ← get_nodes g.returns
      (λ h. ok tt (record h { values = vs; formals = fs; returns = rs }))
      pure (xs ++ ys ++ zs))
      g

unfoldable pub insert_all : List ℕ → List ℕ → List ℕ
insert_all s [] = s
insert_all s (n ∷ ns) = insert_all (if member n s then s else set_insert n s) ns

unfoldable pub reachable : M (List ℕ)
unfolding get_roots search insert_all
reachable g =
    (do
      ns ← get_roots
      search (length g.nodes)
          (record { reachable = insert_all [] ns; worklist = reverse (insert_all [] ns) }))
      g

unfoldable pub remove_dead : M (Unit {0})
unfolding reachable
remove_dead = do
  ns ← reachable
  λ g. ok tt (record g { nodes = remove_if (λ (n, nd). not (member n ns)) g.nodes })
