-- ===== src/Graph/Merge/Walk.antt =====
-- Node::mergeUniqueScalar and Node::mergeAllocSites of lib/seadsa/Graph.cc: the walk over the links
-- of two nodes, the first of which is simulated by the second. The nodes belong to two different
-- graphs. The cells of links are read through forwarding pointers, and paths are not shortened.
pub mod Report
use sea_dsa.Common.{
  ℕ, zero, suc, Bool, true, false, Option, none, some, List, [], ◌∷◌, lookup, member, if◌then◌else◌,
  not,
}
use sea_dsa.Llvm.{Llvm}
use sea_dsa.FieldType.{Field}
use sea_dsa.Graph.{Cell, Node, Graph, set_node}
use sea_dsa.Graph.Query.{place, link?, is_proper}
use sea_dsa.Graph.Merge.{Changed, or_changed, changed, merge_unique_scalars, merge_alloc_sites}

-- What is done to one pair of nodes.
abbrev pub Step : Type 0
Step = Node → Node → Node × Node × Changed

abbrev pub unique_scalar_step : Step
unique_scalar_step a b = merge_unique_scalars a b

abbrev pub alloc_site_step : Step
alloc_site_step a b =
    let (s, t, c) = merge_alloc_sites a.alloca_sites b.alloca_sites in
    (record a { alloca_sites = s }, record b { alloca_sites = t }, c)

-- The nodes of the second graph that were seen, and both graphs.
pub record Walk : Type 0 where
  pub result : Changed
  pub seen : List ℕ
  pub this : Graph
  pub other : Graph

module _ (l : Llvm) (step : Step) where
  -- The loop over the links of the second node `b`, with those of the first one that it has too.
  -- `rec` is the call for a pair of nodes.
  unfoldable pub merge_links :
      (ℕ → ℕ → Walk → Option Walk) → (a : Node) → List (Field × Cell) → Walk → Option Walk
  unfolding link? is_proper place
  merge_links rec a [] w = some w
  merge_links rec a ((key, c) ∷ ls) w = elim (place w.other c) [
    | none ↦ none
    | some q ↦ if not (is_proper l key) then none else elim (link? l a key) [
      | none ↦ merge_links rec a ls w
      | some d ↦ elim (place w.this d) [
        | none ↦ none
        | some p ↦ elim (rec p.address q.address w) [
          | none ↦ none
          | some w' ↦ merge_links rec a ls w'
        ]
      ]
    ]
  ]

  -- The templates mergeUniqueScalar and mergeAllocSites, with what changed so far; `none` is out of
  -- fuel, a dangling pointer or a failed assertion.
  unfoldable pub merge_walk : ℕ → (n m : ℕ) → Walk → Option Walk
  unfolding merge_links or_changed
  merge_walk zero n m w = none
  merge_walk (suc k) n m w = elim (member m w.seen) [
    | true ↦ some w
    | false ↦ elim (lookup n w.this.nodes) [
      | none ↦ none
      | some a ↦ elim (lookup m w.other.nodes) [
        | none ↦ none
        | some b ↦
            let (a', b', c) = step a b in
            merge_links (merge_walk k) a' b.links (record {
              result = or_changed w.result c;
              seen = m ∷ w.seen;
              this = set_node n a' w.this;
              other = set_node m b' w.other;
            })
      ]
    ]
  ]

  -- mergeUniqueScalar(Node &) and mergeAllocSites(Node &)
  unfoldable pub merge_from : ℕ → (n m : ℕ) → Graph → Graph → Option Walk
  unfolding merge_walk
  merge_from k n m this other =
      merge_walk k n m
        (record { result = changed false false; seen = []; this = this; other = other })
