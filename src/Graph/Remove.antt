-- ===== src/Graph/Remove.antt =====
-- Graph::removeLinks and Graph::removeNodes of lib/seadsa/Graph.cc.
use sea_dsa.Common.{
  ℕ, Bool, true, not, Option, none, some, List, [], ◌∷◌, lookup, remove_if, if◌then◌else◌, is_empty,
  member, set_insert,
}
use sea_dsa.FieldType.{Field}
use sea_dsa.Graph.{
  Cell, cell, Node, Graph, M, skip, ok, fault, assert, for_each, ◌>>=◌, ◌>>◌, load, modify,
  is_forwarding, is_null,
}
use sea_dsa.Graph.Dead.{target, remove_dead}

module _ (p : Node → Bool) where
  -- p(c.getNode()); `none` for a null cell and for a dangling pointer
  unfoldable pub holds : Graph → Cell → Option Bool
  unfolding target
  holds g c = if is_null c then none else elim (target g c) [
    | none ↦ none
    | some n ↦ elim (lookup n g.nodes) [ none ↦ none | some nd ↦ some (p nd) ]
  ]

  -- The entries of a map whose cells are not in nodes that satisfy `p`.
  unfoldable pub keep_entries : {K : Type 0} → Graph → List (K × Cell) → Option (List (K × Cell))
  unfolding holds
  keep_entries g [] = some []
  keep_entries g ((k, c) ∷ m) = elim (keep_entries g m) [
    | none ↦ none
    | some rest ↦ elim (holds g c) [
      | none ↦ none
      | some b ↦ some (if b then rest else (k, c) ∷ rest)
    ]
  ]

  -- removed_offsets
  removed_offsets : Graph → List (Field × Cell) → List ℕ
  unfolding holds
  removed_offsets g [] = []
  removed_offsets g ((f, c) ∷ ls) = elim (holds g c) [
    | some true ↦ set_insert f.offset (removed_offsets g ls)
    | _ ↦ removed_offsets g ls
  ]

  unfoldable pub remove_links : ℕ → M (Unit {0})
  unfolding keep_entries removed_offsets load modify
  remove_links n g =
      (do
        nd ← load n
        assert (not (is_forwarding nd))
        elim (keep_entries g nd.links) [
          | none ↦ λ h. fault
          | some ls ↦
              let gone = removed_offsets g nd.links in
              modify n (λ d. record d {
                links = ls;
                accessed_types = remove_if (λ (o, ts). member o gone) d.accessed_types;
              })
        ])
        g

  -- p(n->getNode()) for the nodes of the graph; a dangling pointer keeps the node out
  unfoldable pub keep_nodes : Graph → List (ℕ × Node) → Option (List (ℕ × Node))
  unfolding holds
  keep_nodes g [] = some []
  keep_nodes g ((n, nd) ∷ ns) = elim (keep_nodes g ns) [
    | none ↦ none
    | some rest ↦ elim (holds g (cell n 0)) [
      | none ↦ none
      | some b ↦ some (if b then rest else (n, nd) ∷ rest)
    ]
  ]

  unfoldable pub remove_nodes : M (Unit {0})
  unfolding keep_entries keep_nodes remove_links remove_dead
  remove_nodes g = if is_empty g.nodes then ok tt g else elim (keep_entries g g.values) [
    | none ↦ fault
    | some vs ↦ elim (keep_entries g g.formals) [
      | none ↦ fault
      | some fs ↦ elim (keep_entries g g.returns) [
        | none ↦ fault
        | some rs ↦
            (do
              (λ h. ok tt (record h { values = vs; formals = fs; returns = rs }))
              for_each (λ (n, nd). if is_forwarding nd then skip else remove_links n) g.nodes
              (λ h. elim (keep_nodes h h.nodes) [
                | none ↦ fault
                | some ns ↦ ok tt (record h { nodes = ns })
              ])
              remove_dead)
              g
      ]
    ]
  ]
