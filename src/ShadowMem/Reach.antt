-- ===== src/ShadowMem/Reach.antt =====
-- markReachableNodes, reachableNodes and argReachableNodes of lib/seadsa/ShadowMem.cc (the first two
-- also of include/seadsa/GraphUtils.hh): the nodes that a caller shares with a function.
pub mod Starts
pub mod Exact
use sea_dsa.Common.{
  ℕ, zero, suc, Bool, true, false, not, ◌&&◌, Option, none, some, List, [], ◌∷◌, ◌++◌, lookup,
  member, set_insert, set_union, remove_if, length, if◌then◌else◌,
}
use sea_dsa.Llvm.{Llvm}
use sea_dsa.Graph.{Cell, Graph}
use sea_dsa.Graph.Table.{has_cell, entry}
use sea_dsa.Graph.Dead.{targets}
use sea_dsa.Transfer.{globals}

-- markReachableNodes for several nodes, of which `rec` marks one
unfoldable pub mark_all : (ℕ → List ℕ → Option (List ℕ)) → List ℕ → List ℕ → Option (List ℕ)
mark_all rec [] seen = some seen
mark_all rec (n ∷ ns) seen = elim (rec n seen) [ none ↦ none | some s ↦ mark_all rec ns s ]

-- markReachableNodes; `none` is out of fuel or a dangling pointer.
unfoldable pub mark_reachable : Graph → ℕ → ℕ → List ℕ → Option (List ℕ)
unfolding targets mark_all
mark_reachable g zero n seen = none
mark_reachable g (suc k) n seen = elim (member n seen) [
  | true ↦ some seen
  | false ↦ elim (lookup n g.nodes) [
    | none ↦ none
    | some nd ↦ elim (targets g nd.links) [
      | none ↦ none
      | some ts ↦ mark_all (mark_reachable g k) ts (set_insert n seen)
    ]
  ]
]

-- The fuel that is enough.
abbrev pub rounds : Graph → ℕ
rounds g = suc (length g.nodes)

-- The cells of the formals of a function, by their formals.
unfoldable pub formal_cells : Llvm → Graph → List ℕ → List (ℕ × Cell)
unfolding has_cell entry
formal_cells l g [] = []
formal_cells l g (a ∷ as') =
    let rest = formal_cells l g as' in
    if has_cell l g a
    then elim (entry l g (l.strip a)) [ none ↦ rest | some c ↦ (a, c) ∷ rest ]
    else rest

-- The nodes from which reachableNodes starts: for the inputs, and for the value that is returned.
unfoldable pub inputs : Llvm → Graph → (fn : ℕ) → Option (List ℕ)
unfolding targets globals formal_cells
inputs l g fn = targets g (formal_cells l g (l.params fn) ++ globals l g.values)

unfoldable pub outputs : Graph → (fn : ℕ) → Option (List ℕ)
unfolding targets
outputs g fn = elim (lookup fn g.returns) [ none ↦ some [] | some c ↦ targets g ((fn, c) ∷ []) ]

-- reachableNodes, with inputReach and retReach
unfoldable pub reachable_nodes : Llvm → Graph → (fn : ℕ) → Option (List ℕ × List ℕ)
unfolding inputs outputs mark_all mark_reachable
reachable_nodes l g fn = elim (inputs l g fn) [
  | none ↦ none
  | some is ↦ elim (outputs g fn) [
    | none ↦ none
    | some os ↦ elim (mark_all (mark_reachable g (rounds g)) is []) [
      | none ↦ none
      | some i ↦ elim (mark_all (mark_reachable g (rounds g)) os []) [
        | none ↦ none
        | some o ↦ some (i, o)
      ]
    ]
  ]
]

-- argReachableNodes, with inReach and outReach
unfoldable pub arg_reachable_nodes : Llvm → Graph → (fn : ℕ) → Option (List ℕ × List ℕ)
unfolding reachable_nodes
arg_reachable_nodes l g fn = elim (reachable_nodes l g fn) [
  | none ↦ none
  | some (i, o) ↦ let new = remove_if (λ x. member x i) o in some (set_union i new, new)
]
