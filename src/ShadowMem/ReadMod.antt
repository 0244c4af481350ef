-- ===== src/ShadowMem/ReadMod.antt =====
-- doReadMod and updateReadMod of lib/seadsa/ShadowMem.cc: the nodes that functions read and modify,
-- for graphs that functions share.
use sea_dsa.Common.{
  ℕ, Option, none, some, List, [], ◌∷◌, ◌==◌, lookup, put, set_insert, set_union, if◌then◌else◌,
}
use sea_dsa.Llvm.{Llvm}
use sea_dsa.Graph.{Graph, is_null, ok, fault, out_of_fuel}
use sea_dsa.Graph.Query.{place}
use sea_dsa.Graph.Table.{has_cell, get_cell}
use sea_dsa.CompleteCallGraph.{Graphs, graph_of}

-- An instruction, as far as it is looked at.
pub data Access : Type 0 where
  load : (source : ℕ) → Access
  store : (destination : ℕ) → Access
  calloc : (inst : ℕ) → Access
  call : (callee : ℕ) → Access
  other : Access

-- A function's sets in m_readList and m_modList; a function that is no key has empty ones.
pub record Sets : Type 0 where
  pub read : List ℕ
  pub modified : List ℕ

abbrev no_sets : Sets
no_sets = record { read = []; modified = [] }

abbrev pub sets_of : ℕ → List (ℕ × Sets) → Sets
sets_of f m = elim (lookup f m) [ none ↦ no_sets | some s ↦ s ]

unfoldable pub both : Sets → Sets → Sets
both s t = record { read = set_union s.read t.read; modified = set_union s.modified t.modified }

module _ (l : Llvm) where
  -- The node of the cell of a value, if it is not null, after getCell.
  node_at : ℕ → Graph → Option (Option ℕ × Graph)
  unfolding get_cell place
  node_at v g = elim (get_cell l v g) [
    | fault ↦ none
    | out_of_fuel ↦ none
    | ok c h ↦
        if is_null c
        then some (none, h)
        else elim (place h c) [ none ↦ none | some p ↦ some (some p.address, h) ]
  ]

  -- Puts the node of a pointer into a set.
  insert_node : (Sets → ℕ → Sets) → ℕ → Graph × Sets → Option (Graph × Sets)
  unfolding node_at
  insert_node add v (g, s) = elim (node_at v g) [
    | none ↦ none
    | some (none, h) ↦ some (h, s)
    | some (some n, h) ↦ some (h, add s n)
  ]

  reads : Sets → ℕ → Sets
  reads s n = record s { read = set_insert n s.read }

  modifies : Sets → ℕ → Sets
  modifies s n = record s { modified = set_insert n s.modified }

  -- One instruction of a function with the graph `i`.
  unfoldable pub update_at :
      Graphs → List (ℕ × Sets) → (i : ℕ) → Access → Graph × Sets → Option (Graph × Sets)
  unfolding has_cell insert_node reads modifies both graph_of
  update_at gs lists i (load v) (g, s) =
      if has_cell l g v then insert_node reads v (g, s) else some (g, s)
  update_at gs lists i (store v) (g, s) =
      if has_cell l g v then insert_node modifies v (g, s) else some (g, s)
  update_at gs lists i (calloc v) st = insert_node modifies v st
  update_at gs lists i (call f) (g, s) = elim (graph_of gs f) [
    | none ↦ some (g, s)
    | some (j, h) ↦ if i == j then some (g, both s (sets_of f lists)) else none
  ]
  update_at gs lists i other st = some st

  update_all :
      Graphs → List (ℕ × Sets) → (i : ℕ) → List Access → Graph × Sets → Option (Graph × Sets)
  unfolding update_at
  update_all gs lists i [] st = some st
  update_all gs lists i (a ∷ as') st = elim (update_at gs lists i a st) [
    | none ↦ none
    | some st' ↦ update_all gs lists i as' st'
  ]

  module _ (instructions : ℕ → List Access) where
    -- updateReadMod
    unfoldable pub update_read_mod :
        List (ℕ × Sets) → (fn : ℕ) → Graphs × Sets → Option (Graphs × Sets)
    unfolding update_all graph_of
    update_read_mod lists f (gs, s) = elim (graph_of gs f) [
      | none ↦ some (gs, s)
      | some (i, g) ↦ elim (update_all gs lists i (instructions f) (g, s)) [
        | none ↦ none
        | some (h, s') ↦ some (record gs { store = put i h gs.store }, s')
      ]
    ]

    -- The functions of a component share their sets.
    unfoldable pub update_component :
        List (ℕ × Sets) → List ℕ → Graphs × Sets → Option (Graphs × Sets)
    unfolding update_read_mod
    update_component lists [] st = some st
    update_component lists (f ∷ fs) st = elim (update_read_mod lists f st) [
      | none ↦ none
      | some st' ↦ update_component lists fs st'
    ]

    unfoldable pub share : List ℕ → Sets → List (ℕ × Sets) → List (ℕ × Sets)
    unfolding both
    share [] s lists = lists
    share (f ∷ fs) s lists = share fs s (put f (both (sets_of f lists) s) lists)

    -- doReadMod, over the components of the call graph in bottom-up order
    unfoldable pub do_read_mod :
        List (List ℕ) → Graphs × List (ℕ × Sets) → Option (Graphs × List (ℕ × Sets))
    unfolding update_component share
    do_read_mod [] st = some st
    do_read_mod (fs ∷ components) (gs, lists) = elim (update_component lists fs (gs, no_sets)) [
      | none ↦ none
      | some (gs', s) ↦ do_read_mod components (gs', share fs s lists)
    ]
