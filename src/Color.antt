-- ===== src/Color.antt =====
-- lib/seadsa/DsaColor.cc: nodes of a callee's graph, or of the graph of one function, get the colours of
-- the nodes of another graph that simulate them. `rand` gives the numbers that std::rand draws.

use sea_dsa.Common.{
  ℕ, zero, suc, ◌+◌, ◌*◌, ◌%◌, ◌/◌, ◌^◌, Option, none, some, List, [], ◌∷◌, lookup, put, member,
  is_some, if◌then◌else◌,
}
use sea_dsa.Llvm.{Llvm}
use sea_dsa.FieldType.{Field}
use sea_dsa.Graph.{Cell, CallSite, Graph, Run, ok, fault, out_of_fuel}
use sea_dsa.Graph.Query.{place}
use sea_dsa.Graph.Table.{has_cell, formals_of}
use sea_dsa.Mapper.{Sim, get_simulator}
use sea_dsa.Transfer.{globals}
use sea_dsa.Global.Mapping.{compute_callee_caller_mapping, compute_simulation_mapping}

-- A byte with its highest bit set.
abbrev light : ℕ → ℕ
light b = b % 128 + 128

-- ((r1 << 32 | r) | 0x808080) & 0xFFFFFF, for any r1
unfoldable pub new_color : ℕ → ℕ
new_color r = light r + 2 ^ 8 * light (r / 2 ^ 8) + 2 ^ 16 * light (r / 2 ^ 16)

-- f_proc, the two maps of colours, and how many numbers have been drawn
pub record Colors : Type 0 where
  pub processed : List ℕ
  pub callee : List (ℕ × ℕ)
  pub caller : List (ℕ × ℕ)
  pub drawn : ℕ

-- insert, which keeps an entry that is there
abbrev pub insert_new : ℕ → ℕ → List (ℕ × ℕ) → List (ℕ × ℕ)
insert_new n c m = if is_some (lookup n m) then m else put n c m

module _ (l : Llvm) (rand : ℕ → ℕ) where
  -- What color_nodes_aux does to its two nodes. A colour is made of two numbers, of which only the
  -- second one matters.
  unfoldable pub color_pair : (n_callee n_caller : ℕ) → Colors → Colors
  unfolding new_color
  color_pair n m s =
      let start = record s { processed = n ∷ s.processed } in
      elim (lookup m s.caller) [
        | some col ↦ record start { callee = insert_new n col s.callee }
        | none ↦
            let col = new_color (rand (suc s.drawn)) in
            record start {
              callee = insert_new n col s.callee;
              caller = put m col s.caller;
              drawn = 2 + s.drawn;
            }
      ]

  module _ (sm : Sim) (g to : Graph) where
    -- The node that simulates the one behind a cell, sm.get(c).getNode(), after that node itself.
    -- `none` is a null pointer, which the source follows, or a dangling one.
    unfoldable pub pair_of : Cell → Option (ℕ × Option ℕ)
    unfolding place get_simulator
    pair_of c = elim (place g c) [
      | none ↦ none
      | some p ↦ elim (place to (get_simulator sm p.address)) [
        | none ↦ some (p.address, none)
        | some q ↦ some (p.address, some q.address)
      ]
    ]

    color_links : (ℕ → ℕ → Colors → Option Colors) → List (Field × Cell) → Colors → Option Colors
    unfolding pair_of
    color_links rec [] s = some s
    color_links rec ((f, c) ∷ ls) s =
        let rest = color_links rec ls in
        elim (pair_of c) [
          | none ↦ none
          | some (n, m) ↦ if member n s.processed then rest s else elim m [
            | none ↦ none
            | some m' ↦ elim (rec n m' s) [ none ↦ none | some s' ↦ rest s' ]
          ]
        ]

    -- color_nodes_aux; `none` is also out of fuel
    unfoldable pub color_nodes_aux : ℕ → (n_callee n_caller : ℕ) → Colors → Option Colors
    unfolding color_pair color_links
    color_nodes_aux zero n m s = none
    color_nodes_aux (suc k) n m s = elim (lookup n g.nodes) [
      | none ↦ none
      | some nd ↦ color_links (color_nodes_aux k) nd.links (color_pair n m s)
    ]

    -- The bodies of the loops of color_nodes_graph, from a cell
    color_from : ℕ → Cell → Colors → Option Colors
    unfolding pair_of color_nodes_aux
    color_from k c s = elim (pair_of c) [
      | none ↦ none
      | some (n, m) ↦ elim m [ none ↦ none | some m' ↦ color_nodes_aux k n m' s ]
    ]

    color_arguments : ℕ → List ℕ → Colors → Option Colors
    unfolding has_cell color_from
    color_arguments k [] s = some s
    color_arguments k (a ∷ as') s =
        let rest = color_arguments k as' in
        if has_cell l g a
        then elim (lookup (l.strip a) g.formals) [
          | none ↦ none
          | some c ↦ elim (color_from k c s) [ none ↦ none | some s' ↦ rest s' ]
        ]
        else rest s

    color_globals : ℕ → List (ℕ × Cell) → Colors → Option Colors
    unfolding color_from
    color_globals k [] s = some s
    color_globals k ((v, c) ∷ vs) s = elim (color_from k c s) [
      | none ↦ none
      | some s' ↦ color_globals k vs s'
    ]

    -- color_nodes_graph
    unfoldable pub color_nodes_graph : ℕ → (function : ℕ) → Colors → Option Colors
    unfolding color_arguments color_globals color_from globals formals_of
    color_nodes_graph k fn s =
        elim (color_arguments k (formals_of l fn) (record s { processed = [] })) [
          | none ↦ none
          | some s1 ↦ elim (color_globals k (globals l g.values) s1) [
            | none ↦ none
            | some s2 ↦ elim (lookup fn g.returns) [ none ↦ some s2 | some c ↦ color_from k c s2 ]
          ]
        ]

  -- Both start from a mapping, which is empty where there is no simulation, and which may make cells
  -- in the second graph.
  color_mapped :
      ℕ → (function : ℕ) → Colors → (from : Graph) → Run (Option Sim) → Option (Colors × Graph)
  unfolding color_nodes_graph
  color_mapped k fn s from fault = none
  color_mapped k fn s from out_of_fuel = none
  color_mapped k fn s from (ok r to) =
      elim (color_nodes_graph (elim r [ none ↦ [] | some sm ↦ sm ]) from to k fn s) [
        | none ↦ none
        | some s' ↦ some (s', to)
      ]

  -- colorGraphsCallSite
  unfoldable pub color_graphs_call_site :
      ℕ
      → CallSite
      → (callee : ℕ) → (callee_graph caller_graph : Graph) → Colors
      → Option (Colors × Graph)
  unfolding compute_callee_caller_mapping color_mapped
  color_graphs_call_site k cs callee callee_graph caller_graph s =
      color_mapped k callee s callee_graph
        (compute_callee_caller_mapping l k cs callee callee_graph caller_graph)

  -- colorGraphsFunction
  unfoldable pub color_graphs_function :
      ℕ → (function : ℕ) → (from to : Graph) → Colors → Option (Colors × Graph)
  unfolding compute_simulation_mapping color_mapped
  color_graphs_function k fn from to s =
      color_mapped k fn s from (compute_simulation_mapping l k from to)
