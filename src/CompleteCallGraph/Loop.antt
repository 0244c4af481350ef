-- ===== src/CompleteCallGraph/Loop.antt =====
-- CompleteCallGraphAnalysis::runOnModule of lib/seadsa/DsaCompleteCallGraph.cc: bottom-up passes until
-- the call graph does not change. The components of the current call graph, and the functions of
-- each, come in the order in which LLVM gives them. Indirect calls are inlined with no tracking of
-- allocation sites.
pub mod Fixpoint
use sea_dsa.Common.{
  ℕ, zero, suc, Bool, true, false, not, Option, none, some, List, [], ◌∷◌, ◌++◌, ◌==◌, lookup, put,
  is_some, if◌then◌else◌,
}
use sea_dsa.Llvm.{Llvm}
use sea_dsa.Graph.{CallSite, Graph, M, Run, ok, fault, out_of_fuel, empty_graph}
use sea_dsa.Graph.Table.{called_function, clear_call_sites}
use sea_dsa.Graph.Compress.{compress}
use sea_dsa.Cloner.{Context, Options}
use sea_dsa.CompleteCallGraph.{CallRecord, CallGraphOps, Program, Graphs, graph_of}
use sea_dsa.CompleteCallGraph.Edges.{State, add_edges, reset_marks}
use sea_dsa.CompleteCallGraph.Inline.{mark_cloned, merge_graphs, clone_and_resolve}
use sea_dsa.CompleteCallGraph.Prune.{prune}

-- std::stable_sort
insert_sorted : (ℕ → ℕ → Bool) → ℕ → List ℕ → List ℕ
insert_sorted lt x [] = x ∷ []
insert_sorted lt x (y ∷ ys) =
    let rest = insert_sorted lt x ys in if lt y x then y ∷ rest else x ∷ y ∷ ys

unfoldable pub stable_sort : (ℕ → ℕ → Bool) → List ℕ → List ℕ
unfolding insert_sorted
stable_sort lt [] = []
stable_sort lt (x ∷ xs) = insert_sorted lt x (stable_sort lt xs)

-- The functions of a component that have a body.
unfoldable pub with_body : Program → List ℕ → List ℕ
with_body p [] = []
with_body p (f ∷ fs) = if p.has_body f then f ∷ with_body p fs else with_body p fs

-- The graph that a run leaves, in the place of `i`.
stored : {A : Type 0} → ℕ → Graphs → Run A → Option (A × Graphs)
stored i gs (ok a g) = some (a, record gs { store = put i g gs.store })
stored i gs fault = none
stored i gs out_of_fuel = none

module _ (l : Llvm) (p : Program) (fuel : ℕ) (opts : Options) (sensitive : Bool)
    (local : ℕ → M (Unit {0})) where
  -- resolveIndirectCallsThroughBitCast, for the calls of a function: `strip_cast` strips the operand
  -- of a call, and gives the function it is
  module _ (Cg : Type 0) (ops : CallGraphOps Cg) where
    unfoldable pub resolve_bit_casts : (strip_cast : ℕ → Option ℕ) → (fn : ℕ) → List ℕ → Cg → Cg
    resolve_bit_casts strip_cast f [] g = g
    resolve_bit_casts strip_cast f (i ∷ is) g =
        resolve_bit_casts strip_cast f is (elim (strip_cast i) [
          | none ↦ g
          | some c ↦ ops.add_called_function (ops.remove_call_edge_for g f i) f i c
        ])

  -- inlineCallee
  unfoldable pub inline_callee : (site callee : ℕ) → Graphs → Option Graphs
  unfolding graph_of clone_and_resolve mark_cloned stored
  inline_callee i callee gs =
      let caller = l.parent_function i in
      let cs : CallSite = record {
        instruction = i;
        cell = none;
        cloned = false;
        callee = some callee;
      } in
      elim (graph_of gs caller) [
        | none ↦ none
        | some (m, g) ↦ elim (graph_of gs callee) [
          | none ↦ none
          | some (n, h) ↦
              let from : Option Graph = if m == n then none else some h in
              elim (stored m gs (
                clone_and_resolve l fuel (record opts { strip_allocas = true })
                  (Context.bottom_up caller callee) from cs callee (p.unique_return callee)
                  sensitive g)) [
                    | none ↦ none
                    | some (marks, gs') ↦ some (
                        if m == n then gs' else record gs' {
                          store =
                              put n (record h { call_sites = mark_cloned marks h.call_sites })
                                gs'.store;
                        })
                  ]
        ]
      ]

  -- The calls of one function, direct and indirect.
  inline_records : List CallRecord → Graphs → Option Graphs
  unfolding inline_callee called_function
  inline_records [] gs = some gs
  inline_records (r ∷ rs) gs =
      let rest = inline_records rs in
      elim (if p.is_indirect_call r.site then r.callee else called_function l r.site) [
        | none ↦ rest gs
        | some c ↦
            if not (p.has_body c)
            then rest gs
            else elim (inline_callee r.site c gs) [ none ↦ none | some gs' ↦ rest gs' ]
      ]

  -- The graphs of a component become one: in the first pass by analysing its functions into the
  -- graph of the first one, later by merging. `i` is this graph.
  first_pass : (i : ℕ) → List ℕ → Graphs → Option Graphs
  unfolding stored
  first_pass i [] gs = some gs
  first_pass i (f ∷ fs) gs = elim (lookup i gs.store) [
    | none ↦ none
    | some g ↦ elim (stored i gs (local f g)) [
      | none ↦ none
      | some (_, gs') ↦ first_pass i fs (record gs' { owner = put f i gs'.owner })
    ]
  ]

  later_pass : (i : ℕ) → List ℕ → Graphs → Option Graphs
  unfolding graph_of merge_graphs mark_cloned stored
  later_pass i [] gs = some gs
  later_pass i (f ∷ fs) gs = elim (graph_of gs f) [
    | none ↦ none
    | some (j, from) ↦ elim (j == i) [
      | true ↦ later_pass i fs gs
      | false ↦ elim (lookup i gs.store) [
        | none ↦ none
        | some g ↦
            elim (stored i gs (
              merge_graphs l fuel (record opts { strip_allocas = false; same_graph = false })
                Context.unset from g)) [
                  | none ↦ none
                  | some (marks, gs') ↦ later_pass i fs (record {
                    owner = put f i gs'.owner;
                    store =
                        put j (record from { call_sites = mark_cloned marks from.call_sites })
                          gs'.store;
                  })
                ]
      ]
    ]
  ]

  module _ (Cg : Type 0) (ops : CallGraphOps Cg) where
    inline_functions : Cg → List ℕ → Graphs → Option Graphs
    unfolding inline_records
    inline_functions cg [] gs = some gs
    inline_functions cg (f ∷ fs) gs = elim (inline_records (ops.records cg f) gs) [
      | none ↦ none
      | some gs' ↦ inline_functions cg fs gs'
    ]

    -- One component in a bottom-up pass.
    unfoldable pub run_component : (first : Bool) → Cg → List ℕ → Graphs → Option Graphs
    unfolding graph_of first_pass later_pass inline_functions stable_sort with_body compress stored
    run_component first cg scc gs =
        let fs = with_body p scc in
        elim fs [
          | [] ↦ some gs
          | f ∷ rest ↦ elim (graph_of gs f) [
            | none ↦ none
            | some (i, _) ↦
                elim (if first then first_pass i (f ∷ rest) gs else later_pass i (f ∷ rest) gs) [
                  | none ↦ none
                  | some gs1 ↦ elim (inline_functions cg (stable_sort p.name_lt (f ∷ rest)) gs1) [
                    | none ↦ none
                    | some gs2 ↦ elim (lookup i gs2.store) [
                      | none ↦ none
                      | some g ↦ elim (stored i gs2 (compress g)) [
                        | none ↦ none
                        | some (_, gs3) ↦ some gs3
                      ]
                    ]
                  ]
                ]
          ]
        ]

    unfoldable pub bottom_up : (first : Bool) → Cg → List (List ℕ) → Graphs → Option Graphs
    unfolding run_component
    bottom_up first cg [] gs = some gs
    bottom_up first cg (scc ∷ sccs) gs = elim (run_component first cg scc gs) [
      | none ↦ none
      | some gs' ↦ bottom_up first cg sccs gs'
    ]

    module _ (components : Cg → List (List ℕ)) where
      -- while (change), on fuel for its rounds
      unfoldable pub change_loop :
          ℕ → (first : Bool) → Graphs × State Cg → Option (Graphs × State Cg)
      unfolding bottom_up add_edges reset_marks
      change_loop zero first (gs, st) = none
      change_loop (suc k) first (gs, st) = elim (bottom_up first st.cg (components st.cg) gs) [
        | none ↦ none
        | some gs1 ↦ elim (add_edges l p Cg ops gs1 st) [
          | none ↦ none
          | some st1 ↦
              let gs2 = record gs1 { store = reset_marks gs1.store } in
              elim st1.change [ true ↦ change_loop k false (gs2, st1) | false ↦ some (gs2, st1) ]
        ]
      ]

      clear_all : List (ℕ × Graph) → List (ℕ × Graph)
      unfolding clear_call_sites
      clear_all [] = []
      clear_all ((i, g) ∷ gs) = (i, clear_call_sites g) ∷ clear_all gs

      -- The empty graphs of the functions with a body, numbered by their functions.
      abbrev empty_graphs : List ℕ → Graphs
      empty_graphs [] = record { owner = []; store = [] }
      empty_graphs (f ∷ fs) =
          let gs = empty_graphs fs in
          record { owner = (f, f) ∷ gs.owner; store = (f, empty_graph false) ∷ gs.store }

      -- resolveIndirectCallsThroughBitCast for all functions with a body
      resolve_all : (ℕ → Option ℕ) → (ℕ → List ℕ) → List ℕ → Cg → Cg
      unfolding resolve_bit_casts
      resolve_all strip_cast calls [] g = g
      resolve_all strip_cast calls (f ∷ fs) g =
          resolve_all strip_cast calls fs (resolve_bit_casts Cg ops strip_cast f (calls f) g)

      -- runOnModule for the functions of a module, where `cg` is LLVM's call graph and `calls` has the
      -- calls and invokes in a function
      unfoldable pub run_on_module :
          ℕ → (ℕ → Option ℕ) → (ℕ → List ℕ) → List ℕ → Cg → Option (Graphs × State Cg)
      unfolding change_loop resolve_all with_body prune clear_all
      run_on_module k strip_cast calls fns cg =
          let fs = with_body p fns in
          let st : State Cg = record {
            cg = resolve_all strip_cast calls fs cg;
            callees = [];
            resolved = [];
            change = true;
          } in
          elim (change_loop k true (empty_graphs fs, st)) [
            | none ↦ none
            | some (gs, st') ↦ some (
              record gs { store = clear_all gs.store },
              record st' { cg = prune p Cg ops st'.resolved fns st'.cg },
            )
          ]
