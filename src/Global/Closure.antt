-- ===== src/Global/Closure.antt =====
-- CallGraphClosure, UniqueScalar::runOnCallSite and AllocaSite::runOnCallSite of
-- lib/seadsa/DsaGlobal.cc: facts on nodes go from callers to callees and back until none changes. The
-- graphs of caller and callee are different ones.
pub mod Awake
pub mod Callee
use sea_dsa.Common.{
  ℕ, zero, suc, Bool, true, false, ◌&&◌, Option, none, some, List, [], ◌∷◌, ◌++◌, lookup, put,
  if◌then◌else◌,
}
use sea_dsa.Llvm.{Llvm}
use sea_dsa.Graph.{Cell, null_cell, CallSite, Graph, ok, fault, out_of_fuel}
use sea_dsa.Graph.Query.{place}
use sea_dsa.Graph.Table.{mk_cell, has_cell, actuals, formals_of}
use sea_dsa.Graph.Merge.Walk.{Step, merge_from}
use sea_dsa.Transfer.{globals}
use sea_dsa.Global.Worklist.{WorkList, dequeue, enqueue_all}
use sea_dsa.Global.Propagation.{Calls}

pub record State : Type 0 where
  pub callee_graph : Graph
  pub caller_graph : Graph
  pub work : WorkList

module _ (calls : Calls) where
  -- The call sites that a change of a function's graph puts on the worklist.
  unfoldable pub wake : Bool → (function : ℕ) → WorkList → WorkList
  unfolding enqueue_all
  wake b f w = if b then enqueue_all (calls.uses f ++ calls.defs f) w else w

module _ (l : Llvm) (fuel : ℕ) (step : Step) (calls : Calls) where
  -- runOnCallSite for the nodes behind a cell of the callee and one of the caller, at call site `e`
  unfoldable pub run_on_call_site : (e : ℕ) → Cell → Cell → State → Option State
  unfolding place merge_from wake
  run_on_call_site e c d s = elim (place s.callee_graph c) [
    | none ↦ none
    | some p ↦ elim (place s.caller_graph d) [
      | none ↦ none
      | some q ↦ elim (merge_from l step fuel p.address q.address s.callee_graph s.caller_graph) [
        | none ↦ none
        | some w ↦ some (record {
          callee_graph = w.this;
          caller_graph = w.other;
          work =
              wake calls w.result.other (calls.caller e)
                (wake calls w.result.this (calls.callee e) s.work);
        })
      ]
    ]
  ]

  -- runOnCallSite with the caller's cell of the value `v`, which mkCell gives
  unfoldable pub run_on_value : (e : ℕ) → Cell → (v : ℕ) → State → Option State
  unfolding mk_cell run_on_call_site
  run_on_value e c v s = elim (mk_cell l v null_cell s.caller_graph) [
    | ok d g ↦ run_on_call_site e c d (record s { caller_graph = g })
    | fault ↦ none
    | out_of_fuel ↦ none
  ]

  unfoldable pub exec_globals : (e : ℕ) → List (ℕ × Cell) → State → Option State
  unfolding run_on_value
  exec_globals e [] s = some s
  exec_globals e ((v, c) ∷ vs) s = elim (run_on_value e c v s) [
    | none ↦ none
    | some s' ↦ exec_globals e vs s'
  ]

  unfoldable pub exec_return : (e : ℕ) → CallSite → (callee : ℕ) → State → Option State
  unfolding has_cell run_on_value
  exec_return e cs callee s = elim (lookup callee s.callee_graph.returns) [
    | none ↦ some s
    | some c ↦
        if has_cell l s.caller_graph cs.instruction
        then run_on_value e c cs.instruction s
        else some s
  ]

  unfoldable pub exec_arguments : (e : ℕ) → List ℕ → List ℕ → State → Option State
  unfolding has_cell run_on_value
  exec_arguments e [] as' s = some s
  exec_arguments e (f ∷ fs) [] s = some s
  exec_arguments e (f ∷ fs) (a ∷ as') s =
      elim (has_cell l s.caller_graph a && has_cell l s.callee_graph f) [
        | false ↦ exec_arguments e fs as' s
        | true ↦ elim (lookup (l.strip f) s.callee_graph.formals) [
          | none ↦ none
          | some c ↦ elim (run_on_value e c a s) [
            | none ↦ none
            | some s' ↦ exec_arguments e fs as' s'
          ]
        ]
      ]

  -- exec_callsite
  unfoldable pub exec_callsite : (e : ℕ) → CallSite → (callee : ℕ) → State → Option State
  unfolding exec_globals exec_return exec_arguments globals formals_of actuals
  exec_callsite e cs callee s = elim (exec_globals e (globals l s.callee_graph.values) s) [
    | none ↦ none
    | some s1 ↦ elim (exec_return e cs callee s1) [
      | none ↦ none
      | some s2 ↦ exec_arguments e (formals_of l callee) (actuals l cs) s2
    ]
  ]

  module _ (site : ℕ → CallSite) where
    -- One call site, on the graphs of all functions: one without a graph is passed over.
    unfoldable pub exec_on_graphs :
        (e : ℕ) → List (ℕ × Graph) × WorkList → Option (List (ℕ × Graph) × WorkList)
    unfolding exec_callsite
    exec_on_graphs e (graphs, w) = elim (lookup (calls.callee e) graphs) [
      | none ↦ some (graphs, w)
      | some callee_graph ↦ elim (lookup (calls.caller e) graphs) [
        | none ↦ some (graphs, w)
        | some caller_graph ↦
            let s : State = record {
              callee_graph = callee_graph;
              caller_graph = caller_graph;
              work = w;
            } in
            elim (exec_callsite e (site e) (calls.callee e) s) [
              | none ↦ none
              | some s' ↦ some (
                put (calls.caller e) s'.caller_graph (put (calls.callee e) s'.callee_graph graphs),
                s'.work,
              )
            ]
      ]
    ]

    exec_all : List ℕ → List (ℕ × Graph) × WorkList → Option (List (ℕ × Graph) × WorkList)
    unfolding exec_on_graphs
    exec_all [] s = some s
    exec_all (e ∷ es) s = elim (exec_on_graphs e s) [ none ↦ none | some s' ↦ exec_all es s' ]

    -- The loop of runOnModule over the worklist, on fuel for its rounds.
    closure_loop : ℕ → List (ℕ × Graph) × WorkList → Option (List (ℕ × Graph))
    unfolding dequeue exec_on_graphs
    closure_loop zero s = none
    closure_loop (suc k) (graphs, w) = elim (dequeue w) [
      | none ↦ some graphs
      | some (e, w') ↦ elim (exec_on_graphs e (graphs, w')) [
        | none ↦ none
        | some s ↦ closure_loop k s
      ]
    ]

    -- CallGraphClosure::runOnModule, from the call sites of all functions
    unfoldable pub run_closure :
        ℕ → List ℕ → List (ℕ × Graph) × WorkList → Option (List (ℕ × Graph))
    unfolding exec_all closure_loop
    run_closure k es s = elim (exec_all es s) [ none ↦ none | some s' ↦ closure_loop k s' ]
