-- ===== src/Global/Mapping.antt =====
-- Graph::computeCalleeCallerMapping and Graph::computeSimulationMapping of lib/seadsa/Graph.cc, with
-- decidePropagation, propagateTopDown and propagateBottomUp of lib/seadsa/DsaGlobal.cc. The graphs of
-- caller and callee are different ones: a function that calls itself is left out.
use sea_dsa.Common.{
  ℕ, Bool, true, false, not, ◌||◌, Option, none, some, List, [], ◌∷◌, lookup, if◌then◌else◌,
}
use sea_dsa.Llvm.{Llvm}
use sea_dsa.Graph.{
  Cell, null_cell, CallSite, Graph, M, pure, assert, ok, fault, out_of_fuel, ◌>>=◌, ◌>>◌,
}
use sea_dsa.Graph.Table.{mk_cell, get_ret_cell, has_cell, has_ret_cell, actuals, formals_of}
use sea_dsa.Mapper.{Sim, Outcome, insert_cells, is_function}
use sea_dsa.Mapper.Injective.{is_injective}
use sea_dsa.Cloner.{Context, Options}
use sea_dsa.Transfer.{globals, bottom_up_call}
use sea_dsa.TopDown.{top_down_call}
use sea_dsa.Global.Propagation.{PropagationKind, down, up, none_needed}

-- All operations here run on the second graph, the one that simulates; `none` is the result false.
module _ (l : Llvm) (fuel : ℕ) where
  -- simMap.insert(c, nc)
  simulate : Graph → Sim → Cell → Cell → M (Option Sim)
  unfolding insert_cells
  simulate from m c d to = elim (insert_cells l from to fuel m c d) [
    | Outcome.simulated m' ↦ ok (some m') to
    | Outcome.refused ↦ ok none to
    | Outcome.stuck ↦ fault
    | Outcome.out_of_fuel ↦ out_of_fuel
  ]

  -- Goes on with the relation, if there is one.
  if_simulated : Option Sim → (Sim → M (Option Sim)) → M (Option Sim)
  if_simulated none k = pure none
  if_simulated (some m) k = k m

  -- The loop over a map of values, with mkCell in the second graph.
  map_values : Graph → List (ℕ × Cell) → Sim → M (Option Sim)
  unfolding mk_cell simulate if_simulated
  map_values from [] m = pure (some m)
  map_values from ((v, c) ∷ vs) m = do
    d ← mk_cell l v null_cell
    r ← simulate from m c d
    if_simulated r (map_values from vs)

  -- The returned values of callee and call, for onlyModified = false.
  map_return : Graph → (instruction callee : ℕ) → Sim → M (Option Sim)
  unfolding has_ret_cell has_cell mk_cell simulate
  map_return from i callee m to = elim (lookup callee from.returns) [
    | none ↦ ok (some m) to
    | some c ↦
        if has_cell l to i
        then (do d ← mk_cell l i null_cell; simulate from m c d) to
        else ok (some m) to
  ]

  map_arguments : Graph → List ℕ → List ℕ → Sim → M (Option Sim)
  unfolding has_cell mk_cell simulate if_simulated
  map_arguments from [] as' m = pure (some m)
  map_arguments from (f ∷ fs) [] m = pure (some m)
  map_arguments from (f ∷ fs) (a ∷ as') m =
      let rest = map_arguments from fs as' in
      λ to.
        if not (has_cell l from f) || not (has_cell l to a)
        then rest m to
        else elim (lookup (l.strip f) from.formals) [
          | none ↦ fault
          | some c ↦ (do d ← mk_cell l a null_cell; r ← simulate from m c d; if_simulated r rest) to
        ]

  -- computeCalleeCallerMapping, with the callee's graph first
  unfoldable pub compute_callee_caller_mapping : CallSite → (callee : ℕ) → Graph → M (Option Sim)
  unfolding map_values map_return map_arguments globals actuals formals_of if_simulated
  compute_callee_caller_mapping cs callee from = do
    r ← map_values from (globals l from.values) []
    r ← if_simulated r (map_return from cs.instruction callee)
    if_simulated r (map_arguments from (formals_of l callee) (actuals l cs))

  map_returns : Graph → List (ℕ × Cell) → Sim → M (Option Sim)
  unfolding has_ret_cell get_ret_cell simulate if_simulated
  map_returns from [] m = pure (some m)
  map_returns from ((fn, c) ∷ rs) m =
      let rest = map_returns from rs in
      λ to.
        if has_ret_cell to fn
        then (do d ← get_ret_cell fn; r ← simulate from m c d; if_simulated r rest) to
        else rest m to

  -- computeSimulationMapping for onlyModified = false
  unfoldable pub compute_simulation_mapping : Graph → M (Option Sim)
  unfolding map_values map_returns globals if_simulated
  compute_simulation_mapping from = do
    r ← map_values from (globals l from.values) []
    r ← if_simulated r (map_values from from.formals)
    if_simulated r (map_returns from from.returns)

  -- decidePropagation, on the caller's graph
  unfoldable pub decide_propagation : CallSite → (callee : ℕ) → Graph → M PropagationKind
  unfolding compute_callee_caller_mapping is_function is_injective
  decide_propagation cs callee from = do
    r ← compute_callee_caller_mapping cs callee from
    elim r [
      | none ↦ pure up
      | some m ↦ if not (is_function m) then pure up else λ to. elim (is_injective to true m) [
        | none ↦ fault
        | some injective ↦ ok (if injective then none_needed else down) to
      ]
    ]

  is_up : PropagationKind → Bool
  is_up up = true
  is_up down = false
  is_up none_needed = false

  is_down : PropagationKind → Bool
  is_down up = false
  is_down down = true
  is_down none_needed = false

  module _ (opts : Options) (ctx : Context) where
    -- propagateTopDown: the callee's graph changes, with the caller's graph before and after
    unfoldable pub propagate_top_down :
        CallSite → (callee : ℕ) → (copies_all : Bool) → Graph → M Graph
    unfolding top_down_call decide_propagation is_down
    propagate_top_down cs callee copies_all caller_graph = do
      caller_graph ← top_down_call l fuel opts ctx cs callee copies_all false true caller_graph
      λ g. elim (decide_propagation cs callee g caller_graph) [
        | ok kind caller_graph' ↦ if is_down kind then fault else ok caller_graph' g
        | fault ↦ fault
        | out_of_fuel ↦ out_of_fuel
      ]

    -- propagateBottomUp: the caller's graph changes
    unfoldable pub propagate_bottom_up :
        CallSite → (callee : ℕ) → (unique : Option ℕ) → Graph → M (Unit {0})
    unfolding bottom_up_call decide_propagation is_up
    propagate_bottom_up cs callee unique callee_graph = do
      bottom_up_call l fuel opts ctx callee_graph cs callee unique false
      kind ← decide_propagation cs callee callee_graph
      assert (not (is_up kind))
