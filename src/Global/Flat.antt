-- ===== src/Global/Flat.antt =====
-- ContextInsensitiveGlobalAnalysis of lib/seadsa/DsaGlobal.cc: one graph for the program. The order
-- of functions is that of LLVM's call graph, and the local graphs are those of the local analysis.
use sea_dsa.Common.{ℕ, true, List, [], ◌∷◌}
use sea_dsa.Llvm.{Llvm}
use sea_dsa.Graph.{null_cell, CallSite, Graph, M, skip, when, for_each, empty_graph, ◌>>=◌, ◌>>◌}
use sea_dsa.Graph.Resolve.{resolve_cell}
use sea_dsa.Graph.Link.{unify}
use sea_dsa.Graph.Unify.{operations}
use sea_dsa.Graph.Table.{
  put_entry, mk_cell, get_ret_cell, has_cell, has_ret_cell, actuals, formals_of,
}
use sea_dsa.Graph.Compress.{compress}
use sea_dsa.Graph.Dead.{remove_dead}
use sea_dsa.Cloner.{Context, Options}
use sea_dsa.Transfer.{unify_value, import}

module _ (l : Llvm) (fuel : ℕ) (opts : Options) (ctx : Context) where
  -- The actuals and the formals of a call in the same graph.
  resolve_pairs : List ℕ → List ℕ → M (Unit {0})
  unfolding has_cell mk_cell unify put_entry
  resolve_pairs [] as' = skip
  resolve_pairs (f ∷ fs) [] = skip
  resolve_pairs (f ∷ fs) (a ∷ as') = do
    λ g.
        when (has_cell l g f)
          (do
            c ← mk_cell l a null_cell
            d ← mk_cell l f null_cell
            (c', d') ← unify l (operations l fuel) c d
            put_entry l (l.strip a) c'
            put_entry l (l.strip f) d')
          g
    resolve_pairs fs as'

  -- resolveArguments, for the callee or the specification that stands for it
  unfoldable pub resolve_arguments : CallSite → (callee : ℕ) → M (Unit {0})
  unfolding has_ret_cell get_ret_cell mk_cell resolve_cell unify_value resolve_pairs formals_of
      actuals
  resolve_arguments cs callee g =
      (do
        when (has_ret_cell g callee) (do
          mk_cell l cs.instruction null_cell
          r ← get_ret_cell callee
          c ← resolve_cell r
          unify_value l fuel opts ctx g cs.instruction c)
        resolve_pairs (formals_of l callee) (actuals l cs))
        g

  -- The graphs of the functions of one component are imported, then its calls are resolved.
  resolve_component : List Graph → List (CallSite × ℕ) → M (Unit {0})
  unfolding import resolve_arguments compress
  resolve_component gs calls = do
    for_each (λ h. import l fuel opts ctx h true) gs
    for_each (λ (cs, callee). resolve_arguments cs callee) calls
    compress

  -- ContextInsensitiveGlobalAnalysis::runOnModule
  unfoldable pub run_on_module : List (List Graph × List (CallSite × ℕ)) → M (Unit {0})
  unfolding resolve_component remove_dead
  run_on_module components = do
    for_each (λ (gs, calls). resolve_component gs calls) components
    remove_dead

  -- cloneGraph
  unfoldable pub clone_graph : Graph → M (Unit {0})
  unfolding import
  clone_graph g h = import l fuel opts ctx g true (empty_graph g.is_flat)
