-- ===== src/TopDown.antt =====
-- lib/seadsa/DsaTopDown.cc: the nodes of a caller are copied into the graph of a callee.
use sea_dsa.Common.{
  ℕ, Bool, false, not, ◌&&◌, ◌||◌, Option, none, some, List, [], ◌∷◌, if◌then◌else◌,
}
use sea_dsa.Llvm.{Llvm, is_global}
use sea_dsa.Graph.{Cell, CallSite, Graph, M, pure, skip, ok, fault, out_of_fuel, ◌>>=◌, ◌>>◌}
use sea_dsa.Graph.Table.{get_cell, has_cell, has_scalar_cell, has_ret_cell, actuals, formals_of}
use sea_dsa.Cloner.{Context, Options, Cloner, no_clones}
use sea_dsa.Transfer.{globals, unify_value, unify_return, clone_cell}

module _ (l : Llvm) (fuel : ℕ) (opts : Options) (ctx : Context) where
  -- clone and unify globals. Without -sea-dsa-no-td-copying-opt, a global that the callee does not
  -- use is left out.
  transfer_down : (copies_all sensitive : Bool) → Graph → Cloner → List (ℕ × Cell) → M Cloner
  unfolding has_scalar_cell clone_cell unify_value
  transfer_down copies_all sensitive from c [] = pure c
  transfer_down copies_all sensitive from c ((v, d) ∷ m) =
      let rest = λ (c' : Cloner). transfer_down copies_all sensitive from c' m in
      λ g.
        if not copies_all && not (has_scalar_cell g v)
        then rest c g
        else (do
          (e, c') ← clone_cell l fuel opts ctx from c d false (if sensitive then some v else none)
          unify_value l fuel opts ctx from v e
          rest c')
            g

  -- clone and unify return
  return_down : Graph → Cloner → (instruction callee : ℕ) → M Cloner
  unfolding has_ret_cell has_cell get_cell clone_cell unify_return
  return_down from c i callee g =
      if not (has_ret_cell g callee && has_cell l from i)
      then ok c g
      else elim (get_cell l i from) [
        | ok d from' ↦
            (do
              (e, c') ← clone_cell l fuel opts ctx from' c d false none
              unify_return l fuel opts ctx from' callee e
              pure c')
              g
        | fault ↦ fault
        | out_of_fuel ↦ out_of_fuel
      ]

  -- The only site to copy for an actual: the global that it is.
  only_down : Bool → ℕ → Option ℕ
  unfolding is_global
  only_down sensitive a = if sensitive && is_global l (l.strip a) then some (l.strip a) else none

  unify_only_down : Graph → Option ℕ → Cell → M (Unit {0})
  unfolding unify_value
  unify_only_down from none e = skip
  unify_only_down from (some v) e = unify_value l fuel opts ctx from v e

  -- clone and unify actuals and formals, with the caller's graph, in which reading an actual that is
  -- a global makes its cell
  arguments_down : (sensitive noescape : Bool) → Graph → Cloner → List ℕ → List ℕ → M Graph
  unfolding has_cell get_cell only_down clone_cell unify_value unify_only_down
  arguments_down sensitive noescape from c [] as' = pure from
  arguments_down sensitive noescape from c (f ∷ fs) [] = pure from
  arguments_down sensitive noescape from c (f ∷ fs) (a ∷ as') =
      let rest =
        λ (from' : Graph) (c' : Cloner). arguments_down sensitive noescape from' c' fs as' in
      λ g.
        if not (has_cell l from a) || not (has_cell l g f)
        then rest from c g
        else elim (get_cell l a from) [
          | ok d from' ↦
              (do
                (e, c') ← clone_cell l fuel opts ctx from' c d noescape (only_down sensitive a)
                unify_value l fuel opts ctx from' f e
                unify_only_down from' (only_down sensitive a) e
                rest from' c')
                g
          | fault ↦ fault
          | out_of_fuel ↦ out_of_fuel
        ]

  -- TopDownAnalysis::cloneAndResolveArguments, on the callee's graph, with the caller's graph before
  -- and after. The two are different graphs: a function that calls itself is left out.
  unfoldable pub top_down_call :
      CallSite → (callee : ℕ) → (copies_all sensitive noescape : Bool) → Graph → M Graph
  unfolding globals transfer_down return_down arguments_down formals_of actuals
  top_down_call cs callee copies_all sensitive noescape from = do
    c ← transfer_down copies_all sensitive from no_clones (globals l from.values)
    c' ← return_down from c cs.instruction callee
    arguments_down sensitive noescape from c' (formals_of l callee) (actuals l cs)
