-- ===== src/CompleteCallGraph/Inline.antt =====
-- mergeGraphs, cloneCallSites and cloneAndResolveArgumentsAndCallSites of
-- lib/seadsa/DsaCompleteCallGraph.cc: the graph of a callee goes into that of its caller, with its
-- call sites.
use sea_dsa.Common.{
  ℕ, Bool, true, false, not, Option, none, some, List, [], ◌∷◌, lookup, put, if◌then◌else◌, member,
  is_some,
}
use sea_dsa.Llvm.{Llvm}
use sea_dsa.Graph.{Cell, null_cell, cell, CallSite, Graph, M, pure, skip, fail, ok, ◌>>=◌, ◌>>◌}
use sea_dsa.Graph.Link.{unify}
use sea_dsa.Graph.Unify.{operations}
use sea_dsa.Graph.Table.{mk_cell, has_cell, actuals, formals_of, mk_call_site}
use sea_dsa.Graph.Compress.{compress}
use sea_dsa.Graph.Query.{place}
use sea_dsa.Cloner.{Context, Options, Cloner, no_clones}
use sea_dsa.Transfer.{
  globals, unify_value, unify_only, only_site, clone_cell, import_values, import_returns,
}

-- DsaCallSite::markCloned for the call sites of these instructions
unfoldable pub mark_cloned : List ℕ → List (ℕ × CallSite) → List (ℕ × CallSite)
mark_cloned marks [] = []
mark_cloned marks ((i, cs) ∷ ss) =
    (i, if member i marks then record cs { cloned = true } else cs) ∷ mark_cloned marks ss

-- The instructions of call sites with a cell.
with_cell : List (ℕ × CallSite) → List ℕ
with_cell [] = []
with_cell ((i, cs) ∷ ss) = elim cs.cell [ none ↦ with_cell ss | some c ↦ i ∷ with_cell ss ]

module _ (l : Llvm) (fuel : ℕ) (opts : Options) (ctx : Context) where
  -- The call site `i` in the caller's graph: its cell is unified with this one, or it is made.
  put_call_site : (i : ℕ) → Cell → M (Unit {0})
  unfolding unify mk_call_site
  put_call_site i nc g = elim (lookup i g.call_sites) [
    | none ↦ (do mk_call_site l i nc; skip) g
    | some cs ↦ elim cs.cell [
      | none ↦ fail g
      | some c ↦
          (do
            (c', _) ← unify l (operations l fuel) c nc
            λ h.
                ok tt (record h { call_sites = put i (record cs { cell = some c' }) h.call_sites }))
            g
    ]
  ]

  -- cloneCallSites from a graph that is not the caller's, with the instructions whose call sites it
  -- marks
  unfoldable pub clone_call_sites : Graph → Cloner → List (ℕ × CallSite) → M (List ℕ)
  unfolding place put_call_site
  clone_call_sites from c [] = pure []
  clone_call_sites from c ((i, cs) ∷ ss) =
      let rest = clone_call_sites from c ss in
      elim cs.cell [
        | none ↦ rest
        | some d ↦ elim (place from d) [
          | none ↦ fail
          | some p ↦ elim (lookup p.address c.map) [
            | none ↦ rest
            | some (m, level) ↦ do
              put_call_site cs.instruction (cell m p.raw)
              marks ← rest
              pure (i ∷ marks)
          ]
        ]
      ]

  -- mergeGraphs, with the instructions whose call sites are marked in the graph that is merged
  unfoldable pub merge_graphs : (from : Graph) → M (List ℕ)
  unfolding import_values import_returns clone_call_sites globals compress
  merge_graphs from = do
    c ← import_values l fuel opts ctx from no_clones (globals l from.values)
    c' ← import_values l fuel opts ctx from c from.formals
    c'' ← import_returns l fuel opts ctx from c' from.returns
    marks ← clone_call_sites from c'' from.call_sites
    compress
    pure marks

  -- `callee_graph` is `none` where the callee's graph is the caller's.
  module _ (callee_graph : Option Graph) where
    now : Graph → Graph
    now g = elim callee_graph [ none ↦ g | some from ↦ from ]

    -- C.clone of the node of a cell of the callee's graph, as a cell
    copy : Cloner → Cell → Option ℕ → M (Cell × Cloner)
    unfolding now clone_cell
    copy c d only g =
        clone_cell l fuel (record opts { same_graph = not (is_some callee_graph) }) ctx (now g) c d
          false only g

    copy_globals : Cloner → List (ℕ × Cell) → M Cloner
    unfolding copy now unify_value
    copy_globals c [] = pure c
    copy_globals c ((v, _) ∷ vs) = λ g. elim (lookup v (now g).values) [
      | none ↦ fail g
      | some d ↦
          (do
            (e, c') ← copy c d (some v)
            unify_value l fuel opts ctx (now g) v e
            copy_globals c' vs)
            g
    ]

    -- `unique` is the value that the returns of the callee hand on
    copy_return : CallSite → (callee : ℕ) → Option ℕ → Bool → Cloner → M Cloner
    unfolding copy now unify_value unify_only only_site mk_cell
    copy_return cs callee unique sensitive c = λ g. elim (lookup callee (now g).returns) [
      | none ↦ ok c g
      | some _ ↦
          (do
            mk_cell l cs.instruction null_cell
            λ h. elim (lookup callee (now h).returns) [
              | none ↦ fail h
              | some d ↦
                  let only = only_site l fuel opts ctx (now h) sensitive unique in
                  (do
                    (e, c') ← copy c d only
                    unify_value l fuel opts ctx (now h) cs.instruction e
                    unify_only l fuel opts ctx (now h) only e
                    pure c')
                    h
            ])
            g
    ]

    copy_arguments : Cloner → List ℕ → List ℕ → M Cloner
    unfolding copy now unify_value has_cell
    copy_arguments c [] args = pure c
    copy_arguments c (f ∷ fs) [] = pure c
    copy_arguments c (f ∷ fs) (a ∷ as') =
        let rest = λ (c' : Cloner). copy_arguments c' fs as' in
        λ g.
          if not (has_cell l (now g) f)
          then rest c g
          else elim (lookup (l.strip f) (now g).formals) [
            | none ↦ fail g
            | some d ↦
                (do (e, c') ← copy c d none; unify_value l fuel opts ctx (now g) a e; rest c') g
          ]

    -- cloneCallSites, where within one graph every call site with a cell is marked
    copy_call_sites : Cloner → M (List ℕ)
    unfolding clone_call_sites mark_cloned with_cell
    copy_call_sites c = elim callee_graph [
      | some from ↦ clone_call_sites from c from.call_sites
      | none ↦
          λ g. ok [] (record g { call_sites = mark_cloned (with_cell g.call_sites) g.call_sites })
    ]

    -- cloneAndResolveArgumentsAndCallSites, on the caller's graph, with the instructions whose call
    -- sites are marked in a callee's graph that is another one
    unfoldable pub clone_and_resolve : CallSite → (callee : ℕ) → Option ℕ → Bool → M (List ℕ)
    unfolding now copy_globals copy_return copy_arguments copy_call_sites globals actuals formals_of
    clone_and_resolve cs callee unique sensitive = do
      c ← (λ g. copy_globals no_clones (globals l (now g).values) g)
      c' ← copy_return cs callee unique sensitive c
      c'' ← copy_arguments c' (formals_of l callee) (actuals l cs)
      copy_call_sites c''
