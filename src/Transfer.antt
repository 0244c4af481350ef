-- ===== src/Transfer.antt =====
-- How a graph takes over nodes of another one: Graph::import of lib/seadsa/Graph.cc, and
-- cloneAndResolveArguments of lib/seadsa/DsaBottomUp.cc.
use sea_dsa.Common.{
  ℕ, Bool, true, false, not, ◌&&◌, Option, none, some, List, [], ◌∷◌, lookup, put, all_of, ◌==◌,
  if◌then◌else◌,
}
use sea_dsa.Llvm.{Llvm, is_global}
use sea_dsa.Graph.{
  Cell, null_cell, cell, deref, CallSite, Graph, M, pure, skip, fail, ok, when, ◌>>=◌, ◌>>◌, modify,
}
use sea_dsa.Graph.Link.{unify}
use sea_dsa.Graph.Unify.{operations}
use sea_dsa.Graph.Table.{
  put_entry, mk_cell, has_cell, has_ret_cell, mk_ret_cell, actuals, formals_of,
}
use sea_dsa.Graph.Compress.{compress}
use sea_dsa.Graph.Query.{place}
use sea_dsa.Cloner.{Context, Options, Cloner, no_clones, clone}

-- The entries of the map of the scalars that are globals.
unfoldable pub globals : Llvm → List (ℕ × Cell) → List (ℕ × Cell)
unfolding is_global
globals l [] = []
globals l ((v, c) ∷ m) = if is_global l v then (v, c) ∷ globals l m else globals l m

-- findUniqueReturnValue, from the stripped operands of the returns
unfoldable pub find_unique_return_value : List ℕ → Option ℕ
find_unique_return_value [] = none
find_unique_return_value (v ∷ vs) = if all_of (λ w. w == v) vs then some v else none

module _ (l : Llvm) (fuel : ℕ) (opts : Options) (ctx : Context) (from : Graph) where
  -- mkCell(v, Cell()).unify(d), with the new value of the cell in the graph
  unfoldable pub unify_value : ℕ → Cell → M (Unit {0})
  unfolding mk_cell unify put_entry
  unify_value v d = do
    c ← mk_cell l v null_cell
    (c', _) ← unify l (operations l fuel) c d
    put_entry l (l.strip v) c'

  unfoldable pub unify_return : ℕ → Cell → M (Unit {0})
  unfolding mk_ret_cell unify
  unify_return fn d = do
    c ← mk_ret_cell fn null_cell
    (c', _) ← unify l (operations l fuel) c d
    λ g. ok tt (record g { returns = put fn c' g.returns })

  -- The copy of the node of a cell, at the offset of the cell.
  unfoldable pub clone_cell : Cloner → Cell → Bool → Option ℕ → M (Cell × Cloner)
  unfolding clone place
  clone_cell c d force only = elim (place from d) [
    | none ↦ fail
    | some p ↦ do
      (n, c') ← clone l fuel ctx opts from fuel c p.address force only
      pure (cell n p.raw, c')
  ]

  unfoldable pub import_values : Cloner → List (ℕ × Cell) → M Cloner
  unfolding clone_cell unify_value
  import_values c [] = pure c
  import_values c ((v, d) ∷ m) = do
    (e, c') ← clone_cell c d false none
    unify_value v e
    import_values c' m

  unfoldable pub import_returns : Cloner → List (ℕ × Cell) → M Cloner
  unfolding clone_cell unify_return
  import_returns c [] = pure c
  import_returns c ((fn, d) ∷ m) = do
    (e, c') ← clone_cell c d false none
    unify_return fn e
    import_returns c' m

  -- Graph::import
  unfoldable pub import : (with_formals : Bool) → M (Unit {0})
  unfolding import_values import_returns compress
  import with_formals = do
    c ← import_values no_clones from.values
    when with_formals (do c' ← import_values c from.formals; import_returns c' from.returns; skip)
    compress

  -- clone and unify globals; `wants` says which ones
  transfer_globals : (ℕ → Graph → Bool) → Bool → Cloner → List (ℕ × Cell) → M Cloner
  unfolding clone_cell unify_value
  transfer_globals wants sensitive c [] = pure c
  transfer_globals wants sensitive c ((v, d) ∷ m) =
      let rest = λ (c' : Cloner). transfer_globals wants sensitive c' m in
      λ g.
        if not (wants v g)
        then rest c g
        else (do
          (e, c') ← clone_cell c d false (if sensitive then some v else none)
          unify_value v e
          rest c')
            g

  -- The formals of the bottom-up pass: the copy of a formal is no longer external.
  bottom_up_arguments : Cloner → List ℕ → List ℕ → M Cloner
  unfolding clone_cell unify_value has_cell deref
  bottom_up_arguments c [] args = pure c
  bottom_up_arguments c (f ∷ fs) [] = pure c
  bottom_up_arguments c (f ∷ fs) (a ∷ as') =
      let rest = λ (c' : Cloner). bottom_up_arguments c' fs as' in
      if not (has_cell l from f) then rest c else elim (lookup (l.strip f) from.formals) [
        | none ↦ fail
        | some d ↦ do
          (e, c') ← clone_cell c d false none
          n ← deref e
          modify n (λ x. record x { flags = record x.flags { external = false } })
          unify_value a e
          rest c'
      ]

  -- onlyAllocSite: the unique value that the returns hand on, if it is a global
  unfoldable pub only_site : Bool → Option ℕ → Option ℕ
  unfolding is_global
  only_site sensitive none = none
  only_site sensitive (some v) = if sensitive && is_global l v then some v else none

  unfoldable pub unify_only : Option ℕ → Cell → M (Unit {0})
  unfolding unify_value
  unify_only none e = skip
  unify_only (some v) e = unify_value v e

  -- BottomUpAnalysis::cloneAndResolveArguments: `callee` with a specification replaced by it,
  -- `only` the value that its returns hand on
  unfoldable pub bottom_up_call : CallSite → (callee : ℕ) → Option ℕ → Bool → M (Unit {0})
  unfolding globals transfer_globals has_ret_cell clone_cell unify_value bottom_up_arguments
      compress only_site unify_only actuals formals_of
  bottom_up_call cs callee unique sensitive =
      let only = only_site sensitive unique in
      do
        c ← transfer_globals (λ v g. true) sensitive no_clones (globals l from.values)
        c' ← elim (lookup callee from.returns) [
          | none ↦ pure c
          | some d ↦ do
            mk_cell l cs.instruction null_cell
            (e, c') ← clone_cell c d false only
            unify_value cs.instruction e
            unify_only only e
            pure c'
        ]
        bottom_up_arguments c' (formals_of l callee) (actuals l cs)
        compress
