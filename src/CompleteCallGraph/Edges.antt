-- ===== src/CompleteCallGraph/Edges.antt =====
-- CompleteCallGraphAnalysis::runOnModule of lib/seadsa/DsaCompleteCallGraph.cc, after the bottom-up
-- phase: edges to the functions that an indirect call may call.
pub mod Exact
pub mod Whole
use sea_dsa.Common.{
  ℕ, Bool, true, false, not, ◌&&◌, ◌||◌, Option, none, some, List, [], ◌∷◌, ◌++◌, ◌==◌, lookup, put,
  any_of, set_insert, is_empty, if◌then◌else◌,
}
use sea_dsa.Llvm.{Llvm, is_function}
use sea_dsa.Graph.{Cell, CallSite, Graph}
use sea_dsa.Graph.Query.{place}
use sea_dsa.CompleteCallGraph.{CallRecord, CallGraphOps, Program, Graphs, graph_of}

-- record.second == dst && *record.first == &CB
abbrev pub is_edge : (callee site : ℕ) → CallRecord → Bool
is_edge c s r = elim r.callee [ none ↦ false | some d ↦ (d == c) && (r.site == s) ]

-- m_complete_cg, m_callees, m_resolved and `change`
pub record State (Cg : Type 0) : Type 0 where
  pub cg : Cg
  pub callees : List (ℕ × List ℕ)
  pub resolved : List ℕ
  pub change : Bool

-- m_callees[i], empty for an instruction that is no key
abbrev pub callees_at : ℕ → List (ℕ × List ℕ) → List ℕ
callees_at i m = elim (lookup i m) [ none ↦ [] | some fs ↦ fs ]

unfoldable pub has_edge : {Cg : Type 0} → CallGraphOps Cg → Cg → (caller callee site : ℕ) → Bool
has_edge ops g f c s = any_of (is_edge c s) (ops.records g f)

-- The function that an allocation site is, if the call may call it.
unfoldable pub callee_of : Llvm → Program → (site v : ℕ) → Option ℕ
unfolding is_function
callee_of l p s v =
    let fn = p.strip_aliases v in
    if is_function l fn && p.is_legal_to_promote s fn then some fn else none

unfoldable pub add_edge :
    {Cg : Type 0} → CallGraphOps Cg → (caller site callee : ℕ) → State Cg → State Cg
unfolding has_edge
add_edge ops f s c st = if has_edge ops st.cg f c s then st else record st {
  cg = ops.add_called_function st.cg f s c;
  callees = put s (callees_at s st.callees ++ c ∷ []) st.callees;
  change = true;
}

module _ (l : Llvm) (p : Program) (Cg : Type 0) (ops : CallGraphOps Cg) where
  -- for (const Value *v : alloc_sites), with foundAtLeastOneCallee
  unfoldable pub add_callees : (caller site : ℕ) → List ℕ → State Cg × Bool → State Cg × Bool
  unfolding callee_of add_edge
  add_callees f s [] st = st
  add_callees f s (v ∷ vs) (st, found) =
      add_callees f s vs
        (elim (callee_of l p s v) [ none ↦ (st, found) | some c ↦ (add_edge ops f s c st, true) ])

  -- The body of the loop over the call sites of a graph; `none` is a null or dangling pointer.
  unfoldable pub resolve_site : (fn : ℕ) → Graph → CallSite → State Cg → Option (State Cg)
  unfolding place add_callees
  resolve_site fn g cs st = if not (p.is_main fn) && cs.cloned then some st else elim cs.cell [
    | none ↦ none
    | some c ↦ elim (place g c) [
      | none ↦ none
      | some q ↦
          if is_empty q.node.alloca_sites
          then some st
          else (let (st', found) =
                add_callees (l.parent_function cs.instruction) cs.instruction q.node.alloca_sites
                  (st, false) in
              some (
                if found && not q.node.flags.external
                then record st' { resolved = set_insert cs.instruction st'.resolved }
                else st'))
    ]
  ]

  unfoldable pub resolve_sites :
      (fn : ℕ) → Graph → List (ℕ × CallSite) → State Cg → Option (State Cg)
  unfolding resolve_site
  resolve_sites fn g [] st = some st
  resolve_sites fn g ((i, cs) ∷ ss) st = elim (resolve_site fn g cs st) [
    | none ↦ none
    | some st' ↦ resolve_sites fn g ss st'
  ]

  -- for (auto &kv : graphs)
  unfoldable pub resolve_graphs : Graphs → List (ℕ × ℕ) → State Cg → Option (State Cg)
  unfolding resolve_sites graph_of
  resolve_graphs gs [] st = some st
  resolve_graphs gs ((f, i) ∷ fs) st = elim (graph_of gs f) [
    | none ↦ none
    | some (i', g) ↦ elim (resolve_sites f g g.call_sites st) [
      | none ↦ none
      | some st' ↦ resolve_graphs gs fs st'
    ]
  ]

  -- The whole phase.
  unfoldable pub add_edges : Graphs → State Cg → Option (State Cg)
  unfolding resolve_graphs
  add_edges gs st = resolve_graphs gs gs.owner (record st { change = false })

-- The loop that resets the marks of all call sites.
unmark : List (ℕ × CallSite) → List (ℕ × CallSite)
unmark [] = []
unmark ((i, cs) ∷ ss) = (i, record cs { cloned = false }) ∷ unmark ss

unfoldable pub reset_marks : List (ℕ × Graph) → List (ℕ × Graph)
unfolding unmark
reset_marks [] = []
reset_marks ((i, g) ∷ gs) = (i, record g { call_sites = unmark g.call_sites }) ∷ reset_marks gs
