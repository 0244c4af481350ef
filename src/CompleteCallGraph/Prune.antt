-- ===== src/CompleteCallGraph/Prune.antt =====
-- CompleteCallGraphAnalysis::runOnModule of lib/seadsa/DsaCompleteCallGraph.cc, at the end: an edge to
-- the external node goes if its indirect call is fully resolved.
pub mod Exact
use sea_dsa.Common.{
  ℕ, zero, suc, ◌+◌, Bool, true, false, not, ◌&&◌, Option, none, some, List, [], ◌∷◌, ◌==◌, member,
  is_some, get_elem?, length, if◌then◌else◌,
}
use sea_dsa.CompleteCallGraph.{CallRecord, CallGraphOps, Program}

module _ (p : Program) (Cg : Type 0) (ops : CallGraphOps Cg) (resolved : List ℕ) where
  unfoldable pub is_superfluous : CallRecord → Bool
  is_superfluous r =
      r.has_call && p.is_indirect_call r.site && not (is_some r.callee) && member r.site resolved

  -- The loop over the records of a function: `left` is et - it, and `i` the position of `it`. After a
  -- removal it stays where it is, and stops at what was the last record.
  unfoldable pub prune_loop : (fn left i : ℕ) → Cg → Cg
  unfolding is_superfluous
  prune_loop f zero i g = g
  prune_loop f (suc left) i g = elim (get_elem? (ops.records g f) i) [
    | none ↦ g
    | some r ↦ elim (is_superfluous r) [
      | false ↦ prune_loop f left (suc i) g
      | true ↦ elim left [
        | zero ↦ ops.remove_call_edge g f i
        | suc rest ↦ prune_loop f left i (ops.remove_call_edge g f i)
      ]
    ]
  ]

  unfoldable pub prune_function : ℕ → Cg → Cg
  unfolding prune_loop
  prune_function f g = prune_loop f (length (ops.records g f)) 0 g

  -- for (auto &F : M)
  unfoldable pub prune : List ℕ → Cg → Cg
  unfolding prune_function
  prune [] g = g
  prune (f ∷ fs) g = prune fs (if p.has_body f then prune_function f g else g)
