-- ===== src/CompleteCallGraph/Loop/Fixpoint.antt =====
-- The bottom-up passes of lib/seadsa/DsaCompleteCallGraph.cc: what holds when they end.
use sea_dsa.Common.{
  ℕ, zero, suc, ◌≡◌, refl, sym, Bool, false, ◌||◌, some, List, arith, inl, inr, Bool-cases,
  Option-cases,
}
use sea_dsa.Llvm.{Llvm}
use sea_dsa.Graph.{M}
use sea_dsa.Cloner.{Options}
use sea_dsa.CompleteCallGraph.{CallGraphOps, HasLaws, Program, Graphs}
use sea_dsa.CompleteCallGraph.Edges.{State, has_edge, add_edges, reset_marks}
use sea_dsa.CompleteCallGraph.Edges.Exact.{asks, in_graphs}
use sea_dsa.CompleteCallGraph.Edges.Whole.{add_edges-Adds}
use sea_dsa.CompleteCallGraph.Loop.{bottom_up, change_loop}

module _ (l : Llvm) (p : Program) (fuel : ℕ) (opts : Options) (sensitive : Bool)
    (local : ℕ → M (Unit {0})) (Cg : Type 0) (ops : CallGraphOps Cg) (laws : HasLaws Cg ops)
    (components : Cg → List (List ℕ)) where
  -- The graphs come from a bottom-up pass over the components of this very call graph, which has
  -- every edge that the open call sites of these graphs ask for, and every edge that the call graph
  -- at the beginning had.
  pub record IsClosed (start : Cg) (gs : Graphs) (st : State Cg) : Type 0 where
    pub first : Bool
    pub before : Graphs
    pub passed : Graphs
    pub pass :
        bottom_up l p fuel opts sensitive local Cg ops first st.cg (components st.cg) before
        ≡ some passed
    pub unmarked : gs ≡ record passed { store = reset_marks passed.store }
    pub asked :
        (h d t : ℕ)
        → (has_edge ops st.cg h d t
            || in_graphs passed (λ fn g cs. asks l p fn g h d t cs) passed.owner)
          ≡ has_edge ops st.cg h d t
    pub kept :
        (h d t : ℕ)
        → (has_edge ops st.cg h d t || has_edge ops start h d t) ≡ has_edge ops st.cg h d t

  -- For a call graph with the laws of LLVM's: where the loop over bottom-up passes ends, the call graph
  -- is closed under what the last pass asks for, and has every edge that it had at the start.
  pub change_loop-IsClosed :
      (k : ℕ) (first : Bool) (gs gs' : Graphs) (st st' : State Cg)
      → change_loop l p fuel opts sensitive local Cg ops components k first (gs, st)
        ≡ some (gs', st')
      → IsClosed st.cg gs' st'
  unfolding change_loop
  change_loop-IsClosed zero first gs gs' st st' ran = absurd (ground arith)
  change_loop-IsClosed (suc k) first gs gs' st st' ran =
      elim (Option-cases
        (bottom_up l p fuel opts sensitive local Cg ops first st.cg (components st.cg) gs)) [
          | inl e ↦ absurd (ground arith)
          | inr (gs1, e) ↦ elim (Option-cases (add_edges l p Cg ops gs1 st)) [
            | inl e' ↦ absurd (ground arith)
            | inr (st1, e') ↦
                let (edges, settled, reported) = add_edges-Adds l p Cg ops laws gs1 st st1 e' in
                elim (Bool-cases st1.change) [
                  | inl more ↦
                      let c =
                        change_loop-IsClosed k false (record gs1 { store = reset_marks gs1.store })
                          gs' st1 st' (ground arith) in
                      record {
                        first = c.first;
                        before = c.before;
                        passed = c.passed;
                        pass = c.pass;
                        unmarked = c.unmarked;
                        asked = c.asked;
                        kept = λ h d t. ground (arith, c.kept h d t, edges h d t);
                      }
                  | inr done ↦ elim reported [
                    | inl more ↦ absurd (ground arith)
                    | inr same ↦
                        let is : st1 ≡ st' = ground arith in
                        let is' : record gs1 { store = reset_marks gs1.store } ≡ gs' =
                          ground arith in
                        rw (sym is, sym is')
                          (record {
                            first = first;
                            before = gs;
                            passed = gs1;
                            pass = rw same e;
                            unmarked = refl;
                            asked = λ h d t. ground (arith, edges h d t);
                            kept = λ h d t. ground (arith, edges h d t);
                          })
                  ]
                ]
          ]
        ]
