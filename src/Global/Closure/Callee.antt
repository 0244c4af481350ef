-- ===== src/Global/Closure/Callee.antt =====
-- CallGraphClosure::exec_callsite of lib/seadsa/DsaGlobal.cc: what one call site does to the graph of
-- the callee and to the worklist.
use sea_dsa.Common.{
  ℕ, ◌≡◌, refl, ◌∙◌, Bool, ◌&&◌, some, List, [], ◌∷◌, arith, inl, inr, Bool-cases, Option-cases,
  lookup,
}
use sea_dsa.Llvm.{Llvm}
use sea_dsa.Graph.{Cell, null_cell, CallSite, Run, ok, fault, out_of_fuel}
use sea_dsa.Graph.Table.{mk_cell, has_cell, actuals, formals_of}
use sea_dsa.Graph.Merge.Walk.Report.{step_of}
use sea_dsa.Transfer.{globals}
use sea_dsa.Global.Worklist.Laws.{IsValid}
use sea_dsa.Global.Propagation.{Calls}
use sea_dsa.Global.Closure.{
  State, run_on_value, exec_globals, exec_return, exec_arguments, exec_callsite,
}
use sea_dsa.Global.Closure.Awake.{IsIn, IsIn-trans, sites_of, IsAwake, run_on_call_site-Wakes}

module _ (calls : Calls) where
  -- What a call site does to the graph of its callee and to the worklist.
  pub record WakesCallee (e : ℕ) (s s' : State) : Type 0 where
    pub valid : IsValid s'.work
    pub kept : IsIn s.work.queue s'.work.queue
    pub awake : IsAwake calls (calls.callee e) s.callee_graph s'.callee_graph s'.work

  WakesCallee-refl : (e : ℕ) (s s' : State) → IsValid s.work → s' ≡ s → WakesCallee e s s'
  WakesCallee-refl e s s' valid same =
      rw same (record { valid = valid; kept = λ x m. m; awake = inl refl })

  WakesCallee-trans :
      (e : ℕ) (r s t : State) → WakesCallee e r s → WakesCallee e s t → WakesCallee e r t
  WakesCallee-trans e r s t p q = record {
    valid = q.valid;
    kept = IsIn-trans r.work.queue s.work.queue t.work.queue p.kept q.kept;
    awake = elim q.awake [
      | inr all ↦ inr all
      | inl same ↦ elim p.awake [
        | inl same' ↦ inl (same ∙ same')
        | inr all ↦
            inr (IsIn-trans (sites_of calls (calls.callee e)) s.work.queue t.work.queue all q.kept)
      ]
    ];
  }

module _ (calls : Calls) (l : Llvm) (fuel : ℕ) (scalars : Bool) where
  run_on_value-WakesCallee :
      (e : ℕ) (c : Cell) (v : ℕ) (s s' : State)
      → IsValid s.work
      → run_on_value l fuel (step_of scalars) calls e c v s ≡ some s'
      → WakesCallee calls e s s'
  unfolding run_on_value
  run_on_value-WakesCallee e c v s s' valid h = go (mk_cell l v null_cell s.caller_graph) refl
    where
      go : (r : Run Cell) → mk_cell l v null_cell s.caller_graph ≡ r → WakesCallee calls e s s'
      go (ok d g) q =
          let w =
            run_on_call_site-Wakes calls l fuel scalars e c d (record s { caller_graph = g }) s'
              valid (ground arith) in
          record { valid = w.valid; kept = w.kept; awake = w.callee_awake }
      go fault q = absurd (ground arith)
      go out_of_fuel q = absurd (ground arith)

  exec_globals-WakesCallee :
      (e : ℕ) (vs : List (ℕ × Cell)) (s s' : State)
      → IsValid s.work
      → exec_globals l fuel (step_of scalars) calls e vs s ≡ some s'
      → WakesCallee calls e s s'
  unfolding exec_globals
  exec_globals-WakesCallee e [] s s' valid h = WakesCallee-refl calls e s s' valid (ground arith)
  exec_globals-WakesCallee e ((v, c) ∷ vs) s s' valid h =
      elim (Option-cases (run_on_value l fuel (step_of scalars) calls e c v s)) [
        | inl x ↦ absurd (ground arith)
        | inr (t, ran) ↦
            let w = run_on_value-WakesCallee e c v s t valid ran in
            WakesCallee-trans calls e s t s' w
              (exec_globals-WakesCallee e vs t s' w.valid (ground arith))
      ]

  exec_return-WakesCallee :
      (e : ℕ) (cs : CallSite) (callee : ℕ) (s s' : State)
      → IsValid s.work
      → exec_return l fuel (step_of scalars) calls e cs callee s ≡ some s'
      → WakesCallee calls e s s'
  unfolding exec_return
  exec_return-WakesCallee e cs callee s s' valid h =
      elim (Option-cases (lookup callee s.callee_graph.returns)) [
        | inl x ↦ WakesCallee-refl calls e s s' valid (ground arith)
        | inr (c, is) ↦ elim (Bool-cases (has_cell l s.caller_graph cs.instruction)) [
          | inl y ↦ run_on_value-WakesCallee e c cs.instruction s s' valid (ground arith)
          | inr n ↦ WakesCallee-refl calls e s s' valid (ground arith)
        ]
      ]

  exec_arguments-WakesCallee :
      (e : ℕ) (fs as' : List ℕ) (s s' : State)
      → IsValid s.work
      → exec_arguments l fuel (step_of scalars) calls e fs as' s ≡ some s'
      → WakesCallee calls e s s'
  unfolding exec_arguments
  exec_arguments-WakesCallee e [] as' s s' valid h =
      WakesCallee-refl calls e s s' valid (ground arith)
  exec_arguments-WakesCallee e (f ∷ fs) [] s s' valid h =
      WakesCallee-refl calls e s s' valid (ground arith)
  exec_arguments-WakesCallee e (f ∷ fs) (a ∷ as') s s' valid h =
      elim (Bool-cases (has_cell l s.caller_graph a && has_cell l s.callee_graph f)) [
        | inr n ↦ exec_arguments-WakesCallee e fs as' s s' valid (ground arith)
        | inl y ↦ elim (Option-cases (lookup (l.strip f) s.callee_graph.formals)) [
          | inl x ↦ absurd (ground arith)
          | inr (c, is) ↦
              elim (Option-cases (run_on_value l fuel (step_of scalars) calls e c a s)) [
                | inl x ↦ absurd (ground arith)
                | inr (t, ran) ↦
                    let w = run_on_value-WakesCallee e c a s t valid ran in
                    WakesCallee-trans calls e s t s' w
                      (exec_arguments-WakesCallee e fs as' t s' w.valid (ground arith))
              ]
        ]
      ]

  -- One call site of the closure, on a valid worklist and where its run ends, leaves a valid
  -- worklist with all that was there, and the callee's graph is as before or every call site that
  -- calls the callee or is in its body is on the worklist.
  pub exec_callsite-WakesCallee :
      (e : ℕ) (cs : CallSite) (s s' : State)
      → IsValid s.work
      → exec_callsite l fuel (step_of scalars) calls e cs (calls.callee e) s ≡ some s'
      → WakesCallee calls e s s'
  unfolding exec_callsite
  exec_callsite-WakesCallee e cs s s' valid h =
      elim (Option-cases
        (exec_globals l fuel (step_of scalars) calls e (globals l s.callee_graph.values) s)) [
          | inl x ↦ absurd (ground arith)
          | inr (s1, ran1) ↦
              let w1 =
                exec_globals-WakesCallee e (globals l s.callee_graph.values) s s1 valid ran1 in
              elim (Option-cases
                (exec_return l fuel (step_of scalars) calls e cs (calls.callee e) s1)) [
                  | inl x ↦ absurd (ground arith)
                  | inr (s2, ran2) ↦
                      let w2 = exec_return-WakesCallee e cs (calls.callee e) s1 s2 w1.valid ran2 in
                      WakesCallee-trans calls e s s2 s' (WakesCallee-trans calls e s s1 s2 w1 w2) (
                        exec_arguments-WakesCallee e (formals_of l (calls.callee e)) (actuals l cs)
                          s2 s' w2.valid (ground arith))
                ]
        ]
