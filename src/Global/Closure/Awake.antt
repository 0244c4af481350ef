-- ===== src/Global/Closure/Awake.antt =====
-- CallGraphClosure of lib/seadsa/DsaGlobal.cc: a graph changes only if the call sites that depend on
-- it are on the worklist.
use sea_dsa.Common.{
  ℕ, ◌≡◌, refl, Bool, true, false, some, List, ◌++◌, arith, inl, inr, ◌⊎◌, Option-cases, member,
}
use sea_dsa.Llvm.{Llvm}
use sea_dsa.Graph.{Cell, Graph}
use sea_dsa.Graph.Query.{place}
use sea_dsa.Graph.Merge.Walk.{merge_from}
use sea_dsa.Graph.Merge.Walk.Report.{step_of, merge_from-step_of}
use sea_dsa.Global.Worklist.{WorkList}
use sea_dsa.Global.Worklist.Laws.{IsValid, enqueue_all-IsValid}
use sea_dsa.Global.Propagation.{Calls}
use sea_dsa.Global.Closure.{State, wake, run_on_call_site}

-- What is on the first list is on the second one.
abbrev pub IsIn : List ℕ → List ℕ → Type 0
IsIn xs ys = (x : ℕ) → member x xs ≡ true → member x ys ≡ true

pub IsIn-trans : (xs ys zs : List ℕ) → IsIn xs ys → IsIn ys zs → IsIn xs zs
IsIn-trans xs ys zs p q = λ x m. q x (p x m)

module _ (calls : Calls) where
  -- The call sites that call a function or are in its body.
  abbrev pub sites_of : ℕ → List ℕ
  sites_of f = calls.uses f ++ calls.defs f

  wake-IsIn :
      (b : Bool) (f : ℕ) (w : WorkList)
      → IsValid w
      → IsValid (wake calls b f w)
        × IsIn w.queue (wake calls b f w).queue
        × ((b ≡ false) ⊎ IsIn (sites_of f) (wake calls b f w).queue)
  unfolding wake
  wake-IsIn false f w valid = (valid, (λ x m. m), inl refl)
  wake-IsIn true f w valid =
      let (valid', holds, bound) = enqueue_all-IsValid (sites_of f) w valid in
      (valid', (λ x m. ground (arith, holds x)), inr (λ x m. ground (arith, holds x)))

  -- The graph of function `f` is as before, or all call sites of `f` are on the worklist.
  abbrev pub IsAwake : ℕ → Graph → Graph → WorkList → Type 0
  IsAwake f g g' w = (g' ≡ g) ⊎ IsIn (sites_of f) w.queue

  reported :
      (b : Bool) (g g' : Graph) (xs ys : List ℕ)
      → ((b ≡ true) ⊎ (g' ≡ g))
      → ((b ≡ false) ⊎ IsIn xs ys)
      → (g' ≡ g) ⊎ IsIn xs ys
  reported b g g' xs ys (inr same) q = inl same
  reported b g g' xs ys (inl c) (inr all) = inr all
  reported b g g' xs ys (inl c) (inl d) = absurd (ground arith)

  -- What a call site does to the two graphs and the worklist.
  pub record Wakes (e : ℕ) (s s' : State) : Type 0 where
    pub valid : IsValid s'.work
    pub kept : IsIn s.work.queue s'.work.queue
    pub callee_awake : IsAwake (calls.callee e) s.callee_graph s'.callee_graph s'.work
    pub caller_awake : IsAwake (calls.caller e) s.caller_graph s'.caller_graph s'.work

  module _ (l : Llvm) (fuel : ℕ) (scalars : Bool) where
    -- runOnCallSite of UniqueScalar and of AllocaSite, on a valid worklist and where it ends, leaves
    -- a valid worklist with all that was there, and for each of the two functions either its graph
    -- is as before or the worklist holds every call site that calls it or is in its body.
    pub run_on_call_site-Wakes :
        (e : ℕ) (c d : Cell) (s s' : State)
        → IsValid s.work
        → run_on_call_site l fuel (step_of scalars) calls e c d s ≡ some s'
        → Wakes e s s'
    unfolding run_on_call_site
    run_on_call_site-Wakes e c d s s' valid h = elim (Option-cases (place s.callee_graph c)) [
      | inl x ↦ absurd (ground arith)
      | inr (p, ep) ↦ elim (Option-cases (place s.caller_graph d)) [
        | inl x ↦ absurd (ground arith)
        | inr (q, eq) ↦
            elim (Option-cases (
              merge_from l (step_of scalars) fuel p.address q.address s.callee_graph
                s.caller_graph)) [
                  | inl x ↦ absurd (ground arith)
                  | inr (w, ran) ↦
                      let (first, second) =
                        merge_from-step_of l scalars fuel p.address q.address s.callee_graph
                          s.caller_graph w ran in
                      let w1 = wake calls w.result.this (calls.callee e) s.work in
                      let (valid1, kept1, all1) =
                        wake-IsIn w.result.this (calls.callee e) s.work valid in
                      let (valid2, kept2, all2) =
                        wake-IsIn w.result.other (calls.caller e) w1 valid1 in
                      let t : State = record {
                        callee_graph = w.this;
                        caller_graph = w.other;
                        work = wake calls w.result.other (calls.caller e) w1;
                      } in
                      let is : s' ≡ t = ground arith in
                      rw is (record {
                        valid = valid2;
                        kept = IsIn-trans s.work.queue w1.queue t.work.queue kept1 kept2;
                        callee_awake =
                            elim (reported w.result.this s.callee_graph w.this
                              (sites_of (calls.callee e)) w1.queue first all1) [
                                | inl same ↦ inl same
                                | inr all ↦ inr (
                                    IsIn-trans (sites_of (calls.callee e)) w1.queue t.work.queue all
                                      kept2)
                              ];
                        caller_awake =
                            reported w.result.other s.caller_graph w.other
                              (sites_of (calls.caller e)) t.work.queue second all2;
                      })
                ]
      ]
    ]
