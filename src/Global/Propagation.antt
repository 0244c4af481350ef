-- ===== src/Global/Propagation.antt =====
-- The propagation loop of ContextSensitiveGlobalAnalysis::runOnModule in lib/seadsa/DsaGlobal.cc.
-- What one propagation does to the graphs of all functions is an argument here: decidePropagation
-- with propagateTopDown or propagateBottomUp, or nothing.
pub mod Revisit
use sea_dsa.Common.{
  ℕ, zero, suc, Bool, true, false, Option, none, some, List, [], ◌∷◌, ◌++◌, if◌then◌else◌,
}
use sea_dsa.Global.Worklist.{WorkList, no_work, enqueue, dequeue, enqueue_all}

-- PropagationKind
pub data PropagationKind : Type 0 where
  down up none_needed : PropagationKind

-- What the loop reads of the call sites, and of CallGraphWrapper: the call sites that call a
-- function, and those in its body.
pub record Calls : Type 0 where
  pub callee_has_body : ℕ → Bool
  pub caller : ℕ → ℕ
  pub callee : ℕ → ℕ
  pub uses : ℕ → List ℕ
  pub defs : ℕ → List ℕ

abbrev pub Visit : Type 0
Visit = ℕ × PropagationKind

-- The end of the loop: the state, and the call sites in the order of their visits. `fault` is a
-- failed assertion in a propagation.
pub data Loop (S : Type 0) : Type 0 where
  done : S → List Visit → Loop S
  fault : Loop S
  out_of_fuel : Loop S

abbrev pub visited : {S : Type 0} → Visit → Loop S → Loop S
visited v (done s log) = done s (v ∷ log)
visited v fault = fault
visited v out_of_fuel = out_of_fuel

module _ (calls : Calls) where
  -- The function whose graph a propagation changes decides which call sites are looked at again.
  unfoldable pub woken : Visit → List ℕ
  woken (e, down) = calls.uses (calls.callee e) ++ calls.defs (calls.callee e)
  woken (e, up) = calls.uses (calls.caller e) ++ calls.defs (calls.caller e)
  woken (e, none_needed) = []

  -- The worklist before the loop: the call sites whose simulation is not injective.
  unfoldable pub initial_work : (is_injective : ℕ → Bool) → List ℕ → WorkList → WorkList
  unfolding enqueue
  initial_work is_injective [] w = w
  initial_work is_injective (e ∷ es) w =
      initial_work is_injective es (if is_injective e then w else enqueue w e)

  module _ {S : Type 0} (propagate : ℕ → S → Option (PropagationKind × S)) where
    -- The loop, on fuel for its rounds.
    unfoldable pub propagation_loop : ℕ → WorkList → S → Loop S
    unfolding dequeue enqueue_all woken
    propagation_loop zero w s = out_of_fuel
    propagation_loop (suc k) w s = elim (dequeue w) [
      | none ↦ done s []
      | some (e, w') ↦ elim (calls.callee_has_body e) [
        | false ↦ visited (e, none_needed) (propagation_loop k w' s)
        | true ↦ elim (propagate e s) [
          | none ↦ fault
          | some (kind, s') ↦
              visited (e, kind) (propagation_loop k (enqueue_all (woken (e, kind)) w') s')
        ]
      ]
    ]
