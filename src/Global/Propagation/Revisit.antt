-- ===== src/Global/Propagation/Revisit.antt =====
-- The propagation loop of lib/seadsa/DsaGlobal.cc: which call sites it comes to.
use sea_dsa.Common.{
  ℕ, zero, suc, ◌≡◌, true, false, Bool, ◌||◌, ◌++◌, refl, Option, List, [], ◌∷◌, ◌==◌, arith, inl,
  inr, Bool-cases, Option-cases, member,
}
use sea_dsa.Global.Worklist.{WorkList, enqueue_all}
use sea_dsa.Global.Worklist.Laws.{IsValid, dequeue-IsValid, enqueue_all-IsValid}
use sea_dsa.Global.Propagation.{
  PropagationKind, down, up, none_needed, Calls, Visit, Loop, done, fault, out_of_fuel, visited,
  woken, propagation_loop,
}

abbrev pub visits : ℕ → List Visit → Bool
visits e [] = false
visits e ((x, kind) ∷ log) = (x == e) || visits e log

module _ (calls : Calls) where
  -- The call sites that call the function whose graph the visit changed, or are in its body: the
  -- callee after a propagation down, the caller after one up.
  abbrev pub concerns : Visit → ℕ → Bool
  concerns (e, down) x =
      member x (calls.uses (calls.callee e)) || member x (calls.defs (calls.callee e))
  concerns (e, up) x =
      member x (calls.uses (calls.caller e)) || member x (calls.defs (calls.caller e))
  concerns (e, none_needed) x = false

  member-append : (x : ℕ) (as' bs : List ℕ) → member x (as' ++ bs) ≡ (member x as' || member x bs)
  member-append x [] bs = refl
  member-append x (a ∷ as') bs = ground (arith, member-append x as' bs)

  member-woken : (v : Visit) (x : ℕ) → member x (woken calls v) ≡ concerns v x
  unfolding woken
  member-woken (e, down) x =
      member-append x (calls.uses (calls.callee e)) (calls.defs (calls.callee e))
  member-woken (e, up) x =
      member-append x (calls.uses (calls.caller e)) (calls.defs (calls.caller e))
  member-woken (e, none_needed) x = refl

  -- After each visit, the call sites that it concerns are visited again.
  abbrev pub IsSettled : List Visit → Type 0
  IsSettled [] = Unit {0}
  IsSettled (v ∷ log) = ((e : ℕ) → concerns v e ≡ true → visits e log ≡ true) × IsSettled log

  visited-done :
      {S : Type 0} (r : Loop S) (v : Visit) (s : S) (log : List Visit)
      → visited v r ≡ done s log
      → (rest : List Visit) × (r ≡ done s rest) × (log ≡ v ∷ rest)
  visited-done (done s' rest) v s log h = (rest, ground arith, ground arith)
  visited-done fault v s log h = absurd (ground arith)
  visited-done out_of_fuel v s log h = absurd (ground arith)

  module _ {S : Type 0} (propagate : ℕ → S → Option (PropagationKind × S)) where
    -- Where the loop ends, it has visited every call site of a valid worklist, and after each
    -- propagation it has visited again every call site that calls the function whose graph changed,
    -- or is in its body.
    pub propagation_loop-IsSettled :
        (k : ℕ) (w : WorkList) (s s' : S) (log : List Visit)
        → IsValid w
        → propagation_loop calls propagate k w s ≡ done s' log
        → IsSettled log × ((e : ℕ) → member e w.queue ≡ true → visits e log ≡ true)
    unfolding propagation_loop woken
    propagation_loop-IsSettled zero w s s' log valid h = absurd (ground arith)
    propagation_loop-IsSettled (suc k) w s s' log valid h = elim (dequeue-IsValid w valid) [
      | inl (e, is) ↦
          let empty : log ≡ [] = ground arith in rw empty (tt, λ x m. absurd (ground arith))
      | inr (e, w', took, is, valid') ↦ elim (Bool-cases (calls.callee_has_body e)) [
        | inl body ↦ elim (Option-cases (propagate e s)) [
          | inl stuck ↦ absurd (ground arith)
          | inr ((kind, s1), ran) ↦
              let es = woken calls (e, kind) in
              let (rest, ended, split) =
                visited-done (propagation_loop calls propagate k (enqueue_all es w') s1) (e, kind)
                  s' log (ground arith) in
              let (valid'', holds, bound) = enqueue_all-IsValid es w' valid' in
              let (settled, all) =
                propagation_loop-IsSettled k (enqueue_all es w') s1 s' rest valid'' ended in
              rw split (
                ((λ x m. all x (ground (arith, holds x, member-woken (e, kind) x))), settled),
                λ x m. ground (arith, all x, holds x),
              )
        ]
        | inr body ↦
            let (rest, ended, split) =
              visited-done (propagation_loop calls propagate k w' s) (e, none_needed) s' log
                (ground arith) in
            let (settled, all) = propagation_loop-IsSettled k w' s s' rest valid' ended in
            rw split (((λ x m. absurd (ground arith)), settled), λ x m. ground (arith, all x))
      ]
    ]
