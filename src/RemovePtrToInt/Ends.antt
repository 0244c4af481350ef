-- ===== src/RemovePtrToInt/Ends.antt =====
-- How deep PointerPromoter of lib/seadsa/RemovePtrToInt.cc goes.
use sea_dsa.Common.{
  ℕ, zero, suc, ◌+◌, ◌<◌, ◌≤◌, ◌≡◌, refl, sym, subst, arith, inl, inr, Bool-cases, Option-cases,
  Option, none, some, true, List, [], ◌∷◌, ◌==◌, if◌then◌else◌, member, unseen, unseen-visit,
}
use sea_dsa.RemovePtrToInt.{
  Inst, User, Code, Promoted, end, also, Work, remove, visit_users, is_instruction, visit_incoming,
  visit_left, step_back, visit, visit_int_to_ptr,
}
use sea_dsa.RemovePtrToInt.Values.{Run, eval, visit_int_to_ptr-eval}

visit_users-visited : (v : ℕ) (us : List User) (w : Work) → (visit_users v us w).visited ≡ w.visited
unfolding visit_users
visit_users-visited v [] w = refl
visit_users-visited v (User.store_of s ∷ us) w =
    visit_users-visited v us (remove s (record w { stored_again = (s, v) ∷ w.stored_again }))
visit_users-visited v (User.store_to ∷ us) w = visit_users-visited v us w
visit_users-visited v (User.int_to_ptr ∷ us) w = visit_users-visited v us w
visit_users-visited v (User.other ∷ us) w = visit_users-visited v us (record w { to_replace = _ })

-- Operands of additions and subtractions come before their results; the phi nodes are those of a
-- list, and break the other cycles.
pub record IsRanked (c : Code) (rank : ℕ → ℕ) (top : ℕ) (phis : List ℕ) : Type 0 where
  pub of_add : (v a b : ℕ) → c.inst v ≡ Inst.add a b → rank a < rank v
  pub of_sub : (v a b : ℕ) → c.inst v ≡ Inst.sub a b → rank a < rank v
  pub below : (v : ℕ) → rank v ≤ top
  pub of_phi : (v : ℕ) (vs : List ℕ) → c.inst v ≡ Inst.phi vs → member v phis ≡ true

module _ (c : Code) (rank : ℕ → ℕ) (top : ℕ) (phis : List ℕ)
    (ranked : IsRanked c rank top phis) where
  -- What the phi nodes that are not visited yet cost.
  abbrev left : Work → ℕ
  left w = unseen (λ p. top) w.visited phis

  abbrev Ends : {A : Type 0} → Work → Option (Option A × Work) → Type 0
  Ends {A = A} w x = (r : Option A) × (w' : Work) × (x ≡ some (r, w')) × (left w' ≤ left w)

  visit_incoming-Ends :
      (k : ℕ) (rec : ℕ → Work → Option (Option Promoted × Work))
      → ((v : ℕ) (w : Work) → rank v + left w < k → Ends w (rec v w))
      → (vs : List ℕ) (w : Work) → top + left w < k
      → Ends w (visit_incoming c rec vs w)
  unfolding visit_incoming
  visit_incoming-Ends k rec ends [] w h = (some end, w, refl, omega arith)
  visit_incoming-Ends k rec ends (v ∷ vs) w h = elim (Bool-cases (is_instruction c v)) [
    | inr e ↦ (none, w, ground arith, omega arith)
    | inl e ↦
        let low = ranked.below v in
        let (r, w1, e1, l1) = ends v w (omega arith) in
        elim (Option-cases r) [
          | inl x ↦ (none, w1, ground arith, l1)
          | inr (p, x) ↦
              let (r2, w2, e2, l2) = visit_incoming-Ends k rec ends vs w1 (omega arith) in
              elim (Option-cases r2) [
                | inl y ↦ (none, w2, ground arith, omega arith)
                | inr (ps, y) ↦ (some (also p ps), w2, ground arith, omega arith)
              ]
        ]
  ]

  visit_left-Ends :
      (rec : ℕ → Work → Option (Option Promoted × Work)) (v a : ℕ) (make : Promoted → Promoted)
      (w : Work)
      → Ends w (rec a w)
      → Ends w (visit_left c rec v a make w)
  unfolding visit_left
  visit_left-Ends rec v a make w (r, w1, e1, l1) = elim (Bool-cases (is_instruction c a)) [
    | inr e ↦ (none, w, ground arith, omega arith)
    | inl e ↦ elim (Option-cases r) [
      | inl x ↦ (none, w1, ground arith, l1)
      | inr (p, x) ↦ (some (make p), remove v w1, ground arith, l1)
    ]
  ]

  phi_step :
      (ty k v : ℕ) (vs : List ℕ)
      → ((v : ℕ) (w : Work) → rank v + left w < k → Ends w (visit c ty k v w))
      → (w : Work) → rank v + left w < suc k
      → c.inst v ≡ Inst.phi vs
      → Ends w (visit c ty (suc k) v w)
  unfolding visit
  phi_step ty k v vs ih w h e = elim (Bool-cases (member v w.visited)) [
    | inl old ↦ (none, w, ground arith, omega arith)
    | inr new ↦
        let w0 = record w { visited = v ∷ w.visited } in
        let cheaper = unseen-visit (λ p. top) v w.visited phis (ranked.of_phi v vs e) new in
        let (r, w1, e1, l1) = visit_incoming-Ends k (visit c ty k) ih vs w0 (omega arith) in
        elim (Option-cases r) [
          | inl x ↦ (none, w1, ground arith, omega arith)
          | inr (ps, x) ↦ (some (Promoted.phi v ps), remove v w1, ground arith, omega arith)
        ]
  ]

  inst_step :
      (ty k v : ℕ)
      → ((v : ℕ) (w : Work) → rank v + left w < k → Ends w (visit c ty k v w))
      → (w : Work) → rank v + left w < suc k
      → (i : Inst) → c.inst v ≡ i
      → Ends w (visit c ty (suc k) v w)
  unfolding visit
  inst_step ty k v ih w h (Inst.ptr_to_int q) e = (
    some (if c.type q == ty then Promoted.pointer q else Promoted.cast (Promoted.pointer q)),
    remove v w,
    ground arith,
    omega arith,
  )
  inst_step ty k v ih w h (Inst.phi vs) e = phi_step ty k v vs ih w h e
  inst_step ty k v ih w h (Inst.add a b) e =
      let less = ranked.of_add v a b e in
      let (r, w', f, l) =
        visit_left-Ends (visit c ty k) v a (λ p. Promoted.cast (Promoted.gep (Promoted.cast p) b)) w
          (ih a w (omega arith)) in
      (r, w', ground arith, l)
  inst_step ty k v ih w h (Inst.sub a b) e = elim (Option-cases (c.constant b)) [
    | inl f ↦ (none, w, ground arith, omega arith)
    | inr (n, f) ↦
        let less = ranked.of_sub v a b e in
        let (r, w', g, l) =
          visit_left-Ends (visit c ty k) v a (step_back (c.width b) n) w (ih a w (omega arith)) in
        (r, w', ground arith, l)
  ]
  inst_step ty k v ih w h (Inst.load q) e = (
    some (Promoted.load v),
    visit_users v (c.users v) w,
    ground arith,
    subst (λ x. unseen (λ p. top) x phis ≤ left w) (sym (visit_users-visited v (c.users v) w))
        (omega arith),
  )
  inst_step ty k v ih w h Inst.other e = (none, w, ground arith, omega arith)
  inst_step ty k v ih w h Inst.none_at_all e = (none, w, ground arith, omega arith)

  visit-Ends : (ty k v : ℕ) (w : Work) → rank v + left w < k → Ends w (visit c ty k v w)
  visit-Ends ty zero v w h = absurd (omega arith)
  visit-Ends ty (suc k) v w h = inst_step ty k v (visit-Ends ty k) w h (c.inst v) refl

  -- Where operands of additions and subtractions have lower ranks than their results, the phi nodes
  -- are in a list, and all values have 64 bits, PointerPromoter ends, with fuel above the rank of the
  -- operand and, for each phi node that is not visited yet, one more than the highest rank. Where it
  -- replaces an inttoptr instruction, the expression that it puts in its place gives, on every run of
  -- the integer code, the address that the operand has.
  pub visit_int_to_ptr_ends :
      (run : Run c) (fuel i v : ℕ) (w : Work)
      → ((x : ℕ) → c.width x ≡ 64)
      → rank v + left w < fuel
      → (r : Option Promoted) × (w' : Work) × (visit_int_to_ptr c fuel i v w ≡ some (r, w'))
        × ((p : Promoted) → r ≡ some p → eval c run p ≡ run.value v)
  unfolding visit_int_to_ptr
  visit_int_to_ptr_ends run fuel i v w wide h = elim (Bool-cases (is_instruction c v)) [
    | inr e ↦ (none, w, ground arith, λ p x. absurd (ground arith))
    | inl e ↦
        let (r, w1, f, l) = visit-Ends (c.type i) fuel v w h in
        elim (Option-cases r) [
          | inl x ↦ (none, w1, ground arith, λ p y. absurd (ground arith))
          | inr (q, x) ↦
              let ran : visit_int_to_ptr c fuel i v w ≡ some (some q, remove i w1) = ground arith in
              (
                some q,
                remove i w1,
                ran,
                λ p y.
                    let same : q ≡ p = ground arith in
                    subst (λ z. eval c run z ≡ run.value v) same
                      (visit_int_to_ptr-eval c run wide fuel i v w (remove i w1) q ran),
              )
        ]
  ]
