-- ===== src/RemovePtrToInt/Values.antt =====
-- The pointers that lib/seadsa/RemovePtrToInt.cc computes in place of integers.
use sea_dsa.Common.{
  ℕ, zero, suc, ◌+◌, ◌-◌, ◌^◌, ◌%◌, ◌<◌, ◌≡◌, refl, sym, subst, ap, ◌∙◌, arith, inl, inr,
  Bool-cases, Option-cases, Option, none, some, List, [], ◌∷◌, ◌==◌, ==→≡, member, ltb,
  if◌then◌else◌,
}
use sea_dsa.RemovePtrToInt.{
  Inst, Code, Promoted, Incoming, pointer, cast, gep, gep_back, end, also, Work, is_instruction,
  visit_incoming, visit_left, step_back, visit, visit_int_to_ptr,
}

abbrev pub value_at : (ℕ → ℕ) → ℕ → List ℕ → ℕ
value_at value n [] = 0
value_at value zero (v ∷ vs) = value v
value_at value (suc n) (v ∷ vs) = value_at value n vs

-- A run of the integer code: the values of instructions, of pointers and of constants, and the
-- incoming value that each phi node takes, in as many bits as each has. A load has the value that is in memory, whatever its type.
pub record Run (c : Code) : Type 0 where
  pub value : ℕ → ℕ
  pub taken : ℕ → ℕ
  pub of_ptr_to_int : (v p : ℕ) → c.inst v ≡ Inst.ptr_to_int p → value v ≡ value p % 2 ^ c.width v
  pub of_phi :
      (v : ℕ) (vs : List ℕ) → c.inst v ≡ Inst.phi vs → value v ≡ value_at value (taken v) vs
  pub of_add : (v a b : ℕ) → c.inst v ≡ Inst.add a b → value v ≡ (value a + value b) % 2 ^ c.width v
  pub of_sub :
      (v a b : ℕ)
      → c.inst v ≡ Inst.sub a b
      → value v ≡ (value a + (2 ^ c.width v - value b)) % 2 ^ c.width v
  pub of_constant : (v n : ℕ) → c.constant v ≡ some n → value v ≡ n
  pub of_word : (v : ℕ) → value v < 2 ^ c.width v

-- An index of a getelementptr, of `w` bits, sign-extended or truncated to 64 bits.
unfoldable pub to_index : (w n : ℕ) → ℕ
to_index w n = (if ltb n (2 ^ (w - 1)) then n else n + (2 ^ 64 - 2 ^ w)) % 2 ^ 64

to_index_wide : (w n : ℕ) → w ≡ 64 → n < 2 ^ 64 → to_index w n ≡ n
unfolding to_index
to_index_wide w n e h = rw e (narrow n h)
  where
    narrow :
        (n : ℕ)
        → n < 2 ^ 64
        → (if ltb n (2 ^ (64 - 1)) then n else n + (2 ^ 64 - 2 ^ 64)) % 2 ^ 64 ≡ n
    narrow n h = ground arith

-- The same for the constant that is 0 less `n`.
to_index_back :
    (w n : ℕ) → w ≡ 64 → ¬ (n ≡ 0) → n < 2 ^ 64 → to_index w ((2 ^ w - n) % 2 ^ w) ≡ 2 ^ 64 - n
to_index_back w n e z h =
    to_index_wide w ((2 ^ w - n) % 2 ^ w) e (rw e (omega arith)) ∙ rw e (omega (arith, z))

module _ (c : Code) (r : Run c) where
  -- The address that a pointer expression gives.
  mutual
    pub eval : Promoted → ℕ
    eval (pointer v) = r.value v
    eval (cast p) = eval p
    eval (Promoted.phi v ps) = eval_at (r.taken v) ps
    eval (gep p i) = (eval p + to_index (c.width i) (r.value i)) % 2 ^ 64
    eval (gep_back p w n) = (eval p + to_index w ((2 ^ w - n) % 2 ^ w)) % 2 ^ 64
    eval (Promoted.load v) = r.value v

    pub eval_at : ℕ → Incoming → ℕ
    eval_at n end = 0
    eval_at zero (also p ps) = eval p
    eval_at (suc n) (also p ps) = eval_at n ps

module _ (c : Code) (r : Run c) (wide : (v : ℕ) → c.width v ≡ 64) where
  value_lt : (v : ℕ) → r.value v < 2 ^ 64
  value_lt v = subst (λ w. r.value v < 2 ^ w) (wide v) (r.of_word v)

  value-ptr_to_int : (v p : ℕ) → c.inst v ≡ Inst.ptr_to_int p → r.value p ≡ r.value v
  value-ptr_to_int v p e =
      let cut : r.value v ≡ r.value p % 2 ^ 64 =
        r.of_ptr_to_int v p e ∙ ap (λ w. r.value p % 2 ^ w) (wide v) in
      omega (arith, value_lt p)

  value-add : (v a b : ℕ) → c.inst v ≡ Inst.add a b → r.value v ≡ (r.value a + r.value b) % 2 ^ 64
  value-add v a b e = r.of_add v a b e ∙ ap (λ w. (r.value a + r.value b) % 2 ^ w) (wide v)

  value-sub :
      (v a b : ℕ)
      → c.inst v ≡ Inst.sub a b
      → r.value v ≡ (r.value a + (2 ^ 64 - r.value b)) % 2 ^ 64
  value-sub v a b e =
      r.of_sub v a b e ∙ ap (λ w. (r.value a + (2 ^ w - r.value b)) % 2 ^ w) (wide v)

  abbrev IsSound : (ℕ → Work → Option (Option Promoted × Work)) → Type 0
  IsSound rec =
      (v : ℕ) (w w' : Work) (p : Promoted) → rec v w ≡ some (some p, w') → eval c r p ≡ r.value v

  eval_at_also :
      (v : ℕ) (vs : List ℕ) (p : Promoted) (qs : Incoming) (n : ℕ)
      → eval c r p ≡ r.value v
      → ((m : ℕ) → eval_at c r m qs ≡ value_at r.value m vs)
      → eval_at c r n (also p qs) ≡ value_at r.value n (v ∷ vs)
  unfolding eval_at eval
  eval_at_also v vs p qs zero a b = a
  eval_at_also v vs p qs (suc n) a b = b n

  visit_incoming-eval_at :
      (rec : ℕ → Work → Option (Option Promoted × Work))
      → IsSound rec
      → (vs : List ℕ) (w w' : Work) (ps : Incoming) → visit_incoming c rec vs w ≡ some (some ps, w')
      → (n : ℕ) → eval_at c r n ps ≡ value_at r.value n vs
  unfolding visit_incoming eval_at eval
  visit_incoming-eval_at rec sound [] w w' ps h n =
      let same : end ≡ ps = ground arith in subst (λ x. eval_at c r n x ≡ 0) same refl
  visit_incoming-eval_at rec sound (v ∷ vs) w w' ps h n = elim (Bool-cases (is_instruction c v)) [
    | inr e ↦ absurd (ground arith)
    | inl e ↦ elim (Option-cases (rec v w)) [
      | inl e' ↦ absurd (ground arith)
      | inr ((none, w1), e') ↦ absurd (ground arith)
      | inr ((some p, w1), e') ↦ elim (Option-cases (visit_incoming c rec vs w1)) [
        | inl f ↦ absurd (ground arith)
        | inr ((none, w2), f) ↦ absurd (ground arith)
        | inr ((some qs, w2), f) ↦
            let same : also p qs ≡ ps = ground arith in
            subst (λ x. eval_at c r n x ≡ value_at r.value n (v ∷ vs)) same
              (eval_at_also v vs p qs n (sound v w w1 p e')
                (visit_incoming-eval_at rec sound vs w1 w2 qs f))
      ]
    ]
  ]

  visit_left-eval :
      (rec : ℕ → Work → Option (Option Promoted × Work))
      → IsSound rec
      → (v a : ℕ) (make : Promoted → Promoted) (w w' : Work) (p : Promoted)
      → ((q : Promoted) → eval c r q ≡ r.value a → eval c r (make q) ≡ r.value v)
      → visit_left c rec v a make w ≡ some (some p, w')
      → eval c r p ≡ r.value v
  unfolding visit_left
  visit_left-eval rec sound v a make w w' p made h = elim (Bool-cases (is_instruction c a)) [
    | inr e ↦ absurd (ground arith)
    | inl e ↦ elim (Option-cases (rec a w)) [
      | inl e' ↦ absurd (ground arith)
      | inr ((none, w1), e') ↦ absurd (ground arith)
      | inr ((some q, w1), e') ↦
          let same : make q ≡ p = ground arith in
          subst (λ x. eval c r x ≡ r.value v) same (made q (sound a w w1 q e'))
    ]
  ]

  eval-step_back :
      (v a b n : ℕ)
      → c.inst v ≡ Inst.sub a b
      → c.constant b ≡ some n
      → (q : Promoted) → eval c r q ≡ r.value a
      → eval c r (step_back (c.width b) n q) ≡ r.value v
  unfolding step_back eval
  eval-step_back v a b n i k q e =
      let x = value-sub v a b i in
      let y = r.of_constant b n k in
      let z = value_lt a in
      let z' = value_lt b in
      elim (Bool-cases (n == 0)) [
        | inl e' ↦
            let n_is : n ≡ 0 = ==→≡ n 0 e' in
            let same : r.value a ≡ r.value v = omega arith in rw e' (e ∙ same)
        | inr e' ↦
            let back : to_index (c.width b) ((2 ^ c.width b - n) % 2 ^ c.width b) ≡ 2 ^ 64 - n =
              to_index_back (c.width b) n (wide b) (λ n_is. ground arith) (omega arith) in
            let same : (eval c r q + (2 ^ 64 - n)) % 2 ^ 64 ≡ r.value v = omega arith in
            rw e' (ap (λ x. (eval c r q + x) % 2 ^ 64) back ∙ same)
      ]

  visit_case :
      (ty k : ℕ)
      → IsSound (visit c ty k)
      → (v : ℕ) (w w' : Work) (p : Promoted) → visit c ty (suc k) v w ≡ some (some p, w')
      → (i : Inst) → c.inst v ≡ i
      → eval c r p ≡ r.value v
  unfolding visit eval
  visit_case ty k ih v w w' p h (Inst.ptr_to_int q) e = elim (Bool-cases (c.type q == ty)) [
    | inl f ↦
        let same : pointer q ≡ p = ground arith in
        subst (λ x. eval c r x ≡ r.value v) same (value-ptr_to_int v q e)
    | inr f ↦
        let same : cast (pointer q) ≡ p = ground arith in
        subst (λ x. eval c r x ≡ r.value v) same (value-ptr_to_int v q e)
  ]
  visit_case ty k ih v w w' p h (Inst.phi vs) e = elim (Bool-cases (member v w.visited)) [
    | inl f ↦ absurd (ground arith)
    | inr f ↦
        elim (Option-cases
          (visit_incoming c (visit c ty k) vs (record w { visited = v ∷ w.visited }))) [
            | inl g ↦ absurd (ground arith)
            | inr ((none, w1), g) ↦ absurd (ground arith)
            | inr ((some ps, w1), g) ↦
                let same : Promoted.phi v ps ≡ p = ground arith in
                let all =
                  visit_incoming-eval_at (visit c ty k) ih vs (record w { visited = v ∷ w.visited })
                    w1 ps g (r.taken v) in
                subst (λ x. eval c r x ≡ r.value v) same (all ∙ sym (r.of_phi v vs e))
          ]
  ]
  visit_case ty k ih v w w' p h (Inst.add a b) e =
      visit_left-eval (visit c ty k) ih v a (λ q. cast (gep (cast q) b)) w w' p
        (λ q same.
          ap (λ x. (x + to_index (c.width b) (r.value b)) % 2 ^ 64) same
          ∙ ap (λ x. (r.value a + x) % 2 ^ 64)
              (to_index_wide (c.width b) (r.value b) (wide b) (value_lt b))
          ∙ sym (value-add v a b e))
        (ground arith)
  visit_case ty k ih v w w' p h (Inst.sub a b) e = elim (Option-cases (c.constant b)) [
    | inl f ↦ absurd (ground arith)
    | inr (n, f) ↦
        visit_left-eval (visit c ty k) ih v a (step_back (c.width b) n) w w' p
          (eval-step_back v a b n e f) (ground arith)
  ]
  visit_case ty k ih v w w' p h (Inst.load q) e =
      let same : Promoted.load v ≡ p = ground arith in subst (λ x. eval c r x ≡ r.value v) same refl
  visit_case ty k ih v w w' p h Inst.other e = absurd (ground arith)
  visit_case ty k ih v w w' p h Inst.none_at_all e = absurd (ground arith)

  visit-eval : (ty k : ℕ) → IsSound (visit c ty k)
  unfolding visit
  visit-eval ty zero v w w' p h = absurd (ground arith)
  visit-eval ty (suc k) v w w' p h = visit_case ty k (visit-eval ty k) v w w' p h (c.inst v) refl

-- Where all values have 64 bits and PointerPromoter replaces an inttoptr instruction, the expression that it puts in its place
-- gives, on every run, the address that the integer operand has.
pub visit_int_to_ptr-eval :
    (c : Code) (r : Run c) (wide : (x : ℕ) → c.width x ≡ 64) (fuel i v : ℕ) (w w' : Work)
    (p : Promoted)
    → visit_int_to_ptr c fuel i v w ≡ some (some p, w')
    → eval c r p ≡ r.value v
unfolding visit_int_to_ptr
visit_int_to_ptr-eval c r wide fuel i v w w' p h = elim (Bool-cases (is_instruction c v)) [
  | inr e ↦ absurd (ground arith)
  | inl e ↦ elim (Option-cases (visit c (c.type i) fuel v w)) [
    | inl e' ↦ absurd (ground arith)
    | inr ((none, w1), e') ↦ absurd (ground arith)
    | inr ((some q, w1), e') ↦
        let same : q ≡ p = ground arith in
        subst (λ x. eval c r x ≡ r.value v) same (visit-eval c r wide (c.type i) fuel v w w1 q e')
  ]
]
