-- ===== src/Local/Escape/Paths.antt =====
-- isEscapingPtrToInt of lib/seadsa/DsaLocal.cc against the paths along which an integer flows.
use sea_dsa.Common.{
  ℕ, ◌+◌, ◌≤◌, ◌≡◌, refl, true, none, some, List, [], ◌∷◌, ◌==◌, arith, inl, inr, ◌⊎◌, Bool-cases,
  member, ==→≡, ==_refl, length,
}
use sea_dsa.Local.{Ir}
use sea_dsa.Local.Escape.{Flow, ignored, escapes, flows_on, flow, follow}

Flow-cases : (f : Flow) → (f ≡ ignored) ⊎ ((f ≡ escapes) ⊎ (f ≡ flows_on))
Flow-cases ignored = inl refl
Flow-cases escapes = inr (inl refl)
Flow-cases flows_on = inr (inr refl)

module _ (ir : Ir) where
  -- The values that the value `v` flows into.
  pub data FlowsTo (v : ℕ) : ℕ → Type 0 where
    start : FlowsTo v v
    step :
        {u w : ℕ}
        → FlowsTo v u
        → member w (ir.users u) ≡ true
        → flow ir u w ≡ flows_on
        → FlowsTo v w

  -- One of them has a user that escapes.
  abbrev pub Escapes : ℕ → Type 0
  Escapes v =
      (u : ℕ) × (w : ℕ) × FlowsTo v u × (member w (ir.users u) ≡ true) × (flow ir u w ≡ escapes)

  pub follow-none :
      (seen : List ℕ) (v : ℕ) (us ws : List ℕ)
      → follow ir seen v us ws ≡ none
      → (w : ℕ) × (member w us ≡ true) × (flow ir v w ≡ escapes)
  unfolding follow
  follow-none seen v [] ws h = absurd (ground arith)
  follow-none seen v (u ∷ us) ws h = elim (Bool-cases (member u seen)) [
    | inl s ↦ let (w, m, e) = follow-none seen v us ws (ground arith) in (w, ground arith, e)
    | inr s ↦ elim (Flow-cases (flow ir v u)) [
      | inl f ↦ let (w, m, e) = follow-none seen v us ws (ground arith) in (w, ground arith, e)
      | inr (inl f) ↦ (u, ground (arith, ==_refl u), f)
      | inr (inr f) ↦
          let (w, m, e) = follow-none seen v us (u ∷ ws) (ground arith) in (w, ground arith, e)
    ]
  ]

  -- What one pass over the users of `v` says, where none escapes.
  abbrev pub Followed : (seen : List ℕ) → (v : ℕ) → (us ws ws' : List ℕ) → Type 0
  Followed seen v us ws ws' =
      ((x : ℕ) → member x ws ≡ true → member x ws' ≡ true)
      × ((x : ℕ)
          → member x ws' ≡ true
          → (member x ws ≡ true) ⊎ ((member x us ≡ true) × (flow ir v x ≡ flows_on)))
      × ((x : ℕ)
          → member x us ≡ true
          → (member x seen ≡ true)
            ⊎ ((flow ir v x ≡ ignored) ⊎ ((flow ir v x ≡ flows_on) × (member x ws' ≡ true))))
      × (length ws' ≤ length us + length ws)

  pub follow-some :
      (seen : List ℕ) (v : ℕ) (us ws ws' : List ℕ)
      → follow ir seen v us ws ≡ some ws'
      → Followed seen v us ws ws'
  unfolding follow
  follow-some seen v [] ws ws' h = (
    (λ x m. ground arith),
    (λ x m. inl (ground arith)),
    (λ x m. absurd (ground arith)),
    ground arith,
  )
  follow-some seen v (u ∷ us) ws ws' h = elim (Bool-cases (member u seen)) [
    | inl s ↦
        let (a, b, c, d) = follow-some seen v us ws ws' (ground arith) in
        (
          a,
          (λ x m. elim (b x m) [ inl p ↦ inl p | inr (p, q) ↦ inr (ground arith, q) ]),
          (λ x m. elim (Bool-cases (u == x)) [
            | inl e ↦ let e' : u ≡ x = ==→≡ u x e in inl (cc (e', s))
            | inr e ↦ c x (ground arith)
          ]),
          omega arith,
        )
    | inr s ↦ elim (Flow-cases (flow ir v u)) [
      | inl f ↦
          let (a, b, c, d) = follow-some seen v us ws ws' (ground arith) in
          (
            a,
            (λ x m. elim (b x m) [ inl p ↦ inl p | inr (p, q) ↦ inr (ground arith, q) ]),
            (λ x m. elim (Bool-cases (u == x)) [
              | inl e ↦ let e' : u ≡ x = ==→≡ u x e in inr (inl (cc (e', f)))
              | inr e ↦ c x (ground arith)
            ]),
            omega arith,
          )
      | inr (inl f) ↦ absurd (ground arith)
      | inr (inr f) ↦
          let (a, b, c, d) = follow-some seen v us (u ∷ ws) ws' (ground arith) in
          (
            (λ x m. a x (ground arith)),
            (λ x m. elim (b x m) [
              | inl p ↦ elim (Bool-cases (u == x)) [
                | inl e ↦ let e' : u ≡ x = ==→≡ u x e in inr (ground arith, cc (e', f))
                | inr e ↦ inl (ground arith)
              ]
              | inr (p, q) ↦ inr (ground arith, q)
            ]),
            (λ x m. elim (Bool-cases (u == x)) [
              | inl e ↦ let e' : u ≡ x = ==→≡ u x e in inr (inr (cc (e', f), a x (ground arith)))
              | inr e ↦ c x (ground arith)
            ]),
            omega arith,
          )
    ]
  ]
