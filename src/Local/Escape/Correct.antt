-- ===== src/Local/Escape/Correct.antt =====
-- The loop of isEscapingPtrToInt in lib/seadsa/DsaLocal.cc: what it answers, and that it ends.
use sea_dsa.Common.{
  ℕ, zero, suc, ◌≡◌, refl, Bool, true, false, ◌||◌, some, List, [], ◌∷◌, ◌==◌, arith, inl, inr, ◌⊎◌,
  Bool-cases, Option-cases, member, ==→≡, ==_refl,
}
use sea_dsa.Local.{Value, Ir}
use sea_dsa.Local.Escape.{ignored, flow, is_sink, follow, escape_loop, is_escaping_ptr_to_int}
use sea_dsa.Local.Escape.Paths.{FlowsTo, start, step, Escapes, follow-none, follow-some}

module _ (ir : Ir) where
  escape_loop-Escapes :
      (k v : ℕ) (seen ws : List ℕ)
      → ((u : ℕ) → member u ws ≡ true → FlowsTo ir v u)
      → escape_loop ir k seen ws ≡ some true
      → Escapes ir v
  unfolding escape_loop
  escape_loop-Escapes zero v seen ws inv h = absurd (ground arith)
  escape_loop-Escapes (suc k) v seen [] inv h = absurd (ground arith)
  escape_loop-Escapes (suc k) v seen (u ∷ ws) inv h =
      let hu : FlowsTo ir v u = inv u (ground (arith, ==_refl u)) in
      elim (Bool-cases (member u seen)) [
        | inl s ↦ escape_loop-Escapes k v seen ws (λ x m. inv x (ground arith)) (ground arith)
        | inr s ↦ elim (Option-cases (follow ir (u ∷ seen) u (ir.users u) ws)) [
          | inl e ↦
              let (w, m, f) = follow-none ir (u ∷ seen) u (ir.users u) ws e in (u, w, hu, m, f)
          | inr (ws', e) ↦
              let (a, b, c, d) = follow-some ir (u ∷ seen) u (ir.users u) ws ws' e in
              escape_loop-Escapes k v (u ∷ seen) ws'
                (λ x m. elim (b x m) [ inl p ↦ inv x (ground arith) | inr (p, q) ↦ step hu p q ])
                (ground arith)
        ]
      ]

  -- Each value of `seen` has only users that are ignored, or that are in `seen` or `ws`; none of
  -- those in `seen` or `ws` makes a value escape.
  abbrev Explored : (seen ws : List ℕ) → Type 0
  Explored seen ws =
      ((u w : ℕ)
        → member u seen ≡ true
        → member w (ir.users u) ≡ true
        → (flow ir u w ≡ ignored) ⊎ ((member w seen || member w ws) ≡ true))
      × ((u : ℕ) → (member u seen || member u ws) ≡ true → is_sink ir u ≡ false)

  explore_seen :
      (u : ℕ) (seen ws : List ℕ) → member u seen ≡ true → Explored seen (u ∷ ws) → Explored seen ws
  explore_seen u seen ws s (done, pass) = (
    (λ x w m n. elim (done x w m n) [
      | inl i ↦ inl i
      | inr i ↦ inr (ground (arith, λ (e : (u == w) ≡ true). ==→≡ u w e))
    ]),
    λ x m. pass x (ground arith),
  )

  explore_new :
      (u : ℕ) (seen ws ws' : List ℕ)
      → follow ir (u ∷ seen) u (ir.users u) ws ≡ some ws'
      → Explored seen (u ∷ ws)
      → Explored (u ∷ seen) ws'
  unfolding flow
  explore_new u seen ws ws' h (done, pass) =
      let (a, b, c, d) = follow-some ir (u ∷ seen) u (ir.users u) ws ws' h in
      (
        (λ x w m n. elim (Bool-cases (u == x)) [
          | inl e ↦
              let e' : u ≡ x = ==→≡ u x e in
              let n' : member w (ir.users u) ≡ true = cc (e', n) in
              elim (c w n') [
                | inl p ↦ inr (ground arith)
                | inr (inl p) ↦ inl (cc (p, e'))
                | inr (inr (p, q)) ↦ inr (ground arith)
              ]
          | inr e ↦ elim (done x w (ground arith) n) [
            | inl p ↦ inl p
            | inr p ↦ elim (Bool-cases (member w ws)) [
              | inl q ↦ let r = a w q in inr (ground arith)
              | inr q ↦ inr (ground arith)
            ]
          ]
        ]),
        λ x m. elim (Bool-cases (member x seen || member x (u ∷ ws))) [
          | inl p ↦ pass x p
          | inr p ↦ elim (b x (ground arith)) [
            | inl q ↦ absurd (ground arith)
            | inr (q, f) ↦ ground arith
          ]
        ],
      )

  escape_loop-Explored :
      (k : ℕ) (seen ws : List ℕ)
      → Explored seen ws
      → escape_loop ir k seen ws ≡ some false
      → (all : List ℕ) × ((u : ℕ) → (member u seen || member u ws) ≡ true → member u all ≡ true)
        × Explored all []
  unfolding escape_loop
  escape_loop-Explored zero seen ws inv h = absurd (ground arith)
  escape_loop-Explored (suc k) seen [] inv h = (seen, (λ u m. ground arith), inv)
  escape_loop-Explored (suc k) seen (u ∷ ws) inv h = elim (Bool-cases (member u seen)) [
    | inl s ↦
        let (all, sub, closed) =
          escape_loop-Explored k seen ws (explore_seen u seen ws s inv) (ground arith) in
        (all, (λ x m. sub x (ground (arith, λ (e : (u == x) ≡ true). ==→≡ u x e))), closed)
    | inr s ↦ elim (Option-cases (follow ir (u ∷ seen) u (ir.users u) ws)) [
      | inl e ↦ absurd (ground arith)
      | inr (ws', e) ↦
          let (all, sub, closed) =
            escape_loop-Explored k (u ∷ seen) ws' (explore_new u seen ws ws' e inv)
              (ground arith) in
          let (a, b, c, d) = follow-some ir (u ∷ seen) u (ir.users u) ws ws' e in
          (all, (λ x m. sub x (ground (arith, a x))), closed)
    ]
  ]

  FlowsTo-member :
      (all : List ℕ) {v u : ℕ}
      → Explored all []
      → FlowsTo ir v u
      → member v all ≡ true
      → member u all ≡ true
  FlowsTo-member all closed start m = m
  FlowsTo-member all closed (step {u = u} {w = w} p n f) m =
      elim (closed.0 u w (FlowsTo-member all closed p m) n) [
        | inl i ↦ absurd (ground arith)
        | inr i ↦ ground arith
      ]

  ptr_to_int-is_sink : (u o : ℕ) → ir.value u ≡ Value.ptr_to_int o → is_sink ir u ≡ false
  unfolding is_sink
  ptr_to_int-is_sink u o e = ground arith

  -- isEscapingPtrToInt of a ptrtoint instruction, where it ends, answers whether the integer flows,
  -- through users that are not ignored, to a value with a user that makes it escape.
  pub is_escaping_ptr_to_int-Escapes :
      (k v operand : ℕ) (b : Bool)
      → ir.value v ≡ Value.ptr_to_int operand
      → is_escaping_ptr_to_int ir k v ≡ some b
      → (b ≡ true → Escapes ir v) × (Escapes ir v → b ≡ true)
  unfolding is_escaping_ptr_to_int flow
  is_escaping_ptr_to_int-Escapes k v operand true is h = (
    (λ e.
        escape_loop-Escapes k v [] (v ∷ [])
          (λ u m. elim (Bool-cases (v == u)) [
            | inl same ↦ rw (← ==→≡ v u same) start
            | inr other ↦ absurd (ground arith)
          ])
          h),
    λ p. refl,
  )
  is_escaping_ptr_to_int-Escapes k v operand false is h =
      let (all, sub, closed) =
        escape_loop-Explored k [] (v ∷ [])
          (
            (λ u w m n. absurd (ground arith)),
            λ u m. elim (Bool-cases (v == u)) [
              | inl same ↦
                  let same' : v ≡ u = ==→≡ v u same in
                  let is' : ir.value u ≡ Value.ptr_to_int operand = cc (same', is) in
                  ptr_to_int-is_sink u operand is'
              | inr other ↦ absurd (ground arith)
            ],
          )
          h in
      (
        (λ e. absurd (ground arith)),
        λ (u, w, p, n, f).
            let m = FlowsTo-member all closed p (sub v (ground (arith, ==_refl v))) in
            elim (closed.0 u w m n) [
              | inl i ↦ absurd (ground arith)
              | inr i ↦ let q = closed.1 w i in absurd (ground arith)
            ],
      )
