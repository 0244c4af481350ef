-- ===== src/Local/Values/Pointers.antt =====
-- hasPointerTy and hasNoPointerTy of lib/seadsa/DsaLocal.cc: two walks over the types that a type
-- is made of, one with a worklist and one by recursion.
use sea_dsa.Common.{
  ℕ, zero, suc, ◌≡◌, refl, Bool, true, false, ◌||◌, some, List, [], ◌∷◌, ◌==◌, arith, inl, inr,
  Bool-cases, member, ==→≡, ==_refl, push_all, member-push_all,
}
use sea_dsa.Llvm.{Llvm, Shape}
use sea_dsa.Local.Values.{is_pointer_type, components, has_pointer_loop, has_pointer_ty}

module _ (l : Llvm) where
  -- `u` is a member of the struct, array or vector type `t`.
  pub data IsPart (t u : ℕ) : Type 0 where
    member_of : (es : List ℕ) → l.shape t ≡ Shape.struct es → member u es ≡ true → IsPart t u
    array_of : (n : ℕ) → l.shape t ≡ Shape.array n u → IsPart t u
    vector_of : (n : ℕ) → l.shape t ≡ Shape.vector n u → IsPart t u

  pub IsPart-components : (t u : ℕ) → IsPart t u → member u (components l t) ≡ true
  unfolding components
  IsPart-components t u (member_of es e m) = ground arith
  IsPart-components t u (array_of n e) = ground (arith, ==_refl u)
  IsPart-components t u (vector_of n e) = ground (arith, ==_refl u)

  component-IsPart :
      (t u : ℕ) (s : Shape) → l.shape t ≡ s → member u (components l t) ≡ true → IsPart t u
  unfolding components
  component-IsPart t u (Shape.struct es) e m = member_of es e (ground arith)
  component-IsPart t u (Shape.array n x) e m =
      let same : x ≡ u = ==→≡ x u (ground arith) in array_of n (cc (e, same))
  component-IsPart t u (Shape.vector n x) e m =
      let same : x ≡ u = ==→≡ x u (ground arith) in vector_of n (cc (e, same))
  component-IsPart t u (Shape.pointer x s) e m = absurd (ground arith)
  component-IsPart t u (Shape.integer w) e m = absurd (ground arith)
  component-IsPart t u Shape.floating e m = absurd (ground arith)
  component-IsPart t u Shape.void e m = absurd (ground arith)
  component-IsPart t u Shape.other e m = absurd (ground arith)

  pub components-IsPart : (t u : ℕ) → member u (components l t) ≡ true → IsPart t u
  components-IsPart t u m = component-IsPart t u (l.shape t) refl m

  -- `v` is `t` itself or a type that `t` is made of, not counting what pointers point to.
  pub data Within : ℕ → ℕ → Type 0 where
    here : {t : ℕ} → Within t t
    inside : {t u v : ℕ} → IsPart t u → Within u v → Within t v

  Within-trans : {t u v : ℕ} → Within t u → Within u v → Within t v
  Within-trans here q = q
  Within-trans (inside m p) q = inside m (Within-trans p q)

  abbrev pub HasPointer : ℕ → Type 0
  HasPointer t = (v : ℕ) × Within t v × (is_pointer_type l v ≡ true)

  has_pointer_loop-HasPointer :
      (k t : ℕ) (seen ws : List ℕ)
      → ((u : ℕ) → member u ws ≡ true → Within t u)
      → has_pointer_loop l k seen ws ≡ some true
      → HasPointer t
  unfolding has_pointer_loop
  has_pointer_loop-HasPointer zero t seen ws inv h = absurd (ground arith)
  has_pointer_loop-HasPointer (suc k) t seen [] inv h = absurd (ground arith)
  has_pointer_loop-HasPointer (suc k) t seen (w ∷ ws) inv h =
      let hw : Within t w = inv w (ground (arith)) in
      elim (Bool-cases (member w seen)) [
        | inl s ↦
            has_pointer_loop-HasPointer k t seen ws (λ u m. inv u (ground arith)) (ground arith)
        | inr s ↦ elim (Bool-cases (is_pointer_type l w)) [
          | inl p ↦ (w, hw, p)
          | inr p ↦
              has_pointer_loop-HasPointer k t (w ∷ seen) (push_all (components l w) ws)
                (λ u m. elim (Bool-cases (member u (components l w))) [
                  | inl c ↦ Within-trans hw (inside (components-IsPart w u c) here)
                  | inr c ↦ inv u (ground (arith, member-push_all u (components l w) ws))
                ])
                (ground arith)
        ]
      ]

  -- No type of `seen` is a pointer, and what each is made of is in `seen` or `ws`.
  abbrev Explored : (seen ws : List ℕ) → Type 0
  Explored seen ws =
      (u : ℕ)
      → member u seen ≡ true
      → (is_pointer_type l u ≡ false)
        × ((v : ℕ) → member v (components l u) ≡ true → (member v seen || member v ws) ≡ true)

  explore_seen :
      (w : ℕ) (seen ws : List ℕ) → member w seen ≡ true → Explored seen (w ∷ ws) → Explored seen ws
  explore_seen w seen ws s inv u m =
      ((inv u m).0, λ v c. ground (arith, (inv u m).1 v c, λ (e : (w == v) ≡ true). ==→≡ w v e))

  explore_new :
      (w : ℕ) (seen ws : List ℕ)
      → is_pointer_type l w ≡ false
      → Explored seen (w ∷ ws)
      → Explored (w ∷ seen) (push_all (components l w) ws)
  explore_new w seen ws p inv u m = elim (Bool-cases (w == u)) [
    | inl e ↦
        let same : w ≡ u = ==→≡ w u e in
        (cc (p, same), λ v c. ground (arith, member-push_all v (components l w) ws, same))
    | inr e ↦
        let (q, r) = inv u (ground arith) in
        (q, λ v c. ground (arith, member-push_all v (components l w) ws, r v c))
  ]

  -- A list that holds what is seen and listed, no pointer, and what its members are made of.
  abbrev IsClosure : (seen ws all : List ℕ) → Type 0
  IsClosure seen ws all =
      ((u : ℕ) → (member u seen || member u ws) ≡ true → member u all ≡ true) × Explored all []

  has_pointer_loop-IsClosure :
      (k : ℕ) (seen ws : List ℕ)
      → Explored seen ws
      → has_pointer_loop l k seen ws ≡ some false
      → (all : List ℕ) × IsClosure seen ws all
  unfolding has_pointer_loop
  has_pointer_loop-IsClosure zero seen ws inv h = absurd (ground arith)
  has_pointer_loop-IsClosure (suc k) seen [] inv h = (seen, ((λ u m. ground arith), inv))
  has_pointer_loop-IsClosure (suc k) seen (w ∷ ws) inv h = elim (Bool-cases (member w seen)) [
    | inl s ↦
        let (all, (sub, closed)) =
          has_pointer_loop-IsClosure k seen ws (explore_seen w seen ws s inv) (ground arith) in
        (all, ((λ u m. sub u (ground (arith, λ (e : (w == u) ≡ true). ==→≡ w u e))), closed))
    | inr s ↦ elim (Bool-cases (is_pointer_type l w)) [
      | inl p ↦ absurd (ground arith)
      | inr p ↦
          let (all, (sub, closed)) =
            has_pointer_loop-IsClosure k (w ∷ seen) (push_all (components l w) ws)
              (explore_new w seen ws p inv) (ground arith) in
          (all, ((λ u m. sub u (ground (arith, member-push_all u (components l w) ws))), closed))
    ]
  ]

  closure-Within :
      (all : List ℕ)
      → Explored all []
      → {t v : ℕ} → Within t v
      → member t all ≡ true
      → is_pointer_type l v ≡ false
  closure-Within all closed {t} here m = (closed t m).0
  closure-Within all closed {t} (inside {u = u} c p) m =
      closure-Within all closed p (ground (arith, (closed t m).1 u (IsPart-components t u c)))

  -- hasPointerTy, where it ends, answers whether the type is a pointer or is made of types one of
  -- which is a pointer.
  pub has_pointer_ty-HasPointer :
      (k t : ℕ) (b : Bool)
      → has_pointer_ty l k t ≡ some b
      → (b ≡ true → HasPointer t) × (HasPointer t → b ≡ true)
  unfolding has_pointer_ty
  has_pointer_ty-HasPointer k t true h = (
    (λ e.
        has_pointer_loop-HasPointer k t [] (t ∷ [])
          (λ u m. elim (Bool-cases (t == u)) [
            | inl e ↦ rw (← ==→≡ t u e) here
            | inr e ↦ absurd (ground arith)
          ])
          h),
    λ p. refl,
  )
  has_pointer_ty-HasPointer k t false h =
      let (all, (sub, closed)) =
        has_pointer_loop-IsClosure k [] (t ∷ []) (λ u m. absurd (ground arith)) h in
      (
        (λ e. absurd (ground arith)),
        λ (v, p, is).
            absurd (cc (closure-Within all closed p (sub t (ground (arith, ==_refl t))), is)),
      )
