-- ===== src/Local/Values/Nested.antt =====
-- hasNoPointerTy of lib/seadsa/DsaLocal.cc, the recursion over the parts of a type.
use sea_dsa.Common.{
  ℕ, zero, suc, ◌≡◌, refl, Bool, true, false, not, Option, some, List, [], ◌∷◌, ◌==◌, arith, inl,
  inr, Bool-cases, Option-cases, member, ==→≡, ==_refl, ◌⊎◌, ◌⊎◌,
}
use sea_dsa.Llvm.{Llvm, Shape}
use sea_dsa.Local.Values.{
  is_pointer_type, components, has_pointer_ty, all_without, has_no_pointer_ty,
}
use sea_dsa.Local.Values.Pointers.{
  Within, here, inside, IsPart-components, components-IsPart, HasPointer, has_pointer_ty-HasPointer,
}

-- What a run of all_without over a list says of its elements.
all_without-true :
    (rec : ℕ → Option Bool) (ts : List ℕ) (u : ℕ)
    → all_without rec ts ≡ some true
    → member u ts ≡ true
    → rec u ≡ some true
unfolding all_without
all_without-true rec [] u h m = absurd (ground arith)
all_without-true rec (t ∷ ts) u h m = elim (Option-cases (rec t)) [
  | inl e ↦ absurd (ground arith)
  | inr (true, e) ↦ elim (Bool-cases (t == u)) [
    | inl same ↦ let same' : t ≡ u = ==→≡ t u same in cc (e, same')
    | inr other ↦ all_without-true rec ts u (ground arith) (ground arith)
  ]
  | inr (false, e) ↦ absurd (ground arith)
]

all_without-false :
    (rec : ℕ → Option Bool) (ts : List ℕ)
    → all_without rec ts ≡ some false
    → (u : ℕ) × (member u ts ≡ true) × (rec u ≡ some false)
unfolding all_without
all_without-false rec [] h = absurd (ground arith)
all_without-false rec (t ∷ ts) h = elim (Option-cases (rec t)) [
  | inl e ↦ absurd (ground arith)
  | inr (false, e) ↦ (t, ground (arith, ==_refl t), e)
  | inr (true, e) ↦ let (u, m, r) = all_without-false rec ts (ground arith) in (u, ground arith, r)
]

module _ (l : Llvm) where
  -- What a run says about the parts of a type with the shape `s`.
  no_pointer_parts :
      (k t : ℕ) (s : Shape)
      → l.shape t ≡ s
      → has_no_pointer_ty l (suc k) t ≡ some true
      → (is_pointer_type l t ≡ false)
        × ((u : ℕ) → member u (components l t) ≡ true → has_no_pointer_ty l k u ≡ some true)
  unfolding has_no_pointer_ty is_pointer_type components
  no_pointer_parts k t (Shape.pointer e s) es h = absurd (ground arith)
  no_pointer_parts k t (Shape.struct ts) es h = (
    ground arith,
    λ u m. all_without-true (has_no_pointer_ty l k) ts u (ground arith) (ground arith),
  )
  no_pointer_parts k t (Shape.array n e) es h =
      (ground arith, λ u m. ground (arith, λ (q : (e == u) ≡ true). ==→≡ e u q))
  no_pointer_parts k t (Shape.vector n e) es h =
      (ground arith, λ u m. ground (arith, λ (q : (e == u) ≡ true). ==→≡ e u q))
  no_pointer_parts k t (Shape.integer w) es h = (ground arith, λ u m. absurd (ground arith))
  no_pointer_parts k t Shape.floating es h = (ground arith, λ u m. absurd (ground arith))
  no_pointer_parts k t Shape.void es h = (ground arith, λ u m. absurd (ground arith))
  no_pointer_parts k t Shape.other es h = (ground arith, λ u m. absurd (ground arith))

  has_no_pointer_ty-Within :
      (k : ℕ) {t v : ℕ}
      → Within l t v
      → has_no_pointer_ty l k t ≡ some true
      → is_pointer_type l v ≡ false
  unfolding has_no_pointer_ty
  has_no_pointer_ty-Within zero p h = absurd (ground arith)
  has_no_pointer_ty-Within (suc k) {t} here h = (no_pointer_parts k t (l.shape t) refl h).0
  has_no_pointer_ty-Within (suc k) {t} (inside {u = u} c p) h =
      has_no_pointer_ty-Within k p
        ((no_pointer_parts k t (l.shape t) refl h).1 u (IsPart-components l t u c))

  -- Either the type is a pointer, or one of its parts has one by the same routine.
  pointer_parts :
      (k t : ℕ) (s : Shape)
      → l.shape t ≡ s
      → has_no_pointer_ty l (suc k) t ≡ some false
      → (is_pointer_type l t ≡ true)
        ⊎ ((u : ℕ) × (member u (components l t) ≡ true) × (has_no_pointer_ty l k u ≡ some false))
  unfolding has_no_pointer_ty is_pointer_type components
  pointer_parts k t (Shape.pointer e s) es h = inl (ground arith)
  pointer_parts k t (Shape.struct ts) es h =
      let (u, m, r) = all_without-false (has_no_pointer_ty l k) ts (ground arith) in
      inr (u, ground arith, r)
  pointer_parts k t (Shape.array n e) es h = inr (e, ground (arith, ==_refl e), ground arith)
  pointer_parts k t (Shape.vector n e) es h = inr (e, ground (arith, ==_refl e), ground arith)
  pointer_parts k t (Shape.integer w) es h = absurd (ground arith)
  pointer_parts k t Shape.floating es h = absurd (ground arith)
  pointer_parts k t Shape.void es h = absurd (ground arith)
  pointer_parts k t Shape.other es h = absurd (ground arith)

  has_no_pointer_ty-HasPointer : (k t : ℕ) → has_no_pointer_ty l k t ≡ some false → HasPointer l t
  unfolding has_no_pointer_ty
  has_no_pointer_ty-HasPointer zero t h = absurd (ground arith)
  has_no_pointer_ty-HasPointer (suc k) t h = elim (pointer_parts k t (l.shape t) refl h) [
    | inl p ↦ (t, here, p)
    | inr (u, m, r) ↦
        let (v, p, q) = has_no_pointer_ty-HasPointer k u r in
        (v, inside (components-IsPart l t u m) p, q)
  ]

  -- hasPointerTy and hasNoPointerTy of a type, where both end, contradict each other.
  pub has_pointer_ty-has_no_pointer_ty :
      (j k t : ℕ) (b c : Bool)
      → has_pointer_ty l j t ≡ some b
      → has_no_pointer_ty l k t ≡ some c
      → b ≡ not c
  has_pointer_ty-has_no_pointer_ty j k t b false h h' =
      (has_pointer_ty-HasPointer l j t b h).1 (has_no_pointer_ty-HasPointer k t h')
  has_pointer_ty-has_no_pointer_ty j k t false true h h' = refl
  has_pointer_ty-has_no_pointer_ty j k t true true h h' =
      let (v, p, is) = (has_pointer_ty-HasPointer l j t true h).0 refl in
      absurd (cc (has_no_pointer_ty-Within k p h', is))
