-- ===== src/Local/Values/Ends.antt =====
-- How long the loop of hasPointerTy in lib/seadsa/DsaLocal.cc runs.
use sea_dsa.Common.{
  ℕ, zero, suc, ◌+◌, ◌<◌, ◌≡◌, refl, true, List, [], ◌∷◌, ◌==◌, arith, inl, inr, Bool-cases, member,
  ==→≡, ==_refl, length, is_some, unseen, unseen-visit, push_all, member-push_all, length-push_all,
}
use sea_dsa.Llvm.{Llvm}
use sea_dsa.Local.Values.{is_pointer_type, components, has_pointer_loop, has_pointer_ty}

module _ (l : Llvm) (all : List ℕ) where
  abbrev parts_of : ℕ → ℕ
  parts_of t = length (components l t)

  has_pointer_loop_ends :
      ((t u : ℕ) → member t all ≡ true → member u (components l t) ≡ true → member u all ≡ true)
      → (k : ℕ) (seen ws : List ℕ) → ((u : ℕ) → member u ws ≡ true → member u all ≡ true)
      → length ws + unseen parts_of seen all < k
      → is_some (has_pointer_loop l k seen ws) ≡ true
  unfolding has_pointer_loop
  has_pointer_loop_ends closed zero seen ws inv h = absurd (omega arith)
  has_pointer_loop_ends closed (suc k) seen [] inv h = refl
  has_pointer_loop_ends closed (suc k) seen (t ∷ ws) inv h =
      let ht : member t all ≡ true = inv t (ground (arith, ==_refl t)) in
      elim (Bool-cases (member t seen)) [
        | inl s ↦
            let ih =
              has_pointer_loop_ends closed k seen ws (λ x m. inv x (ground arith)) (omega arith) in
            ground arith
        | inr s ↦ elim (Bool-cases (is_pointer_type l t)) [
          | inl p ↦ ground arith
          | inr p ↦
              let cs = components l t in
              let cheaper = unseen-visit parts_of t seen all ht s in
              let longer = length-push_all cs ws in
              let ih =
                has_pointer_loop_ends closed k (t ∷ seen) (push_all cs ws)
                  (λ x m. elim (Bool-cases (member x cs)) [
                    | inl q ↦ closed t x ht q
                    | inr q ↦ inv x (ground (arith, member-push_all x cs ws))
                  ])
                  (omega arith) in
              ground arith
        ]
      ]

  -- Where the types of a list are made of types of the list, hasPointerTy of one of them ends within
  -- as many rounds as the list has members and they have parts, and two more.
  pub has_pointer_ty_ends :
      ((t u : ℕ) → member t all ≡ true → member u (components l t) ≡ true → member u all ≡ true)
      → (k t : ℕ) → member t all ≡ true
      → 1 + unseen parts_of [] all < k
      → is_some (has_pointer_ty l k t) ≡ true
  unfolding has_pointer_ty
  has_pointer_ty_ends closed k t m h =
      has_pointer_loop_ends closed k [] (t ∷ [])
        (λ u n. elim (Bool-cases (t == u)) [
          | inl e ↦ let e' : t ≡ u = ==→≡ t u e in cc (e', m)
          | inr e ↦ absurd (ground arith)
        ])
        h
