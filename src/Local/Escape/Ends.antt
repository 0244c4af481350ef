-- ===== src/Local/Escape/Ends.antt =====
-- How long the loop of isEscapingPtrToInt in lib/seadsa/DsaLocal.cc runs.
use sea_dsa.Common.{
  ℕ, zero, suc, ◌+◌, ◌<◌, ◌≡◌, refl, true, List, [], ◌∷◌, ◌==◌, arith, inl, inr, Bool-cases,
  Option-cases, member, ==→≡, ==_refl, length, is_some, unseen, unseen-visit,
}
use sea_dsa.Local.{Ir}
use sea_dsa.Local.Escape.{follow, escape_loop, is_escaping_ptr_to_int}
use sea_dsa.Local.Escape.Paths.{follow-some}

module _ (ir : Ir) (all : List ℕ) where
  abbrev users_of : ℕ → ℕ
  users_of u = length (ir.users u)

  escape_loop_ends :
      ((u w : ℕ) → member u all ≡ true → member w (ir.users u) ≡ true → member w all ≡ true)
      → (k : ℕ) (seen ws : List ℕ) → ((u : ℕ) → member u ws ≡ true → member u all ≡ true)
      → length ws + unseen users_of seen all < k
      → is_some (escape_loop ir k seen ws) ≡ true
  unfolding escape_loop
  escape_loop_ends closed zero seen ws inv h = absurd (omega arith)
  escape_loop_ends closed (suc k) seen [] inv h = refl
  escape_loop_ends closed (suc k) seen (u ∷ ws) inv h =
      let hu : member u all ≡ true = inv u (ground (arith, ==_refl u)) in
      elim (Bool-cases (member u seen)) [
        | inl s ↦
            let ih =
              escape_loop_ends closed k seen ws (λ x m. inv x (ground arith)) (omega arith) in
            ground arith
        | inr s ↦ elim (Option-cases (follow ir (u ∷ seen) u (ir.users u) ws)) [
          | inl e ↦ ground arith
          | inr (ws', e) ↦
              let (a, b, c, d) = follow-some ir (u ∷ seen) u (ir.users u) ws ws' e in
              let cheaper = unseen-visit users_of u seen all hu s in
              let ih =
                escape_loop_ends closed k (u ∷ seen) ws'
                  (λ x m. elim (b x m) [
                    | inl p ↦ inv x (ground arith)
                    | inr (p, q) ↦ closed u x hu p
                  ])
                  (omega arith) in
              ground arith
        ]
      ]

  -- Where the values of a list have all their users in the list, isEscapingPtrToInt of one of them
  -- ends within as many rounds as the list has members and they have users, and two more.
  pub is_escaping_ptr_to_int_ends :
      ((u w : ℕ) → member u all ≡ true → member w (ir.users u) ≡ true → member w all ≡ true)
      → (k v : ℕ) → member v all ≡ true
      → 1 + unseen users_of [] all < k
      → is_some (is_escaping_ptr_to_int ir k v) ≡ true
  unfolding is_escaping_ptr_to_int
  is_escaping_ptr_to_int_ends closed k v m h =
      escape_loop_ends closed k [] (v ∷ [])
        (λ u n. elim (Bool-cases (v == u)) [
          | inl e ↦ let e' : v ≡ u = ==→≡ v u e in cc (e', m)
          | inr e ↦ absurd (ground arith)
        ])
        h
