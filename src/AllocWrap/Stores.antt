-- ===== src/AllocWrap/Stores.antt =====
-- What isNotStored of lib/seadsa/AllocWrapInfo.cc decides, and when it ends.
use sea_dsa.Common.{
  ℕ, zero, suc, ◌<◌, Bool, true, false, Option, some, List, [], ◌∷◌, ◌≡◌, ◌↔◌, arith, member,
  Bool-cases, ◌⊎◌, inl, inr, refl, ==→≡, ◌==◌, ==_refl, subst, sym,
}
use sea_dsa.AllocWrap.{
  Inst, ret, phi, bitcast, null, store, icmp, call, other, Module, user_is_harmless, all_harmless,
  is_not_stored,
}

-- The instructions whose result is the value that they use.
abbrev pub is_copy : Inst → Bool
is_copy (phi header vs) = true
is_copy (bitcast v) = true
is_copy _ = false

-- The users that do not let the value out.
abbrev pub is_harmless : Inst → Bool
is_harmless (ret v) = true
is_harmless icmp = true
is_harmless _ = false

module _ (m : Module) where
  -- Through casts and phi nodes the value gets to a user that is no comparison and no return.
  pub data Leaks : ℕ → Type 0 where
    here :
        {v : ℕ} (u : ℕ)
        → member u (m.users v) ≡ true
        → is_copy (m.inst u) ≡ false
        → is_harmless (m.inst u) ≡ false
        → Leaks v
    along :
        {v : ℕ} (u : ℕ)
        → member u (m.users v) ≡ true
        → is_copy (m.inst u) ≡ true
        → Leaks u
        → Leaks v

  abbrev UserLeaks : ℕ → Type 0
  UserLeaks u =
      (is_copy (m.inst u) ≡ false) × (is_harmless (m.inst u) ≡ false)
      ⊎ (is_copy (m.inst u) ≡ true) × Leaks u

  abbrev Answers : Option Bool → Type 0 → Type 0
  Answers r P = (b : Bool) × (r ≡ some b) × ((b ≡ false) ↔ P)

  -- The answer for one user, by its kind.
  user_is_harmless_lem :
      (rec : ℕ → Option Bool) (u : ℕ) (i : Inst)
      → m.inst u ≡ i
      → (is_copy i ≡ true → Answers (rec u) (Leaks u))
      → Answers (user_is_harmless m rec u) (UserLeaks u)
  unfolding user_is_harmless
  user_is_harmless_lem rec u store e h =
      (false, ground arith, (λ x. inl (ground arith, ground arith), λ x. refl))
  user_is_harmless_lem rec u null e h =
      (false, ground arith, (λ x. inl (ground arith, ground arith), λ x. refl))
  user_is_harmless_lem rec u call e h =
      (false, ground arith, (λ x. inl (ground arith, ground arith), λ x. refl))
  user_is_harmless_lem rec u other e h =
      (false, ground arith, (λ x. inl (ground arith, ground arith), λ x. refl))
  user_is_harmless_lem rec u icmp e h =
      (true, ground arith, (λ x. absurd (ground arith), λ x. absurd (ground arith)))
  user_is_harmless_lem rec u (ret v) e h =
      (true, ground arith, (λ x. absurd (ground arith), λ x. absurd (ground arith)))
  user_is_harmless_lem rec u (bitcast v) e h =
      let (b, ran, iff) = h refl in
      (
        b,
        ground arith,
        (
          λ x. inr (ground arith, iff.0 x),
          λ x. elim x [ inl y ↦ absurd (ground arith) | inr y ↦ iff.1 y.1 ],
        ),
      )
  user_is_harmless_lem rec u (phi header vs) e h =
      let (b, ran, iff) = h refl in
      (
        b,
        ground arith,
        (
          λ x. inr (ground arith, iff.0 x),
          λ x. elim x [ inl y ↦ absurd (ground arith) | inr y ↦ iff.1 y.1 ],
        ),
      )

  -- Some user of the list lets the value out.
  abbrev SomeLeaks : List ℕ → Type 0
  SomeLeaks [] = ⊥
  SomeLeaks (u ∷ us) = UserLeaks u ⊎ SomeLeaks us

  all_harmless_lem :
      (rec : ℕ → Option Bool) (us : List ℕ)
      → ((u : ℕ) → member u us ≡ true → is_copy (m.inst u) ≡ true → Answers (rec u) (Leaks u))
      → Answers (all_harmless m rec us) (SomeLeaks us)
  unfolding all_harmless
  all_harmless_lem rec [] h = (true, refl, (λ x. absurd (ground arith), λ x. elim x [ ]))
  all_harmless_lem rec (u ∷ us) h =
      let (b, ran, iff) =
        user_is_harmless_lem rec u (m.inst u) refl (h u (ground (arith, ==_refl u))) in
      let (c, runs, iffs) = all_harmless_lem rec us (λ w at. h w (ground arith)) in
      elim (Bool-cases b) [
        | inl t ↦ (
          c,
          ground arith,
          (
            λ x. inr (iffs.0 x),
            λ x. elim x [ inl y ↦ absurd (ground (arith, iff.1 y)) | inr y ↦ iffs.1 y ],
          ),
        )
        | inr f ↦ (false, ground arith, (λ x. inl (iff.0 f), λ x. refl))
      ]

  SomeLeaks-Leaks :
      (v : ℕ) (us : List ℕ)
      → ((u : ℕ) → member u us ≡ true → member u (m.users v) ≡ true)
      → SomeLeaks us
      → Leaks v
  SomeLeaks-Leaks v [] h x = elim x [ ]
  SomeLeaks-Leaks v (u ∷ us) h (inl (inl y)) = here u (h u (ground (arith, ==_refl u))) y.0 y.1
  SomeLeaks-Leaks v (u ∷ us) h (inl (inr y)) = along u (h u (ground (arith, ==_refl u))) y.0 y.1
  SomeLeaks-Leaks v (u ∷ us) h (inr y) = SomeLeaks-Leaks v us (λ w at. h w (ground arith)) y

  member-SomeLeaks : (u : ℕ) (us : List ℕ) → member u us ≡ true → UserLeaks u → SomeLeaks us
  member-SomeLeaks u [] at x = cc
  member-SomeLeaks u (w ∷ us) at x = elim (Bool-cases (w == u)) [
    | inl e ↦ inl (subst (λ (n : ℕ). UserLeaks n) (sym (==→≡ w u e)) x)
    | inr e ↦ inr (member-SomeLeaks u us (ground arith) x)
  ]

  Leaks-SomeLeaks : (v : ℕ) → Leaks v → SomeLeaks (m.users v)
  Leaks-SomeLeaks v (here u at c h) = member-SomeLeaks u (m.users v) at (inl (c, h))
  Leaks-SomeLeaks v (along u at c x) = member-SomeLeaks u (m.users v) at (inr (c, x))

  -- Where the copies of a value have a smaller rank than the value, so that they form no cycle,
  -- isNotStored ends for a value with more fuel than its rank, and answers `false` exactly if the
  -- value gets, through casts and phi nodes, to a user other than a comparison or a return.
  pub is_not_stored-Leaks :
      (rank : ℕ → ℕ)
      → ((v u : ℕ) → member u (m.users v) ≡ true → is_copy (m.inst u) ≡ true → rank u < rank v)
      → (k v : ℕ) → rank v < k
      → (b : Bool) × (is_not_stored m k v ≡ some b) × ((b ≡ false) ↔ Leaks v)
  unfolding is_not_stored
  is_not_stored-Leaks rank falls zero v h = absurd (omega arith)
  is_not_stored-Leaks rank falls (suc k) v h =
      let (b, ran, iff) =
        all_harmless_lem (is_not_stored m k) (m.users v)
          (λ u at c. is_not_stored-Leaks rank falls k u (omega (arith, falls v u at c))) in
      (
        b,
        ran,
        (
          λ x. SomeLeaks-Leaks v (m.users v) (λ u at. at) (iff.0 x),
          λ x. iff.1 (Leaks-SomeLeaks v x),
        ),
      )
