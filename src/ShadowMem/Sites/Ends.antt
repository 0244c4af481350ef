-- ===== src/ShadowMem/Sites/Ends.antt =====
-- How long the walk of getAllAllocSites of lib/seadsa/ShadowMem.cc takes.
use sea_dsa.Common.{
  ℕ, zero, suc, ◌+◌, ◌<◌, ◌≡◌, refl, arith, inl, inr, true, Bool-cases, Option-cases, some, List,
  [], ◌∷◌, ◌==◌, ==→≡, ==_refl, lookup, member, length, is_some, unseen, unseen-visit, set_insert,
  push_all, member-push_all, length-push_all,
}
use sea_dsa.Graph.{Graph}
use sea_dsa.ShadowMem.Sites.{
  Pointers, site, through, lost, MaybeAllocSites, Cache, origin, sites_loop, get_all_alloc_sites,
}
use sea_dsa.ShadowMem.Sites.Origins.{
  origin-cases, is_site, is_through, is_lost, Traced, IsTraced, get_all_alloc_sites-Traced,
}

module _ (ps : Pointers) (g : Graph) (all : List ℕ) where
  -- How many pointers are pushed at a pointer.
  abbrev pub pushed : ℕ → ℕ
  pushed p = elim (origin ps g p) [ site ↦ 0 | through us ↦ length us | lost ↦ 0 ]

  -- The list holds what its members are computed from, with casts stripped.
  abbrev pub IsClosed : Type 0
  IsClosed =
      (p u : ℕ) (us : List ℕ)
      → member p all ≡ true
      → origin ps g p ≡ through us
      → member u us ≡ true
      → member (ps.strip u) all ≡ true

  sites_loop_ends :
      IsClosed
      → (k : ℕ) (sites seen ws : List ℕ)
      → ((u : ℕ) → member u ws ≡ true → member (ps.strip u) all ≡ true)
      → length ws + unseen pushed seen all < k
      → is_some (sites_loop ps g k sites seen ws) ≡ true
  unfolding sites_loop
  sites_loop_ends closed zero sites seen ws inv h = absurd (omega arith)
  sites_loop_ends closed (suc k) sites seen [] inv h = refl
  sites_loop_ends closed (suc k) sites seen (v ∷ ws) inv h =
      let p = ps.strip v in
      let hp : member (ps.strip v) all ≡ true = inv v (ground (arith, ==_refl v)) in
      let later : (u : ℕ) → member u ws ≡ true → member (ps.strip u) all ≡ true =
        λ u m. inv u (ground arith) in
      elim (Bool-cases (member (ps.strip v) seen)) [
        | inl s ↦
            let ih = sites_loop_ends closed k sites seen ws later (omega arith) in ground arith
        | inr s ↦
            let cheaper = unseen-visit pushed (ps.strip v) seen all hp s in
            elim (origin-cases ps g (ps.strip v)) [
              | is_site o ↦
                  let ih =
                    sites_loop_ends closed k (set_insert p sites) (p ∷ seen) ws later
                      (omega arith) in
                  ground arith
              | is_through us o ↦
                  let cost : pushed p ≡ length us = ground arith in
                  let longer = length-push_all us ws in
                  let ih =
                    sites_loop_ends closed k sites (p ∷ seen) (push_all us ws)
                      (λ u m. elim (Bool-cases (member u us)) [
                        | inl x ↦ closed p u us hp o x
                        | inr x ↦ later u (ground (arith, member-push_all u us ws))
                      ])
                      (omega arith) in
                  ground arith
              | is_lost o ↦ ground arith
            ]
      ]

  -- Where a pointer is computed from those of a list, getAllAllocSites of it ends within as many rounds
  -- as the list has members and they push pointers, and two more. Given remembered
  -- answers that are right, it gives exactly the allocation sites that the pointer may come from, or
  -- nothing if it may come from a pointer that is not known, and it remembers only right answers.
  pub get_all_alloc_sites_ends :
      (fuel ptr : ℕ) (cache : Cache)
      → IsClosed
      → 1 + unseen pushed [] all < fuel
      → member (ps.strip (ps.strip ptr)) all ≡ true
      → IsTraced ps g cache
      → (r : MaybeAllocSites) × (cache' : Cache) × (get_all_alloc_sites ps g fuel ptr cache
          ≡ some (r, cache'))
        × Traced ps g (ps.strip (ps.strip ptr)) r
        × IsTraced ps g cache'
  unfolding get_all_alloc_sites
  get_all_alloc_sites_ends fuel ptr cache closed h m ok =
      elim (Option-cases (get_all_alloc_sites ps g fuel ptr cache)) [
        | inr ((r, cache'), e) ↦
            let (t, ok') = get_all_alloc_sites-Traced ps g fuel ptr cache cache' r ok e in
            (r, cache', e, t, ok')
        | inl e ↦
            let ended =
              sites_loop_ends closed fuel [] [] (ps.strip ptr ∷ [])
                (λ u n. elim (Bool-cases (ps.strip ptr == u)) [
                  | inl e' ↦ let same : ps.strip ptr ≡ u = ==→≡ (ps.strip ptr) u e' in cc (same, m)
                  | inr e' ↦ absurd (ground arith)
                ])
                h in
            absurd (elim (Option-cases (lookup (ps.strip ptr) cache)) [
              | inl x ↦ elim (Option-cases (sites_loop ps g fuel [] [] (ps.strip ptr ∷ []))) [
                | inl y ↦ ground arith
                | inr (z, y) ↦ ground arith
              ]
              | inr (y, x) ↦ ground arith
            ])
      ]
