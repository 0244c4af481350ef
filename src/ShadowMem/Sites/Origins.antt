-- ===== src/ShadowMem/Sites/Origins.antt =====
-- What getAllAllocSites of lib/seadsa/ShadowMem.cc finds.
use sea_dsa.Common.{
  ℕ, zero, suc, ◌≡◌, ◌⊎◌, refl, arith, inl, inr, true, Bool-cases, Option-cases, none, some, List,
  [], ◌∷◌, ◌==◌, ==→≡, ==_refl, lookup, put, lookup-put, subst, sym, ap, ◌∙◌, member, set_insert,
  member-set_insert, push_all, member-push_all,
}
use sea_dsa.Graph.{Graph}
use sea_dsa.ShadowMem.Sites.{
  Pointers, Origin, site, through, lost, MaybeAllocSites, Cache, origin, sites_loop,
  get_all_alloc_sites,
}

module _ (ps : Pointers) (g : Graph) where
  -- The pointers, with their casts stripped, that a pointer may be computed from, itself included.
  pub data From : ℕ → ℕ → Type 0 where
    here : {p : ℕ} → From p p
    step :
        {p q u : ℕ} {us : List ℕ}
        → origin ps g p ≡ through us
        → member u us ≡ true
        → From (ps.strip u) q
        → From p q

  From-trans : {p q r : ℕ} → From p q → From q r → From p r
  From-trans here b = b
  From-trans (step o m a) b = step o m (From-trans a b)

  -- What the answer for a pointer says: the sites are all it comes from, or one origin is not known.
  unfoldable pub Traced : (p : ℕ) → MaybeAllocSites → Type 0
  Traced p none = (q : ℕ) × From p q × (origin ps g q ≡ lost)
  Traced p (some sites) =
      (q : ℕ)
      → (From p q → origin ps g q ≡ lost → ⊥)
        × (From p q → origin ps g q ≡ site → member q sites ≡ true)
        × (member q sites ≡ true → From p q × (origin ps g q ≡ site))

  pub data Cases (v : ℕ) : Type 0 where
    is_site : origin ps g v ≡ site → Cases v
    is_through : (us : List ℕ) → origin ps g v ≡ through us → Cases v
    is_lost : origin ps g v ≡ lost → Cases v

  pub origin-cases : (v : ℕ) → Cases v
  origin-cases v = go (origin ps g v) refl
    where
      go : (o : Origin) → origin ps g v ≡ o → Cases v
      go site e = is_site e
      go (through us) e = is_through us e
      go lost e = is_lost e

  -- What holds of the sets while the walk from `p` runs.
  record IsWalk (p : ℕ) (sites seen ws : List ℕ) : Type 0 where
    seen_from : (q : ℕ) → member q seen ≡ true → From p q
    next_from : (v : ℕ) → member v ws ≡ true → From p (ps.strip v)
    sites_seen : (q : ℕ) → member q sites ≡ true → From p q × (origin ps g q ≡ site)
    known : (q : ℕ) → member q seen ≡ true → origin ps g q ≡ lost → ⊥
    listed : (q : ℕ) → member q seen ≡ true → origin ps g q ≡ site → member q sites ≡ true
    closed :
        (q u : ℕ) (us : List ℕ)
        → member q seen ≡ true
        → origin ps g q ≡ through us
        → member u us ≡ true
        → (member (ps.strip u) seen ≡ true) ⊎ (member u ws ≡ true)
    start : (member p seen ≡ true) ⊎ ((v : ℕ) × (member v ws ≡ true) × (ps.strip v ≡ p))

  module _ (p : ℕ) where
    IsWalk-start : (v : ℕ) → ps.strip v ≡ p → IsWalk p [] [] (v ∷ [])
    IsWalk-start v e = record {
      seen_from = λ q m. absurd (ground arith);
      next_from = λ w m. elim (Bool-cases (v == w)) [
        | inl e' ↦ let same : p ≡ ps.strip w = cc (==→≡ v w e', e) in subst (From p) same here
        | inr e' ↦ absurd (ground arith)
      ];
      sites_seen = λ q m. absurd (ground arith);
      known = λ q m. absurd (ground arith);
      listed = λ q m. absurd (ground arith);
      closed = λ q u us m. absurd (ground arith);
      start = inr (v, ground (arith, ==_refl v), e);
    }

    IsWalk-seen :
        (v : ℕ) (sites seen ws : List ℕ)
        → member (ps.strip v) seen ≡ true
        → IsWalk p sites seen (v ∷ ws)
        → IsWalk p sites seen ws
    IsWalk-seen v sites seen ws s w = record {
      seen_from = w.seen_from;
      sites_seen = w.sites_seen;
      known = w.known;
      listed = w.listed;
      next_from = λ u m. w.next_from u (ground arith);
      closed = λ q u us m o n. elim (w.closed q u us m o n) [
        | inl x ↦ inl x
        | inr x ↦ elim (Bool-cases (v == u)) [
          | inl e ↦ inl (cc (==→≡ v u e, s))
          | inr e ↦ inr (ground arith)
        ]
      ];
      start = elim w.start [
        | inl x ↦ inl x
        | inr (u, m, e) ↦ elim (Bool-cases (v == u)) [
          | inl e' ↦ inl (cc (==→≡ v u e', s, e))
          | inr e' ↦ inr (u, ground arith, e)
        ]
      ];
    }

    -- Seeing a pointer that is no lost one: what it is computed from is pushed.
    IsWalk-visit :
        (v : ℕ) (sites seen ws us : List ℕ)
        → ((u : ℕ) → member u us ≡ true → From p (ps.strip u))
        → ((a b : ℕ) (xs : List ℕ)
            → a ≡ ps.strip v
            → origin ps g a ≡ through xs
            → member b xs ≡ true
            → member b us ≡ true)
        → ((origin ps g (ps.strip v) ≡ lost) → ⊥)
        → ((origin ps g (ps.strip v) ≡ site) → member (ps.strip v) sites ≡ true)
        → IsWalk p sites seen (v ∷ ws)
        → IsWalk p sites (ps.strip v ∷ seen) (push_all us ws)
    IsWalk-visit v sites seen ws us new all found listed w = record {
      seen_from = λ q m. elim (Bool-cases (ps.strip v == q)) [
        | inl e ↦ subst (From p) (==→≡ (ps.strip v) q e) (w.next_from v (ground (arith, ==_refl v)))
        | inr e ↦ w.seen_from q (ground arith)
      ];
      next_from = λ u m. elim (Bool-cases (member u us)) [
        | inl x ↦ new u x
        | inr x ↦ w.next_from u (ground (arith, member-push_all u us ws))
      ];
      sites_seen = w.sites_seen;
      known = λ q m o. elim (Bool-cases (ps.strip v == q)) [
        | inl e ↦ found (cc (==→≡ (ps.strip v) q e, o))
        | inr e ↦ w.known q (ground arith) o
      ];
      listed = λ q m o. elim (Bool-cases (ps.strip v == q)) [
        | inl e ↦
            let same : ps.strip v ≡ q = ==→≡ (ps.strip v) q e in
            let is = listed (cc (same, o)) in cc (same, is)
        | inr e ↦ w.listed q (ground arith) o
      ];
      closed = λ q u xs m o n. elim (Bool-cases (ps.strip v == q)) [
        | inl e ↦
            let x = all q u xs (sym (==→≡ (ps.strip v) q e)) o n in
            inr (ground (arith, member-push_all u us ws))
        | inr e ↦ elim (w.closed q u xs (ground arith) o n) [
          | inl x ↦ inl (ground arith)
          | inr x ↦ elim (Bool-cases (v == u)) [
            | inl e' ↦
                let same : ps.strip v ≡ ps.strip u = ap (λ z. ps.strip z) (==→≡ v u e') in
                inl (ground (arith, ==_refl (ps.strip v), same))
            | inr e' ↦ inr (ground (arith, member-push_all u us ws))
          ]
        ]
      ];
      start = elim w.start [
        | inl x ↦ inl (ground arith)
        | inr (u, m, e) ↦ elim (Bool-cases (v == u)) [
          | inl e' ↦
              let same : ps.strip v ≡ p = ap (λ z. ps.strip z) (==→≡ v u e') ∙ e in
              inl (ground (arith, ==_refl (ps.strip v), same))
          | inr e' ↦ inr (u, ground (arith, member-push_all u us ws), e)
        ]
      ];
    }

    IsWalk-insert :
        (v : ℕ) (sites seen ws : List ℕ)
        → origin ps g (ps.strip v) ≡ site
        → IsWalk p sites seen (v ∷ ws)
        → IsWalk p (set_insert (ps.strip v) sites) seen (v ∷ ws)
    IsWalk-insert v sites seen ws o w = record {
      seen_from = w.seen_from;
      next_from = w.next_from;
      sites_seen = λ q m. elim (Bool-cases (ps.strip v == q)) [
        | inl e ↦
            let same : ps.strip v ≡ q = ==→≡ (ps.strip v) q e in
            (subst (From p) same (w.next_from v (ground (arith, ==_refl v))), cc (same, o))
        | inr e ↦ w.sites_seen q (ground (arith, member-set_insert (ps.strip v) q sites))
      ];
      known = w.known;
      listed =
          λ q m e. let x = w.listed q m e in ground (arith, member-set_insert (ps.strip v) q sites);
      closed = w.closed;
      start = w.start;
    }

    all_seen :
        (sites seen : List ℕ)
        → IsWalk p sites seen []
        → {a q : ℕ} → member a seen ≡ true
        → From a q
        → member q seen ≡ true
    all_seen sites seen w m here = m
    all_seen sites seen w {a = a} m (step {u = u} {us = us} o n f) = elim (w.closed a u us m o n) [
      | inl x ↦ all_seen sites seen w x f
      | inr x ↦ absurd (ground arith)
    ]

    IsWalk-end : (sites seen : List ℕ) → IsWalk p sites seen [] → Traced p (some sites)
    unfolding Traced
    IsWalk-end sites seen w q =
        let first : member p seen ≡ true = elim w.start [
          | inl x ↦ x
          | inr (v, m, e) ↦ absurd (ground arith)
        ] in
        (
          (λ f. w.known q (all_seen sites seen w first f)),
          (λ f. w.listed q (all_seen sites seen w first f)),
          w.sites_seen q,
        )

    sites_loop-Traced :
        (k : ℕ) (sites seen ws : List ℕ) (r : MaybeAllocSites)
        → IsWalk p sites seen ws
        → sites_loop ps g k sites seen ws ≡ some r
        → Traced p r
    unfolding sites_loop Traced
    sites_loop-Traced zero sites seen ws r w h = absurd (ground arith)
    sites_loop-Traced (suc k) sites seen [] r w h =
        let e : some sites ≡ r = ground arith in subst (Traced p) e (IsWalk-end sites seen w)
    sites_loop-Traced (suc k) sites seen (v ∷ ws) r w h =
        elim (Bool-cases (member (ps.strip v) seen)) [
          | inl s ↦
              sites_loop-Traced k sites seen ws r (IsWalk-seen v sites seen ws s w) (ground arith)
          | inr s ↦ elim (origin-cases (ps.strip v)) [
            | is_site o ↦
                sites_loop-Traced k (set_insert (ps.strip v) sites) (ps.strip v ∷ seen) ws r
                  (IsWalk-visit v (set_insert (ps.strip v) sites) seen ws []
                    (λ u m. absurd (ground arith)) (λ a b xs e o' m. absurd (cc (o, e, o')))
                    (λ o'. cc (o, o'))
                    (λ o'. ground (arith, member-set_insert (ps.strip v) (ps.strip v) sites))
                    (IsWalk-insert v sites seen ws o w))
                  (ground arith)
            | is_through us o ↦
                sites_loop-Traced k sites (ps.strip v ∷ seen) (push_all us ws) r
                  (IsWalk-visit v sites seen ws us
                    (λ u m. From-trans (w.next_from v (ground (arith, ==_refl v))) (step o m here))
                    (λ a b xs e o' m. (let same : xs ≡ us = cc (o, e, o') in cc (same, m)))
                    (λ o'. cc (o, o')) (λ o'. absurd (cc (o, o'))) w)
                  (ground arith)
            | is_lost o ↦
                let same : none ≡ r = ground arith in
                subst (Traced p) same (ps.strip v, w.next_from v (ground (arith, ==_refl v)), o)
          ]
        ]

  -- Each answer that is remembered is right.
  abbrev pub IsTraced : Cache → Type 0
  IsTraced cache = (p : ℕ) (r : MaybeAllocSites) → lookup p cache ≡ some r → Traced (ps.strip p) r

  -- getAllAllocSites, where it ends and given answers that are right, gives exactly the sites that
  -- the pointer may come from, or nothing if it may come from a pointer that is not known; and it
  -- remembers only right answers.
  pub get_all_alloc_sites-Traced :
      (fuel ptr : ℕ) (cache cache' : Cache) (r : MaybeAllocSites)
      → IsTraced cache
      → get_all_alloc_sites ps g fuel ptr cache ≡ some (r, cache')
      → Traced (ps.strip (ps.strip ptr)) r × IsTraced cache'
  unfolding get_all_alloc_sites
  get_all_alloc_sites-Traced fuel ptr cache cache' r ok h =
      elim (Option-cases (lookup (ps.strip ptr) cache)) [
        | inr (r', e) ↦
            let same : r' ≡ r = ground arith in
            let same' : cache ≡ cache' = ground arith in
            (
              subst (Traced (ps.strip (ps.strip ptr))) same (ok (ps.strip ptr) r' e),
              subst IsTraced same' ok,
            )
        | inl new ↦ elim (Option-cases (sites_loop ps g fuel [] [] (ps.strip ptr ∷ []))) [
          | inl e ↦ absurd (ground arith)
          | inr (r', e) ↦
              let same : r' ≡ r = ground arith in
              let same' : put (ps.strip ptr) r' cache ≡ cache' = ground arith in
              let t =
                sites_loop-Traced (ps.strip (ps.strip ptr)) fuel [] [] (ps.strip ptr ∷ []) r'
                  (IsWalk-start (ps.strip (ps.strip ptr)) (ps.strip ptr) refl) e in
              (
                subst (Traced (ps.strip (ps.strip ptr))) same t,
                subst IsTraced same' (λ p q l. elim (Bool-cases (ps.strip ptr == p)) [
                  | inl e' ↦
                      let at : ps.strip ptr ≡ p = ==→≡ (ps.strip ptr) p e' in
                      let is : r' ≡ q = ground (arith, lookup-put (ps.strip ptr) p r' cache) in
                      subst (λ x. Traced (ps.strip x) q) at
                        (subst (Traced (ps.strip (ps.strip ptr))) is t)
                  | inr e' ↦ ok p q (ground (arith, lookup-put (ps.strip ptr) p r' cache))
                ]),
              )
        ]
      ]
