-- ===== src/Global/Dependencies/Complete.antt =====
-- buildDependencies of lib/seadsa/CallGraphWrapper.cc: every call site is found again.
use sea_dsa.Common.{
  ℕ, ◌≡◌, refl, Bool, true, false, ◌&&◌, ◌||◌, some, List, [], ◌∷◌, ◌==◌, arith, inl, inr,
  Bool-cases, lookup, put, lookup-put, member, if◌then◌else◌, ==→≡, ==_refl, ◌⊎◌,
}
use sea_dsa.Global.Worklist.Laws.{member-append}
use sea_dsa.Global.Dependencies.{
  CallGraph, SiteMap, insert, insert_range, sites_at, insert_caller, callers_of_sites,
  callers_of_functions, callers, shared, store, share_components, build_uses, build_defs,
}

-- Whether a function is in one of the components.
abbrev pub in_component : ℕ → List (List ℕ) → Bool
in_component f [] = false
in_component f (c ∷ cs) = member f c || in_component f cs

member-insert : (b e : ℕ) (s : List ℕ) → member b (insert e s) ≡ ((e == b) || member b s)
member-insert b e s =
    ground (arith, member-append b s (e ∷ []), λ (q : (e == b) ≡ true). ==→≡ e b q)

member-insert_range :
    (b : ℕ) (es s : List ℕ) → member b (insert_range es s) ≡ (member b es || member b s)
member-insert_range b [] s = refl
member-insert_range b (e ∷ es) s =
    ground (arith, member-insert_range b es (insert e s), member-insert b e s)

module _ (cg : CallGraph) where
  sites_at-insert_caller :
      (b f e : ℕ) (m : SiteMap)
      → member b (sites_at f (insert_caller cg e m))
        ≡ (((cg.callee e == f) && (e == b)) || member b (sites_at f m))
  unfolding insert_caller
  sites_at-insert_caller b f e m =
      let c = cg.callee e in
      elim (Bool-cases (c == f)) [
        | inl same ↦
            let same' : c ≡ f = ==→≡ c f same in
            ground (
              arith,
              lookup-put c f (insert e (sites_at c m)) m,
              member-insert b e (sites_at c m),
              same',
            )
        | inr other ↦ ground (arith, lookup-put c f (insert e (sites_at c m)) m)
      ]

  callers_of_sites-member :
      (b f : ℕ) (es : List ℕ) (m : SiteMap)
      → ((member b es && (cg.callee b == f)) || member b (sites_at f m)) ≡ true
      → member b (sites_at f (callers_of_sites cg es m)) ≡ true
  unfolding callers_of_sites
  callers_of_sites-member b f [] m h = ground arith
  callers_of_sites-member b f (e ∷ es) m h =
      callers_of_sites-member b f es (insert_caller cg e m)
        (ground (arith, sites_at-insert_caller b f e m, λ (q : (e == b) ≡ true). ==→≡ e b q))

  -- A call site of a function `g` with a body, which calls `f`.
  abbrev Calls : (b f g : ℕ) → Type 0
  Calls b f g =
      (cg.has_body g ≡ true) × (member b (cg.sites g) ≡ true) × ((cg.callee b == f) ≡ true)

  callers_of_functions-member :
      (b f g : ℕ) (gs : List ℕ) (m : SiteMap)
      → Calls b f g
      → (member g gs || member b (sites_at f m)) ≡ true
      → member b (sites_at f (callers_of_functions cg gs m)) ≡ true
  unfolding callers_of_functions
  callers_of_functions-member b f g [] m site h = ground arith
  callers_of_functions-member b f g (x ∷ gs) m (body, site, calls) h =
      callers_of_functions-member b f g gs
        (if cg.has_body x then callers_of_sites cg (cg.sites x) m else m) (body, site, calls)
        (elim (Bool-cases (x == g)) [
          | inl same ↦
              let same' : x ≡ g = ==→≡ x g same in
              let body' : cg.has_body x ≡ true = cc (same', body) in
              let site' : member b (cg.sites x) ≡ true = cc (same', site) in
              ground (arith, callers_of_sites-member b f (cg.sites x) m)
          | inr other ↦ ground (arith, callers_of_sites-member b f (cg.sites x) m)
        ])

  callers-member :
      (b f g : ℕ) (cs : List (List ℕ)) (m : SiteMap)
      → Calls b f g
      → (in_component g cs || member b (sites_at f m)) ≡ true
      → member b (sites_at f (callers cg cs m)) ≡ true
  unfolding callers
  callers-member b f g [] m site h = ground arith
  callers-member b f g (c ∷ cs) m site h =
      callers-member b f g cs (callers_of_functions cg c m) site
        (ground (arith, callers_of_functions-member b f g c m site))

  shared-member :
      (of : ℕ → List ℕ) (b f : ℕ) (fs s : List ℕ)
      → cg.has_body f ≡ true
      → member b (of f) ≡ true
      → (member f fs || member b s) ≡ true
      → member b (shared cg of fs s) ≡ true
  unfolding shared
  shared-member of b f [] s body has h = ground arith
  shared-member of b f (x ∷ fs) s body has h =
      shared-member of b f fs (if cg.has_body x then insert_range (of x) s else s) body has
        (elim (Bool-cases (x == f)) [
          | inl same ↦
              let same' : x ≡ f = ==→≡ x f same in
              let body' : cg.has_body x ≡ true = cc (same', body) in
              let has' : member b (of x) ≡ true = cc (same', has) in
              ground (arith, member-insert_range b (of x) s)
          | inr other ↦ ground (arith, member-insert_range b (of x) s)
        ])

  lookup-store :
      (f : ℕ) (fs s : List ℕ) (m : SiteMap)
      → cg.has_body f ≡ true
      → lookup f (store cg fs s m) ≡ (if member f fs then some s else lookup f m)
  unfolding store
  lookup-store f [] s m body = refl
  lookup-store f (x ∷ fs) s m body = elim (Bool-cases (x == f)) [
    | inl same ↦
        let same' : x ≡ f = ==→≡ x f same in
        let body' : cg.has_body x ≡ true = cc (same', body) in
        ground (arith, lookup-store f fs s (put x s m) body, lookup-put x f s m)
    | inr other ↦ ground (
      arith,
      lookup-store f fs s (if cg.has_body x then put x s m else m) body,
      lookup-put x f s m,
    )
  ]

  -- The entry of a function holds a call site.
  abbrev pub Holds : (m : SiteMap) (f b : ℕ) → Type 0
  Holds m f b = (s : List ℕ) × (lookup f m ≡ some s) × (member b s ≡ true)

  share_components-Holds :
      (of : ℕ → List ℕ) (b f : ℕ) (cs : List (List ℕ)) (m : SiteMap)
      → cg.has_body f ≡ true
      → member b (of f) ≡ true
      → (in_component f cs ≡ true) ⊎ Holds m f b
      → Holds (share_components cg of cs m) f b
  unfolding share_components
  share_components-Holds of b f [] m body has (inl h) = absurd (ground arith)
  share_components-Holds of b f [] m body has (inr h) = h
  share_components-Holds of b f (c ∷ cs) m body has h =
      let s = shared cg of c [] in
      let look = lookup-store f c s m body in
      share_components-Holds of b f cs (store cg c s m) body has (elim (Bool-cases (member f c)) [
        | inl here ↦ inr (s, ground arith, shared-member of b f c [] body has (ground arith))
        | inr there ↦ elim h [
          | inl more ↦ inl (ground arith)
          | inr (s', p, q) ↦ inr (s', ground arith, q)
        ]
      ])

  -- A call site in a function with a body is among the definitions of this function, and, where its
  -- callee has a body too, among the uses of its callee, if both are in components of the call graph.
  pub build_uses-build_defs :
      (cs : List (List ℕ)) (e g : ℕ)
      → cg.has_body g ≡ true
      → member e (cg.sites g) ≡ true
      → in_component g cs ≡ true
      → cg.has_body (cg.callee e) ≡ true
      → in_component (cg.callee e) cs ≡ true
      → Holds (build_defs cg cs) g e × Holds (build_uses cg cs) (cg.callee e) e
  unfolding build_uses build_defs
  build_uses-build_defs cs e g body site at body' at' =
      let f = cg.callee e in
      (
        share_components-Holds cg.sites e g cs [] body site (inl at),
        share_components-Holds (λ h. sites_at h (callers cg cs [])) e f cs [] body'
            (callers-member e f g cs [] (body, site, ==_refl f) (ground arith)) (inl at'),
      )
