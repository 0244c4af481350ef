-- ===== src/ShadowMem/Clobber/Skipped.antt =====
-- Past which definitions mayClobber and solveUses of lib/seadsa/ShadowMem.cc move a use.
use sea_dsa.Common.{
  ℕ, zero, suc, ◌+◌, ◌%◌, ◌^◌, ◌≤◌, leb, ◌≡◌, ◌⊎◌, refl, arith, inl, inr, subst, ap, Bool, true,
  false, Bool-cases, Option-cases, Option, none, some, List, [], ◌∷◌, ◌==◌, ==→≡, lookup, member,
  any_of,
}
use sea_dsa.Common.Words.{add32}
use sea_dsa.Llvm.{Llvm}
use sea_dsa.Graph.{Graph}
use sea_dsa.Graph.Query.{Place, place_offset}
use sea_dsa.ShadowMem.Fields.{Pseudo}
use sea_dsa.ShadowMem.Sites.{Pointers, site, lost, Cache, origin, get_all_alloc_sites}
use sea_dsa.ShadowMem.Sites.Origins.{From, Traced, IsTraced, get_all_alloc_sites-Traced}
use sea_dsa.ShadowMem.Clobber.{
  MemOp, NoAlias, is_mem_init, offsets_apart, start_of, share_sites, may_clobber, find_def,
}

member_twice :
    (q : ℕ) (us ds : List ℕ)
    → any_of (λ a. member a ds) us ≡ false
    → member q us ≡ true
    → member q ds ≡ true
    → ⊥
member_twice q [] ds h m n = absurd (ground arith)
member_twice q (u ∷ us) ds h m n = elim (Bool-cases (u == q)) [
  | inl e ↦
      let same : member u ds ≡ member q ds = ap (λ z. member z ds) (==→≡ u q e) in ground arith
  | inr e ↦ member_twice q us ds (ground arith) (ground arith) n
]

module _ (l : Llvm) (ps : Pointers) (g : Graph) (no_alias : NoAlias) (fuel : ℕ) where
  -- Two pointers come from known allocation sites only, and from none in common.
  pub record ComeApart (a b : ℕ) : Type 0 where
    pub known_a : (q : ℕ) → From ps g a q → origin ps g q ≡ lost → ⊥
    pub known_b : (q : ℕ) → From ps g b q → origin ps g q ≡ lost → ⊥
    pub none_shared : (q : ℕ) → From ps g a q → From ps g b q → origin ps g q ≡ site → ⊥

  -- The bytes of a definition at `d` end before those of a use at `u` begin, or the other way round,
  -- with the ends counted in 32 bits.
  abbrev pub BytesApart : (defn user : Pseudo) → (u d : Place) → Type 0
  BytesApart defn user u d =
      ((n : ℕ) × (defn.bytes ≡ some n) × ((place_offset d + n) % 2 ^ 32 ≤ place_offset u))
      ⊎ ((n : ℕ) × (user.bytes ≡ some n) × ((place_offset u + n) % 2 ^ 32 ≤ place_offset d))

  -- Why a use through `up` at `u` is moved past a definition through `dp` at `d`: their ranges of
  -- bytes lie apart as they are counted, or LLVM keeps them apart, or their allocation sites do.
  abbrev pub Reason : (defn user : Pseudo) → (up dp : ℕ) → (u d : Place) → Type 0
  Reason defn user up dp u d =
      BytesApart defn user u d
      ⊎ (no_alias (ps.strip up) user.inst user.bytes (ps.strip dp) defn.inst defn.bytes ≡ true)
      ⊎ ComeApart (ps.strip (ps.strip (ps.strip up))) (ps.strip (ps.strip (ps.strip dp)))

  -- A definition that is not the first of its variable, and a use, of one node, with such a reason.
  pub record IsSkippable (defn user : Pseudo) : Type 0 where
    pub up : ℕ
    pub dp : ℕ
    pub u : Place
    pub d : Place
    pub not_init : is_mem_init defn.op ≡ false
    pub user_is : user.pointer ≡ some up
    pub defn_is : defn.pointer ≡ some dp
    pub user_starts : start_of l g (ps.strip up) ≡ some u
    pub defn_starts : start_of l g (ps.strip dp) ≡ some d
    pub one_node : u.address ≡ d.address
    pub reason : Reason defn user up dp u d

  offsets_apart-BytesApart :
      (defn user : Pseudo) (u d : Place)
      → offsets_apart (place_offset u) (place_offset d) user.bytes defn.bytes ≡ true
      → BytesApart defn user u d
  unfolding offsets_apart
  offsets_apart-BytesApart defn user u d h = elim (Option-cases defn.bytes) [
    | inr (n, e) ↦ elim (Bool-cases (leb (add32 (place_offset d) n) (place_offset u))) [
      | inl before ↦ inl (n, e, ground arith)
      | inr late ↦ elim (Option-cases user.bytes) [
        | inr (m, e') ↦ inr (m, e', ground arith)
        | inl e' ↦ absurd (ground arith)
      ]
    ]
    | inl e ↦ elim (Option-cases user.bytes) [
      | inr (m, e') ↦ inr (m, e', ground arith)
      | inl e' ↦ absurd (ground arith)
    ]
  ]

  share_sites-ComeApart :
      (u d : ℕ) (cache cache' : Cache) (b : Bool)
      → IsTraced ps g cache
      → share_sites ps g fuel u d cache ≡ some (b, cache')
      → IsTraced ps g cache'
        × (b ≡ false → ComeApart (ps.strip (ps.strip u)) (ps.strip (ps.strip d)))
  unfolding share_sites Traced
  share_sites-ComeApart u d cache cache' b ok h =
      elim (Option-cases (get_all_alloc_sites ps g fuel u cache)) [
        | inl e ↦ absurd (ground arith)
        | inr ((none, c1), e) ↦
            let (t, ok1) = get_all_alloc_sites-Traced ps g fuel u cache c1 none ok e in
            let same : c1 ≡ cache' = ground arith in
            (subst (IsTraced ps g) same ok1, λ f. absurd (ground arith))
        | inr ((some us, c1), e) ↦
            let (t, ok1) = get_all_alloc_sites-Traced ps g fuel u cache c1 (some us) ok e in
            elim (Option-cases (get_all_alloc_sites ps g fuel d c1)) [
              | inl e' ↦ absurd (ground arith)
              | inr ((none, c2), e') ↦
                  let (t', ok2) = get_all_alloc_sites-Traced ps g fuel d c1 c2 none ok1 e' in
                  let same : c2 ≡ cache' = ground arith in
                  (subst (IsTraced ps g) same ok2, λ f. absurd (ground arith))
              | inr ((some ds, c2), e') ↦
                  let (t', ok2) = get_all_alloc_sites-Traced ps g fuel d c1 c2 (some ds) ok1 e' in
                  let same : c2 ≡ cache' = ground arith in
                  (
                    subst (IsTraced ps g) same ok2,
                    λ f.
                        let apart : any_of (λ a. member a ds) us ≡ false = ground arith in
                        record {
                          known_a = λ q. (t q).0;
                          known_b = λ q. (t' q).0;
                          none_shared =
                              λ q x y o. member_twice q us ds apart ((t q).1 x o) ((t' q).1 y o);
                        },
                  )
            ]
      ]

  pub may_clobber-IsSkippable :
      (defn user : Pseudo) (cache cache' : Cache) (b : Bool)
      → IsTraced ps g cache
      → may_clobber l ps g no_alias fuel defn user cache ≡ some (b, cache')
      → IsTraced ps g cache' × (b ≡ false → IsSkippable defn user)
  unfolding may_clobber
  may_clobber-IsSkippable defn user cache cache' b ok h =
      let unchanged : cache ≡ cache' → IsTraced ps g cache' = λ e. subst (IsTraced ps g) e ok in
      elim (Bool-cases (is_mem_init defn.op)) [
        | inl e ↦ (unchanged (ground arith), λ f. absurd (ground arith))
        | inr i ↦ elim (Option-cases user.pointer) [
          | inl e ↦ (unchanged (ground arith), λ f. absurd (ground arith))
          | inr (up, eu) ↦ elim (Option-cases defn.pointer) [
            | inl e ↦ (unchanged (ground arith), λ f. absurd (ground arith))
            | inr (dp, ed) ↦ elim (Option-cases (start_of l g (ps.strip up))) [
              | inl e ↦ absurd (ground arith)
              | inr (u, su) ↦ elim (Option-cases (start_of l g (ps.strip dp))) [
                | inl e ↦ absurd (ground arith)
                | inr (d, sd) ↦ elim (Bool-cases (u.address == d.address)) [
                  | inr e ↦ absurd (ground arith)
                  | inl same ↦
                      let skippable : Reason defn user up dp u d → IsSkippable defn user = λ r.
                        record {
                          up = up;
                          dp = dp;
                          u = u;
                          d = d;
                          not_init = i;
                          user_is = eu;
                          defn_is = ed;
                          user_starts = su;
                          defn_starts = sd;
                          one_node = ==→≡ u.address d.address same;
                          reason = r;
                        } in
                      let start =
                        offsets_apart (place_offset u) (place_offset d) user.bytes defn.bytes in
                      let alias =
                        no_alias (ps.strip up) user.inst user.bytes (ps.strip dp) defn.inst
                          defn.bytes in
                      elim (Bool-cases start) [
                        | inl x ↦ (
                          unchanged (ground arith),
                          λ f. skippable (inl (offsets_apart-BytesApart defn user u d x)),
                        )
                        | inr x ↦ elim (Bool-cases alias) [
                          | inl y ↦ (unchanged (ground arith), λ f. skippable (inr (inl y)))
                          | inr y ↦
                              let (ok', far) =
                                share_sites-ComeApart (ps.strip up) (ps.strip dp) cache cache' b ok
                                  (ground arith) in
                              (ok', λ f. skippable (inr (inr (far f))))
                        ]
                      ]
                ]
              ]
            ]
          ]
        ]
      ]

  -- The definitions that lead from `d` to `r` are all such that the use is moved past them: `r` is one that is
  -- reached, or the last one, which is `prev` if there is none.
  pub data Skips (ops : List (ℕ × MemOp)) (user : Pseudo)
      : Option ℕ → Option ℕ → Option ℕ → Type 0 where
    stop : {d : ℕ} {prev : Option ℕ} → Skips ops user (some d) prev (some d)
    last : {prev : Option ℕ} → Skips ops user none prev prev
    skip :
        {d : ℕ} {prev r : Option ℕ} (o : MemOp)
        → lookup d ops ≡ some o
        → IsSkippable o.call user
        → Skips ops user o.used (some d) r
        → Skips ops user (some d) prev r

  -- The loop of solveUses, where it ends and given answers of getAllAllocSites that are right, moves
  -- a use only past definitions of that kind.
  pub find_def-Skips :
      (k : ℕ) (ops : List (ℕ × MemOp)) (user : Pseudo) (d prev r : Option ℕ) (cache cache' : Cache)
      → IsTraced ps g cache
      → find_def l ps g no_alias fuel k ops user d prev cache ≡ some (r, cache')
      → IsTraced ps g cache' × Skips ops user d prev r
  unfolding find_def
  find_def-Skips zero ops user d prev r cache cache' ok h = absurd (ground arith)
  find_def-Skips (suc k) ops user none prev r cache cache' ok h =
      let same : prev ≡ r = ground arith in
      let same' : cache ≡ cache' = ground arith in
      (subst (IsTraced ps g) same' ok, subst (Skips ops user none prev) same last)
  find_def-Skips (suc k) ops user (some d) prev r cache cache' ok h =
      elim (Option-cases (lookup d ops)) [
        | inl e ↦ absurd (ground arith)
        | inr (o, e) ↦ elim (Option-cases (may_clobber l ps g no_alias fuel o.call user cache)) [
          | inl e' ↦ absurd (ground arith)
          | inr ((true, c1), e') ↦
              let (ok1, _) = may_clobber-IsSkippable o.call user cache c1 true ok e' in
              let same : some d ≡ r = ground arith in
              let same' : c1 ≡ cache' = ground arith in
              (subst (IsTraced ps g) same' ok1, subst (Skips ops user (some d) prev) same stop)
          | inr ((false, c1), e') ↦
              let (ok1, far) = may_clobber-IsSkippable o.call user cache c1 false ok e' in
              let (ok2, rest) =
                find_def-Skips k ops user o.used (some d) r c1 cache' ok1 (ground arith) in
              (ok2, skip o e (far refl) rest)
        ]
      ]
