-- ===== src/ShadowMem/Clobber/Ends.antt =====
-- The loop of solveUses in lib/seadsa/ShadowMem.cc ends.
use sea_dsa.Common.{
  ℕ, zero, suc, ◌+◌, ◌<◌, ◌≡◌, ◌⊎◌, arith, inl, inr, true, false, ◌||◌, Bool-cases, Option-cases,
  Option, Bool, none, some, List, [], ◌==◌, lookup, member, unseen, any_of,
}
use sea_dsa.Llvm.{Llvm}
use sea_dsa.Graph.{Graph}
use sea_dsa.Graph.Query.{Place, place_offset}
use sea_dsa.ShadowMem.Fields.{Pseudo}
use sea_dsa.ShadowMem.Sites.{Pointers, Cache}
use sea_dsa.ShadowMem.Sites.Origins.{IsTraced}
use sea_dsa.ShadowMem.Sites.Ends.{pushed, IsClosed, get_all_alloc_sites_ends}
use sea_dsa.ShadowMem.Clobber.{
  MemOp, NoAlias, is_mem_init, offsets_apart, start_of, share_sites, may_clobber, find_def,
}
use sea_dsa.ShadowMem.Clobber.Skipped.{Skips, may_clobber-IsSkippable, find_def-Skips}

module _ (l : Llvm) (ps : Pointers) (g : Graph) (no_alias : NoAlias) (fuel : ℕ) (all : List ℕ)
    (closed : IsClosed ps g all) (enough : 1 + unseen (pushed ps g all) [] all < fuel) where
  share_sites_ends :
      (u d : ℕ) (cache : Cache)
      → member (ps.strip (ps.strip u)) all ≡ true
      → member (ps.strip (ps.strip d)) all ≡ true
      → IsTraced ps g cache
      → (b : Bool) × (cache' : Cache) × (share_sites ps g fuel u d cache ≡ some (b, cache'))
  unfolding share_sites
  share_sites_ends u d cache mu md ok =
      let (r, c1, e, t, ok1) = get_all_alloc_sites_ends ps g all fuel u cache closed enough mu ok in
      let (r', c2, e', t', ok2) =
        get_all_alloc_sites_ends ps g all fuel d c1 closed enough md ok1 in
      elim (Option-cases r) [
        | inl x ↦ (true, c1, ground arith)
        | inr (us, x) ↦ elim (Option-cases r') [
          | inl y ↦ (true, c2, ground arith)
          | inr (ds, y) ↦ (any_of (λ a. member a ds) us, c2, ground arith)
        ]
      ]

  -- The pointers of a definition and a use have cells of one node, and come from those of the list.
  pub record IsReady (defn user : Pseudo) (up dp : ℕ) : Type 0 where
    pub u : Place
    pub d : Place
    pub user_starts : start_of l g (ps.strip up) ≡ some u
    pub defn_starts : start_of l g (ps.strip dp) ≡ some d
    pub one_node : (u.address == d.address) ≡ true
    pub user_listed : member (ps.strip (ps.strip (ps.strip up))) all ≡ true
    pub defn_listed : member (ps.strip (ps.strip (ps.strip dp))) all ≡ true

  abbrev pub AreReady : (defn user : Pseudo) → Type 0
  AreReady defn user =
      (up dp : ℕ) → user.pointer ≡ some up → defn.pointer ≡ some dp → IsReady defn user up dp

  may_clobber_ends :
      (defn user : Pseudo) (cache : Cache)
      → AreReady defn user
      → IsTraced ps g cache
      → (b : Bool) × (cache' : Cache) × (may_clobber l ps g no_alias fuel defn user cache
          ≡ some (b, cache'))
  unfolding may_clobber
  may_clobber_ends defn user cache ready ok = elim (Bool-cases (is_mem_init defn.op)) [
    | inl e ↦ (true, cache, ground arith)
    | inr i ↦ elim (Option-cases user.pointer) [
      | inl e ↦ (true, cache, ground arith)
      | inr (up, eu) ↦ elim (Option-cases defn.pointer) [
        | inl e ↦ (true, cache, ground arith)
        | inr (dp, ed) ↦
            let r = ready up dp eu ed in
            let su = r.user_starts in
            let sd = r.defn_starts in
            let same = r.one_node in
            let apart =
              offsets_apart (place_offset r.u) (place_offset r.d) user.bytes defn.bytes
              || no_alias (ps.strip up) user.inst user.bytes (ps.strip dp) defn.inst defn.bytes in
            elim (Bool-cases apart) [
              | inl x ↦ (false, cache, ground arith)
              | inr x ↦
                  let (b, c, e) =
                    share_sites_ends (ps.strip up) (ps.strip dp) cache r.user_listed r.defn_listed
                      ok in
                  (b, c, ground arith)
            ]
      ]
    ]
  ]

  -- What the definitions before a use look like: each is ready, and leads to an earlier one or ends.
  pub record IsChain (rank : ℕ → ℕ) (ops : List (ℕ × MemOp)) (user : Pseudo) : Type 0 where
    pub ready : (d : ℕ) (o : MemOp) → lookup d ops ≡ some o → AreReady o.call user
    pub earlier :
        (d : ℕ) (o : MemOp)
        → lookup d ops ≡ some o
        → (o.used ≡ none)
          ⊎ (e : ℕ) × (p : MemOp) × (o.used ≡ some e) × (lookup e ops ≡ some p) × (rank e < rank d)

  find_def_result :
      (rank : ℕ → ℕ) (ops : List (ℕ × MemOp)) (user : Pseudo)
      → IsChain rank ops user
      → (k d : ℕ) (o : MemOp) (prev : Option ℕ) (cache : Cache) → lookup d ops ≡ some o
      → 1 + rank d < k
      → IsTraced ps g cache
      → (r : Option ℕ) × (cache' : Cache) × (find_def l ps g no_alias fuel k ops user
            (some d)
            prev
            cache
          ≡ some (r, cache'))
  unfolding find_def
  find_def_result rank ops user chain zero d o prev cache at h ok = absurd (omega arith)
  find_def_result rank ops user chain (suc zero) d o prev cache at h ok = absurd (omega arith)
  find_def_result rank ops user chain (suc (suc k)) d o prev cache at h ok =
      let (b, c, e) = may_clobber_ends o.call user cache (chain.ready d o at) ok in
      let (ok', _) = may_clobber-IsSkippable l ps g no_alias fuel o.call user cache c b ok e in
      elim (Bool-cases b) [
        | inl x ↦ (some d, c, ground arith)
        | inr x ↦ elim (chain.earlier d o at) [
          | inl last ↦ (some d, c, ground arith)
          | inr (d', o', is, at', less) ↦
              let (r, c', e') =
                find_def_result rank ops user chain (suc k) d' o' (some d) c at' (omega arith)
                  ok' in
              (r, c', ground arith)
        ]
      ]

  -- Along a chain of definitions that ends, whose pointers and that of the use have cells of one node
  -- and come from the pointers of a list, the loop of solveUses ends, given fuel for the rank of the
  -- definition and remembered answers that are right. It moves the use only past definitions that
  -- are not the first of their variable and whose ranges of bytes, from the offsets of the cells and with
  -- the ends counted in 32 bits, lie apart from those of the use, that LLVM keeps apart from it, or whose
  -- pointers come from known allocation sites of which the use has none.
  pub find_def_ends :
      (rank : ℕ → ℕ) (ops : List (ℕ × MemOp)) (user : Pseudo) (k d : ℕ) (o : MemOp)
      (prev : Option ℕ) (cache : Cache)
      → IsChain rank ops user
      → lookup d ops ≡ some o
      → 1 + rank d < k
      → IsTraced ps g cache
      → (r : Option ℕ) × (cache' : Cache) × (find_def l ps g no_alias fuel k ops user
            (some d)
            prev
            cache
          ≡ some (r, cache'))
        × IsTraced ps g cache'
        × Skips l ps g no_alias fuel ops user (some d) prev r
  find_def_ends rank ops user k d o prev cache chain at h ok =
      let (r, c, e) = find_def_result rank ops user chain k d o prev cache at h ok in
      let (ok', s) = find_def-Skips l ps g no_alias fuel k ops user (some d) prev r cache c ok e in
      (r, c, e, ok', s)
