-- ===== src/Global/Dependencies.antt =====
-- CallGraphWrapper::buildDependencies of lib/seadsa/CallGraphWrapper.cc: the call sites to look at
-- again when the graph of a function changes. The components of the call graph, and the functions of
-- each, come in the order in which LLVM gives them.
pub mod Complete
use sea_dsa.Common.{
  ℕ, Bool, true, false, Option, none, some, List, [], ◌∷◌, ◌++◌, lookup, put, member, if◌then◌else◌,
}

-- `sites` are the call sites in the body of a function that getDsaCallSite accepts.
pub record CallGraph : Type 0 where
  pub has_body : ℕ → Bool
  pub sites : ℕ → List ℕ
  pub callee : ℕ → ℕ

abbrev pub SiteMap : Type 0
SiteMap = List (ℕ × List ℕ)

-- CallSiteSet, a vector: insert of one call site and of a range
abbrev pub insert : ℕ → List ℕ → List ℕ
insert e s = if member e s then s else s ++ (e ∷ [])

abbrev pub insert_range : List ℕ → List ℕ → List ℕ
insert_range [] s = s
insert_range (e ∷ es) s = insert_range es (insert e s)

-- callers[fn], empty for a function that is no key
abbrev pub sites_at : ℕ → SiteMap → List ℕ
sites_at f m = elim (lookup f m) [ none ↦ [] | some s ↦ s ]

module _ (cg : CallGraph) where
  -- insertCallers
  unfoldable pub insert_caller : ℕ → SiteMap → SiteMap
  insert_caller e m = put (cg.callee e) (insert e (sites_at (cg.callee e) m)) m

  -- The loops that fill `callers`.
  unfoldable pub callers_of_sites : List ℕ → SiteMap → SiteMap
  unfolding insert_caller
  callers_of_sites [] m = m
  callers_of_sites (e ∷ es) m = callers_of_sites es (insert_caller e m)

  unfoldable pub callers_of_functions : List ℕ → SiteMap → SiteMap
  unfolding callers_of_sites
  callers_of_functions [] m = m
  callers_of_functions (f ∷ fs) m =
      callers_of_functions fs (if cg.has_body f then callers_of_sites (cg.sites f) m else m)

  unfoldable pub callers : List (List ℕ) → SiteMap → SiteMap
  unfolding callers_of_functions
  callers [] m = m
  callers (c ∷ cs) m = callers cs (callers_of_functions c m)

  -- What the functions of a component share, from the call sites of each.
  unfoldable pub shared : (ℕ → List ℕ) → List ℕ → List ℕ → List ℕ
  shared of [] s = s
  shared of (f ∷ fs) s = shared of fs (if cg.has_body f then insert_range (of f) s else s)

  unfoldable pub store : List ℕ → List ℕ → SiteMap → SiteMap
  store [] s m = m
  store (f ∷ fs) s m = store fs s (if cg.has_body f then put f s m else m)

  unfoldable pub share_components : (ℕ → List ℕ) → List (List ℕ) → SiteMap → SiteMap
  unfolding shared store
  share_components of [] m = m
  share_components of (c ∷ cs) m = share_components of cs (store c (shared of c []) m)

  -- m_uses and m_defs
  unfoldable pub build_uses : List (List ℕ) → SiteMap
  unfolding share_components callers
  build_uses cs = share_components (λ f. sites_at f (callers cs [])) cs []

  unfoldable pub build_defs : List (List ℕ) → SiteMap
  unfolding share_components
  build_defs cs = share_components cg.sites cs []
