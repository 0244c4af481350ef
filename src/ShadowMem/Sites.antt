-- ===== src/ShadowMem/Sites.antt =====
-- getAllAllocSites of lib/seadsa/ShadowMem.cc: where a pointer comes from.
pub mod Origins
pub mod Ends
use sea_dsa.Common.{
  ℕ, zero, suc, true, false, Option, none, some, List, [], ◌∷◌, lookup, put, member, reverse,
  set_insert, push_all, if◌then◌else◌,
}
use sea_dsa.Graph.{Graph}
use sea_dsa.Graph.Table.{has_alloc_site}

-- The kinds of pointers that the walk tells apart: `root` is an alloca, an argument or a global.
pub data Pointer : Type 0 where
  root : Pointer
  call : Pointer
  gep : (pointer : ℕ) → Pointer
  phi : (incoming : List ℕ) → Pointer
  select : (true_value false_value : ℕ) → Pointer
  other : Pointer

-- What is read of LLVM: stripPointerCastsForAliasAnalysis, and the pointers.
pub record Pointers : Type 0 where
  pub strip : ℕ → ℕ
  pub pointer : ℕ → Pointer

-- What the walk does at a pointer: it is an allocation site, the walk goes on with others, in the
-- order in which they are pushed, or it gives up.
pub data Origin : Type 0 where
  site : Origin
  through : List ℕ → Origin
  lost : Origin

-- MaybeAllocSites and AllocSitesCache
abbrev pub MaybeAllocSites : Type 0
MaybeAllocSites = Option (List ℕ)

abbrev pub Cache : Type 0
Cache = List (ℕ × MaybeAllocSites)

module _ (ps : Pointers) (g : Graph) where
  unfoldable pub origin : ℕ → Origin
  unfolding has_alloc_site
  origin v = elim (ps.pointer v) [
    | root ↦ site
    | call ↦ if has_alloc_site g v then site else lost
    | gep p ↦ through (p ∷ [])
    | phi vs ↦ through (reverse vs)
    | select a b ↦ through (b ∷ a ∷ [])
    | other ↦ lost
  ]

  -- The head of the worklist is its back; `none` is out of fuel.
  unfoldable pub sites_loop : ℕ → (sites seen worklist : List ℕ) → Option MaybeAllocSites
  unfolding origin
  sites_loop zero sites seen ws = none
  sites_loop (suc k) sites seen [] = some (some sites)
  sites_loop (suc k) sites seen (v ∷ ws) = elim (member (ps.strip v) seen) [
    | true ↦ sites_loop k sites seen ws
    | false ↦ elim (origin (ps.strip v)) [
      | site ↦ sites_loop k (set_insert (ps.strip v) sites) (ps.strip v ∷ seen) ws
      | through us ↦ sites_loop k sites (ps.strip v ∷ seen) (push_all us ws)
      | lost ↦ some none
    ]
  ]

  unfoldable pub get_all_alloc_sites : ℕ → (ptr : ℕ) → Cache → Option (MaybeAllocSites × Cache)
  unfolding sites_loop
  get_all_alloc_sites fuel ptr cache =
      let p = ps.strip ptr in
      elim (lookup p cache) [
        | some sites ↦ some (sites, cache)
        | none ↦ elim (sites_loop fuel [] [] (p ∷ [])) [
          | none ↦ none
          | some sites ↦ some (sites, put p sites cache)
        ]
      ]
