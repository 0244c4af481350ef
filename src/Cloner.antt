-- ===== src/Cloner.antt =====
-- lib/seadsa/Cloner.cc and include/seadsa/Cloner.hh: copies of the nodes that a node reaches, made
-- in another graph; with the copy constructor of Node of lib/seadsa/Graph.cc.
use sea_dsa.Common.{
  ℕ, zero, suc, Bool, true, false, not, ◌&&◌, Option, none, some, List, [], ◌∷◌, ◌++◌, lookup, put,
  erase, ltb, ◌==◌, if◌then◌else◌, is_some, member, set_insert,
}
use sea_dsa.Llvm.{Llvm, is_alloca}
use sea_dsa.FieldType.{Field}
use sea_dsa.Graph.{
  Cell, cell, Node, Graph, M, pure, skip, fail, ok, out_of_fuel, assert, when, ◌>>=◌, ◌>>◌, load,
  modify, is_forwarding, is_null, fresh_node, push_node,
}
use sea_dsa.Graph.Offset.{node_of, set_link}
use sea_dsa.Graph.Types.{join_accessed_types}
use sea_dsa.Graph.Unify.{operations, unify_at}
use sea_dsa.Graph.Table.{mk_alloc_site, add_alloc_site}
use sea_dsa.Graph.Query.{place}
use sea_dsa.AllocSite.{import_call_paths}

-- CloningContext with its call, as the functions on both sides
pub data Context : Type 0 where
  unset : Context
  bottom_up : (caller callee : ℕ) → Context
  top_down : (caller callee : ℕ) → Context

pub record Options : Type 0 where
  pub strip_allocas : Bool
  -- -sea-dsa-no-single-as-opt
  pub no_single_as : Bool
  -- whether the two graphs are one and the same
  pub same_graph : Bool
  -- whether -sea-dsa-track-alloc-site names the site of a value
  pub tracked : ℕ → Bool
  -- isConstantNoPtr
  pub is_constant_no_ptr : ℕ → Bool
  -- m_has_once_unique_scalar of a copied node, which the copy constructor leaves uninitialised
  pub uninitialised : Bool

-- CachingLevel: 0 for SingleAllocSite, 1 for NoAllocas, 2 for Full
pub record Cloner : Type 0 where
  pub map : List (ℕ × (ℕ × ℕ))
  pub deferred : List (ℕ × List ℕ)

abbrev pub no_clones : Cloner
no_clones = record { map = []; deferred = [] }

-- DenseMap::insert, which keeps an entry that is there
abbrev insert_new : ℕ → ℕ × ℕ → List (ℕ × (ℕ × ℕ)) → List (ℕ × (ℕ × ℕ))
insert_new k v m = if is_some (lookup k m) then m else m ++ (k, v) ∷ []

-- m_deferredUnify[&n].insert(m)
abbrev defer : ℕ → ℕ → List (ℕ × List ℕ) → List (ℕ × List ℕ)
defer n m d = elim (lookup n d) [ none ↦ put n (m ∷ []) d | some s ↦ put n (set_insert m s) d ]

module _ (l : Llvm) (fuel : ℕ) (ctx : Context) (opts : Options) where
  -- Cloner::importCallPaths. The site to import from is looked up in the graph of the copy, so it
  -- is the site itself.
  unfoldable pub import_paths : ℕ → M (Unit {0})
  unfolding import_call_paths
  import_paths v g = elim (lookup v g.alloc_sites) [
    | none ↦ ok tt g
    | some ps ↦ elim ctx [
      | unset ↦ ok tt g
      | bottom_up caller callee ↦ ok tt (record g {
        alloc_sites =
            put v (import_call_paths (opts.tracked v) true caller callee ps ps) g.alloc_sites;
      })
      | top_down caller callee ↦ ok tt (record g {
        alloc_sites =
            put v (import_call_paths (opts.tracked v) false caller callee ps ps) g.alloc_sites;
      })
    ]
  ]

  -- Whether a site is one of those to copy.
  unfoldable pub wanted : Bool → Option ℕ → ℕ → Bool
  unfolding is_alloca
  wanted force only v =
      not (is_alloca l v && not force && opts.strip_allocas)
      && elim only [ none ↦ true | some w ↦ v == w ]

  -- Cloner::copyAllocationSites, with the sites of the node that is copied
  unfoldable pub copy_allocation_sites : List ℕ → ℕ → Bool → Option ℕ → M (Unit {0})
  unfolding wanted import_paths mk_alloc_site add_alloc_site
  copy_allocation_sites [] to force only = skip
  copy_allocation_sites (v ∷ vs) to force only = do
    nd ← load to
    when (wanted force only v && not (member v nd.alloca_sites))
        (do mk_alloc_site v; add_alloc_site to v; import_paths v)
    copy_allocation_sites vs to force only

  -- Graph::cloneNode with no allocation sites
  unfoldable pub clone_node : Node → M ℕ
  unfolding join_accessed_types
  clone_node nd = do
    assert (not (is_forwarding nd))
    n ← push_node (record (fresh_node l) {
      unique_scalar = nd.unique_scalar;
      has_once_unique_scalar = opts.uninitialised;
      size = nd.size;
      flags = nd.flags;
    })
    join_accessed_types l (operations l fuel) n 0 nd
    modify n (λ d. record d { flags = record d.flags { type_collapsed = not l.type_aware } })
    pure n

  -- for (Node *split : nodeSet) if (split != first) ..., from the first node
  unify_splits : ℕ → List ℕ → M ℕ
  unfolding unify_at node_of
  unify_splits first [] = pure first
  unify_splits first (split ∷ ss) =
      let rest = λ (n : ℕ). unify_splits n ss in
      if split == first then rest first else do
        a ← node_of split
        b ← node_of first
        unify_at l (operations l fuel) a b 0
        c ← node_of first
        rest c

  -- The copies of single allocation sites of `n` become one node.
  merge_deferred : Cloner → ℕ → Node → Bool → List ℕ → M (ℕ × Cloner)
  unfolding unify_splits copy_allocation_sites node_of
  merge_deferred c n nd force [] = fail
  merge_deferred c n nd force (s ∷ ss) = do
    first ← unify_splits s (s ∷ ss)
    r ← node_of first
    copy_allocation_sites nd.alloca_sites r force none
    r' ← node_of r
    pure (
      r',
      record {
        map = insert_new n (r, if opts.strip_allocas && not force then 1 else 2) c.map;
        deferred = erase n c.deferred;
      },
    )

  -- The level of caching of a call.
  abbrev level : Bool → Option ℕ → ℕ
  level force only = if is_some only then 0 else if opts.strip_allocas && not force then 1 else 2

  -- An entry of the cache.
  cached : Cloner → ℕ → Node → Bool → Option ℕ → ℕ × ℕ → M (ℕ × Cloner)
  unfolding copy_allocation_sites node_of
  cached c n nd force only (m, old) = do
    r ← node_of m
    when (ltb old (level force only)) (copy_allocation_sites nd.alloca_sites r force only)
    pure (r, record c { map = put n (m, level force only) c.map })

  module _ (from : Graph) where
    -- for (auto &kv : n.links()); `rec` is the call for the node behind a link
    clone_links : (Cloner → ℕ → M (ℕ × Cloner)) → Cloner → ℕ → List (Field × Cell) → M Cloner
    unfolding place set_link
    clone_links rec c m [] = pure c
    clone_links rec c m ((f, d) ∷ ls) =
        let rest = λ (c' : Cloner). clone_links rec c' m ls in
        if is_null d then rest c else elim (place from d) [
          | none ↦ fail
          | some p ↦ do (k, c') ← rec c p.address; set_link l m f (cell k p.raw); rest c'
        ]

    -- A node that has no copy yet.
    clone_new : (Cloner → ℕ → M (ℕ × Cloner)) → Cloner → ℕ → Node → Bool → Option ℕ → M (ℕ × Cloner)
    unfolding clone_node copy_allocation_sites clone_links node_of
    clone_new rec c n nd force only = do
      m ← clone_node nd
      modify m (λ d. record d { flags = record d.flags { foreign = true } })
      copy_allocation_sites nd.alloca_sites m force only
      let c' : Cloner =
          if is_some only
          then record c { deferred = defer n m c.deferred }
          else record c { map = insert_new n (m, level force only) c.map }
      if elim only [ none ↦ false | some v ↦ opts.is_constant_no_ptr v ]
          then pure (m, c')
          else do c'' ← clone_links rec c' m nd.links; r ← node_of m; pure (r, c'')

    -- Cloner::clone of the node at `n`, nested `k` deep at most
    unfoldable pub clone : ℕ → Cloner → ℕ → Bool → Option ℕ → M (ℕ × Cloner)
    unfolding merge_deferred cached clone_new
    clone zero c n force only = λ g. out_of_fuel
    clone (suc k) c n force only0 =
        let only = if opts.no_single_as then none else only0 in
        let rec = λ (c' : Cloner) (m : ℕ). clone k c' m false none in
        if opts.same_graph then pure (n, c) else elim (lookup n from.nodes) [
          | none ↦ fail
          | some nd ↦ elim (if is_some only then none else lookup n c.deferred) [
            | some ss ↦ merge_deferred c n nd force ss
            | none ↦ elim (lookup n c.map) [
              | some e ↦ cached c n nd force only e
              | none ↦ clone_new rec c n nd force only
            ]
          ]
        ]
