-- ===== src/Graph/Table/Laws.antt =====
-- Graph::mkCell and Graph::mkAllocSite of lib/seadsa/Graph.cc: what they change in the maps.
use sea_dsa.Common.{
  ℕ, suc, ◌+◌, true, false, ◌||◌, none, some, List, [], ◌∷◌, ◌++◌, ◌≡◌, refl, ap, inl, inr, arith,
  lookup, put, lookup-put, length-put, is_some, if◌then◌else◌, ==_refl, ◌==◌, length, length-append,
  set_insert,
}
use sea_dsa.Llvm.{Llvm, is_argument, is_global}
use sea_dsa.Graph.{
  Cell, cell, null_cell, Node, Graph, ok, set_node, modify, load, mk_node, fresh_node,
}
use sea_dsa.Graph.Resolve.{find, enough, resolve_cell}
use sea_dsa.Graph.Resolve.Compression.{Root, find-Root, resolve-find}
use sea_dsa.Graph.Table.{
  has_alloc_site, mk_alloc_site, add_alloc_site, entry, put_entry, marked, mark_scalar, mk_entry,
  mk_cell,
}

lookup-append :
    {V : Type 0} (k : ℕ) (m n : List (ℕ × V))
    → lookup k (m ++ n) ≡ (if is_some (lookup k m) then lookup k m else lookup k n)
lookup-append k [] n = refl
lookup-append k ((j, v) ∷ m) n = ground (arith, lookup-append k m n)

abbrev with_site : ℕ → Graph → Graph
with_site v g = record g {
  alloc_sites =
      if is_some (lookup v g.alloc_sites) then g.alloc_sites else g.alloc_sites ++ (v, []) ∷ [];
}

mk_alloc_site-ok : (v : ℕ) (g : Graph) → mk_alloc_site v g ≡ ok tt (with_site v g)
unfolding mk_alloc_site
mk_alloc_site-ok v g = ground arith

-- Making the site of a value leaves a site for it and for the values that had one, and making it
-- again changes nothing.
pub mk_alloc_site_twice :
    (v w : ℕ) (g : Graph)
    → (h : Graph) × (mk_alloc_site v g ≡ ok tt h)
      × (mk_alloc_site v h ≡ ok tt h)
      × (has_alloc_site h w ≡ ((v == w) || has_alloc_site g w))
unfolding mk_alloc_site
mk_alloc_site_twice v w g = (
  with_site v g,
  mk_alloc_site-ok v g,
  ground (arith, lookup-append v g.alloc_sites ((v, []) ∷ [])),
  ground (arith, lookup-append w g.alloc_sites ((v, []) ∷ [])),
)

module _ (l : Llvm) where
  entry-put_entry :
      (v : ℕ) (c : Cell) (g : Graph)
      → (h : Graph) × (put_entry l v c g ≡ ok tt h)
        × (h.nodes ≡ g.nodes)
        × ((w : ℕ) → entry l h w ≡ (if v == w then some c else entry l g w))
  unfolding put_entry entry
  entry-put_entry v c g = (
    (if is_argument l v
        then record g { formals = put v c g.formals }
        else record g { values = put v c g.values }),
    ground arith,
    ground arith,
    λ w. ground (arith, lookup-put v w c g.formals, lookup-put v w c g.values),
  )

  -- Marking the unique scalar of a node that is there touches no map of cells.
  mark_scalar-entry :
      (v : ℕ) (r : Cell) (g : Graph)
      → Root g r
      → (h : Graph) × (mark_scalar l v r g ≡ ok tt h) × ((w : ℕ) → entry l h w ≡ entry l g w)
  unfolding mark_scalar modify load entry
  mark_scalar-entry v r g (inl e) = (g, ground arith, λ w. refl)
  mark_scalar-entry v r g (inr (n, nd, e, here, stop)) =
      (set_node n (marked v r.offset nd) g, ground arith, λ w. refl)

  entry_of_rest :
      (g h : Graph) (w : ℕ) → h ≡ record g { nodes = h.nodes } → entry l h w ≡ entry l g w
  unfolding entry
  entry_of_rest g h w e = ap (λ (x : Graph). entry l x w) e

  -- A value with no entry gets the cell that it is given, with its forwarding resolved, provided
  -- that this cell's forwarding ends. The entries of all other values stay as they were.
  pub mk_entry_new :
      (v : ℕ) (c r : Cell) (g : Graph)
      → entry l g v ≡ none
      → find (enough g) g c ≡ some r
      → (h : Graph) × (mk_entry l v c g ≡ ok r h)
        × ((w : ℕ) → entry l h w ≡ (if v == w then some r else entry l g w))
  unfolding mk_entry resolve_cell
  mk_entry_new v c r g new ends =
      let (g1, ran, kept) = resolve-find (enough g) g c r ends in
      let (g2, put, nodes, look) = entry-put_entry v r g1 in
      let root : Root g1 r = find-Root (enough g) g1 c r (kept.walks (enough g) c r ends) in
      let root' : Root g2 r = rw nodes root in
      let (g3, marks, same) = mark_scalar-entry v r g2 root' in
      (g3, ground arith, λ w. ground (arith, same w, look w, entry_of_rest g g1 w kept.rest))

  abbrev sited_node : ℕ → Node → Node
  sited_node v nd = record nd { alloca_sites = set_insert v nd.alloca_sites }

  abbrev sited : ℕ → Graph → Node → ℕ → Graph
  sited v g nd n = set_node n (sited_node v nd) g

  add_alloc_site-ok :
      (v n : ℕ) (nd : Node) (g : Graph)
      → lookup n g.nodes ≡ some nd
      → add_alloc_site n v g ≡ ok tt (sited v g nd n)
  unfolding add_alloc_site modify
  add_alloc_site-ok v n nd g e = ground arith

  mk_node_tall :
      (g : Graph)
      → g.is_flat ≡ false
      → mk_node l g
        ≡ ok g.next (record g { nodes = g.nodes ++ (g.next, fresh_node l) ∷ []; next = suc g.next })
  unfolding mk_node
  mk_node_tall g e = ground arith

  mk_entry_old : (v : ℕ) (c r : Cell) (g : Graph) → entry l g v ≡ some r → mk_entry l v c g ≡ ok r g
  unfolding mk_entry
  mk_entry_old v c r g e = ground arith

  -- In a graph that is not flat and whose next address is fresh, mkCell with a null cell for a global
  -- that has an entry returns the entry and keeps every entry, but it makes one more node.
  pub mk_cell_again :
      (u : ℕ) (r : Cell) (g : Graph)
      → is_global l (l.strip u) ≡ true
      → entry l g (l.strip (l.strip u)) ≡ some r
      → g.is_flat ≡ false
      → lookup g.next g.nodes ≡ none
      → (h : Graph) × (mk_cell l u null_cell g ≡ ok r h)
        × (length h.nodes ≡ length g.nodes + 1)
        × ((w : ℕ) → entry l h w ≡ entry l g w)
  unfolding mk_cell
  mk_cell_again u r g is has tall fresh =
      let v = l.strip u in
      let g1 = record g { nodes = g.nodes ++ (g.next, fresh_node l) ∷ []; next = suc g.next } in
      let g2 = with_site v g1 in
      let there : lookup g.next g1.nodes ≡ some (fresh_node l) =
        ground
          (arith, lookup-append g.next g.nodes ((g.next, fresh_node l) ∷ []), ==_refl g.next) in
      (
        sited v g2 (fresh_node l) g.next,
        ground (
          arith,
          mk_node_tall g tall,
          mk_alloc_site-ok v g1,
          add_alloc_site-ok v g.next (fresh_node l) g2 there,
          mk_entry_old (l.strip v) (cell g.next 0) r (sited v g2 (fresh_node l) g.next) has,
        ),
        omega (
          arith,
          length-put g.next (sited_node v (fresh_node l)) (fresh_node l) g1.nodes there,
          length-append g.nodes ((g.next, fresh_node l) ∷ []),
        ),
        λ w. unfold entry in refl,
      )
