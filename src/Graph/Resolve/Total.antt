-- ===== src/Graph/Resolve/Total.antt =====
-- Cell::getNode of lib/seadsa/Graph.cc, in graphs whose forwarding pointers form no cycle.
use sea_dsa.Common.{
  ℕ, zero, suc, ◌≤◌, ◌<◌, Bool-cases, Option-cases, true, false, some, ◌≡◌, ◌⊎◌, inl, inr, arith,
  lookup, is_some, length,
}
use sea_dsa.Graph.{Cell, Node, Graph, ok, is_null}
use sea_dsa.Graph.Resolve.{shift, find, enough, resolve_cell}
use sea_dsa.Graph.Resolve.Compression.{Keeps, Root, find-Root, find-is_null, resolve-find}

-- Forwarding pointers lead to nodes of the graph, and down in rank, which is at most the number of
-- the nodes.
pub record IsOrdered (g : Graph) (rank : ℕ → ℕ) : Type 0 where
  pub short : (n : ℕ) → rank n ≤ length g.nodes
  pub falls :
      (n : ℕ) (nd : Node)
      → lookup n g.nodes ≡ some nd
      → (is_null nd.forward ≡ true)
        ⊎ (m : ℕ) × (nd.forward.node ≡ some m)
          × (is_some (lookup m g.nodes) ≡ true)
          × (rank m < rank n)

module _ (g : Graph) (rank : ℕ → ℕ) (ordered : IsOrdered g rank) where
  pub find_total :
      (k n : ℕ) (c : Cell)
      → c.node ≡ some n
      → is_some (lookup n g.nodes) ≡ true
      → rank n < k
      → (r : Cell) × (find k g c ≡ some r)
  unfolding find
  find_total zero n c e p h = absurd (omega arith)
  find_total (suc k) n c e p h = elim (Option-cases (lookup n g.nodes)) [
    | inl gone ↦ absurd (ground arith)
    | inr (nd, here) ↦ elim (ordered.falls n nd here) [
      | inl stop ↦ (c, ground arith)
      | inr (m, to, there, less) ↦
          let (r, ran) = find_total k m nd.forward to there (omega arith) in
          elim (Bool-cases (is_null nd.forward)) [
            | inl null ↦ absurd (ground arith)
            | inr on ↦ (shift r c.offset, ground arith)
          ]
    ]
  ]

  -- Where forwarding pointers lead to nodes of the graph and form no cycle, resolving a cell that
  -- points to a node of the graph ends at a node that is not forwarding, and the graph that it
  -- leaves answers every walk as before.
  pub resolve_cell-Root :
      (n : ℕ) (c : Cell)
      → c.node ≡ some n
      → is_some (lookup n g.nodes) ≡ true
      → (r : Cell) × (g' : Graph) × (resolve_cell c g ≡ ok r g')
        × Keeps g g'
        × (is_null r ≡ false)
        × Root g' r
  unfolding resolve_cell
  resolve_cell-Root n c e p =
      let (r, ran) = find_total (enough g) n c e p (omega (arith, ordered.short n)) in
      let (g', ok_now, kept) = resolve-find (enough g) g c r ran in
      (
        r,
        g',
        ok_now,
        kept,
        find-is_null (enough g) g c r ran (ground arith),
        find-Root (enough g) g' c r (kept.walks (enough g) c r ran),
      )
