-- ===== src/Graph/Resolve/Ordered.antt =====
-- Cell::getNode of lib/seadsa/Graph.cc: shortening the paths introduces no cycle.
use sea_dsa.Common.{
  ℕ, zero, suc, ◌≤◌, ◌<◌, Bool-cases, Option-cases, true, false, some, ◌≡◌, inl, inr, arith, lookup,
  is_some, ◌∙◌, lookup-put, length-put, ◌==◌, ==→≡,
}
use sea_dsa.Graph.{Cell, Node, Graph, ok, is_null, set_node}
use sea_dsa.Graph.Resolve.{find, resolve}
use sea_dsa.Graph.Resolve.Compression.{
  Keeps, Keeps-refl, Keeps-trans, at_null, at_root, along, find-Walk, short-Keeps, resolve-root,
  resolve-along,
}
use sea_dsa.Graph.Resolve.Total.{IsOrdered}

module _ (rank : ℕ → ℕ) where
  -- The cell leads to a node of the graph, of rank at most `b`.
  abbrev Leads : Graph → Cell → ℕ → Type 0
  Leads g c b = (m : ℕ) × (c.node ≡ some m) × (is_some (lookup m g.nodes) ≡ true) × (rank m ≤ b)

  find-Leads :
      (k n : ℕ) (g : Graph) (c r : Cell)
      → IsOrdered g rank
      → find k g c ≡ some r
      → c.node ≡ some n
      → Leads g r (rank n)
  unfolding find
  find-Leads zero n g c r v h e = cc
  find-Leads (suc k) n g c r v h e = elim (find-Walk k g c r h) [
    | at_null e' p ↦ absurd (ground arith)
    | at_root n' nd e' here stop p ↦ (n', ground arith, ground arith, ground arith)
    | along n' nd t e' here on tail p ↦ elim (v.falls n' nd here) [
      | inl stop ↦ absurd (ground arith)
      | inr (m, to, there, less) ↦
          let (x, at, present, below) = find-Leads k m g nd.forward t v tail to in
          (x, ground arith, present, ground arith)
    ]
  ]

  -- A node that is forwarded to a node of smaller rank keeps the order.
  set-IsOrdered :
      (n : ℕ) (h : Graph) (md : Node) (t : Cell)
      → IsOrdered h rank
      → lookup n h.nodes ≡ some md
      → (m : ℕ) × (t.node ≡ some m) × (is_some (lookup m h.nodes) ≡ true) × (rank m < rank n)
      → IsOrdered (set_node n (record md { forward = t }) h) rank
  set-IsOrdered n h md t v at (m, to, there, less) = record {
    short = λ x. omega (arith, v.short x, length-put n (record md { forward = t }) md h.nodes at);
    falls = λ x xd here. elim (Bool-cases (n == x)) [
      | inl same ↦ inr (
        m,
        ground (arith, lookup-put n x (record md { forward = t }) h.nodes),
        ground (arith, lookup-put n m (record md { forward = t }) h.nodes),
        ground (arith, ==→≡ n x same),
      )
      | inr apart ↦
          elim (v.falls x xd (ground (arith, lookup-put n x (record md { forward = t }) h.nodes))) [
            | inl stop ↦ inl stop
            | inr (y, go, here', less') ↦
                inr
                  (y, go, ground (arith, lookup-put n y (record md { forward = t }) h.nodes), less')
          ]
    ];
  }

  -- The end of the walk from a forwarding node has smaller rank, and is still there afterwards.
  falls_to :
      (k n : ℕ) (g h : Graph) (nd : Node) (t : Cell)
      → IsOrdered g rank
      → lookup n g.nodes ≡ some nd
      → is_null nd.forward ≡ false
      → find k g nd.forward ≡ some t
      → Keeps g h
      → (m : ℕ) × (t.node ≡ some m) × (is_some (lookup m h.nodes) ≡ true) × (rank m < rank n)
  falls_to k n g h nd t v here on tail kept = elim (v.falls n nd here) [
    | inl stop ↦ absurd (ground arith)
    | inr (y, to, there, less) ↦
        let (m, at, present, below) = find-Leads k y g nd.forward t v tail to in
        elim (Option-cases (lookup m g.nodes)) [
          | inl gone ↦ absurd (ground arith)
          | inr (md, found) ↦
              let (md', found', same, null, walks) = kept.nodes m md found in
              (m, at, ground arith, omega arith)
        ]
  ]

  -- Where forwarding pointers lead to nodes of the graph and down in rank, and the walk from a cell
  -- ends within `k` steps, resolving the cell with fuel `k` leaves a graph whose forwarding pointers
  -- do so too, by the same ranks, with every walk as before.
  pub resolve-IsOrdered :
      (k : ℕ) (g : Graph) (c r : Cell)
      → IsOrdered g rank
      → find k g c ≡ some r
      → (g' : Graph) × (resolve k c g ≡ ok r g') × Keeps g g' × IsOrdered g' rank
  unfolding find
  resolve-IsOrdered zero g c r v h = cc
  resolve-IsOrdered (suc k) g c r v h = elim (find-Walk k g c r h) [
    | at_null e p ↦ (g, unfold resolve in ground arith, Keeps-refl g, v)
    | at_root n nd e here stop p ↦ (g, rw p (resolve-root k n g c nd e here stop), Keeps-refl g, v)
    | along n nd t e here on tail p ↦
        let (h', ran, kept, v') = resolve-IsOrdered k g nd.forward t v tail in
        let (md, at, same, null, walks) = kept.nodes n nd here in
        (
          set_node n (record md { forward = t }) h',
          rw p (resolve-along k n g c nd e here h' md t on ran at),
          Keeps-trans g h' _ kept (short-Keeps k n h' md t at (null ∙ on) (walks k t tail)),
          set-IsOrdered n h' md t v' at (falls_to k n g h' nd t v here on tail kept),
        )
  ]
