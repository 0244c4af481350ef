-- ===== src/Graph/Compress/Values.antt =====
-- Graph::compress of lib/seadsa/Graph.cc: how it resolves the cells of one map of the graph.
use sea_dsa.Common.{
  ℕ, Option-cases, true, some, List, [], ◌∷◌, ◌≡◌, ◌⊎◌, inl, inr, arith, lookup, is_some, refl,
}
use sea_dsa.Graph.{Cell, Graph, ok, is_null}
use sea_dsa.Graph.Resolve.{find, enough, resolve_cell}
use sea_dsa.Graph.Resolve.Compression.{Keeps, Keeps-refl, Keeps-trans, find_unique}
use sea_dsa.Graph.Resolve.Total.{IsOrdered, find_total}
use sea_dsa.Graph.Resolve.Ordered.{resolve-IsOrdered}
use sea_dsa.Graph.Compress.{resolve_values}

-- The cell is null or points to a node of the graph.
abbrev pub Leads : Graph → Cell → Type 0
Leads g c = (is_null c ≡ true) ⊎ (n : ℕ) × (c.node ≡ some n) × (is_some (lookup n g.nodes) ≡ true)

abbrev pub AllLead : {K : Type 0} → Graph → List (K × Cell) → Type 0
AllLead g [] = Unit
AllLead g ((k, c) ∷ cs) = Leads g c × AllLead g cs

-- The same keys, each with the end of the walk from its cell in `g`.
abbrev pub Ends : {K : Type 0} → Graph → List (K × Cell) → List (K × Cell) → Type 0
Ends g [] [] = Unit
Ends g [] (_ ∷ rs) = ⊥
Ends g (_ ∷ cs) [] = ⊥
Ends g ((k, c) ∷ cs) ((j, r) ∷ rs) = (j ≡ k) × (find (enough g) g c ≡ some r) × Ends g cs rs

module _ (rank : ℕ → ℕ) where
  ends :
      (g : Graph) (c : Cell)
      → IsOrdered g rank
      → Leads g c
      → (r : Cell) × (find (enough g) g c ≡ some r)
  unfolding find
  ends g c v (inl null) = (c, ground arith)
  ends g c v (inr (n, e, p)) = find_total g rank v (enough g) n c e p (omega (arith, v.short n))

  Leads-Keeps : (g h : Graph) (c : Cell) → Keeps g h → Leads g c → Leads h c
  Leads-Keeps g h c kept (inl null) = inl null
  Leads-Keeps g h c kept (inr (n, e, p)) = elim (Option-cases (lookup n g.nodes)) [
    | inl gone ↦ absurd (ground arith)
    | inr (nd, found) ↦
        let (md, found', same, null, walks) = kept.nodes n nd found in inr (n, e, ground arith)
  ]

  AllLead-Keeps :
      {K : Type 0} → (g h : Graph) (cs : List (K × Cell)) → Keeps g h → AllLead g cs → AllLead h cs
  AllLead-Keeps g h [] kept a = tt
  AllLead-Keeps g h ((k, c) ∷ cs) kept a =
      (Leads-Keeps g h c kept a.0, AllLead-Keeps g h cs kept a.1)

  -- What the walks answer after the change they answered before.
  Ends-Keeps :
      {K : Type 0}
      → (g h : Graph) (cs rs : List (K × Cell)) → IsOrdered g rank
      → Keeps g h
      → AllLead g cs
      → Ends h cs rs
      → Ends g cs rs
  Ends-Keeps g h [] [] v kept a e = tt
  Ends-Keeps g h [] (_ ∷ rs) v kept a e = elim e [ ]
  Ends-Keeps g h (_ ∷ cs) [] v kept a e = elim e [ ]
  Ends-Keeps g h ((k, c) ∷ cs) ((j, r) ∷ rs) v kept a e =
      let (s, was) = ends g c v a.0 in
      let same : s ≡ r =
        find_unique (enough g) (enough h) h c s r (kept.walks (enough g) c s was) e.1 in
      (e.0, ground arith, Ends-Keeps g h cs rs v kept a.1 e.2)

  resolve_values-cons :
      {K : Type 0}
      → (k : K) (c r : Cell) (cs rs : List (K × Cell)) (g g1 g2 : Graph)
      → resolve_cell c g ≡ ok r g1
      → resolve_values cs g1 ≡ ok rs g2
      → resolve_values ((k, c) ∷ cs) g ≡ ok ((k, r) ∷ rs) g2
  unfolding resolve_values
  resolve_values-cons k c r cs rs g g1 g2 h h' = ground arith

  -- Where forwarding pointers form no cycle, and each cell of a map is null or points to a node of
  -- the graph, the loop of compress over the map resolves all its cells: each ends where its walk ends
  -- in the graph that the loop began with, and the graph that the loop leaves, forwarding nodes
  -- included, answers every walk as before, with no cycle.
  pub resolve_values-Ends :
      {K : Type 0}
      → (g : Graph) (cs : List (K × Cell)) → IsOrdered g rank
      → AllLead g cs
      → (rs : List (K × Cell)) × (g' : Graph) × (resolve_values cs g ≡ ok rs g')
        × Ends g cs rs
        × Keeps g g'
        × IsOrdered g' rank
  unfolding resolve_values resolve_cell
  resolve_values-Ends g [] v a = ([], g, refl, tt, Keeps-refl g, v)
  resolve_values-Ends g ((k, c) ∷ cs) v a =
      let (r, was) = ends g c v a.0 in
      let (g1, ran, kept, v1) = resolve-IsOrdered rank (enough g) g c r v was in
      let (rs, g2, runs, e, kept', v2) =
        resolve_values-Ends g1 cs v1 (AllLead-Keeps g g1 cs kept a.1) in
      (
        (k, r) ∷ rs,
        g2,
        resolve_values-cons k c r cs rs g g1 g2 ran runs,
        (refl, was, Ends-Keeps g g1 cs rs v kept a.1 e),
        Keeps-trans g g1 g2 kept kept',
        v2,
      )
