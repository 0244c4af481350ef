-- ===== src/CompleteCallGraph/Edges/Whole.antt =====
-- The edges that lib/seadsa/DsaCompleteCallGraph.cc adds after a bottom-up pass, for all call sites of
-- all graphs.
use sea_dsa.Common.{
  ℕ, ◌≡◌, refl, sym, ap, ◌∙◌, Bool, true, false, not, ◌&&◌, ◌||◌, none, some, List, [], ◌∷◌, ◌==◌,
  arith, inl, inr, ◌⊎◌, Bool-cases, Option-cases, any_of, member, member-set_insert, is_empty,
  set_insert, if◌then◌else◌,
}
use sea_dsa.Llvm.{Llvm}
use sea_dsa.Graph.{CallSite, Graph}
use sea_dsa.Graph.Query.{Place}
use sea_dsa.CompleteCallGraph.{CallGraphOps, HasLaws, Program, Graphs, graph_of}
use sea_dsa.CompleteCallGraph.Edges.{
  State, has_edge, add_callees, resolve_site, resolve_sites, resolve_graphs, add_edges,
}
use sea_dsa.CompleteCallGraph.Edges.Exact.{
  is_callee, calls_something, open_node, asks, settles, in_graphs, Adds, Adds-none, Adds-both,
  Adds-same, add_callees-Adds, add_callees_end,
}

empty-is : {A : Type 0} (xs : List A) → is_empty xs ≡ true → xs ≡ []
empty-is [] h = refl
empty-is (x ∷ xs) h = absurd (ground arith)

in_graphs_cons :
    (gs : Graphs) (test : ℕ → Graph → CallSite → Bool) (f i j : ℕ) (g : Graph) (fs : List (ℕ × ℕ))
    → graph_of gs f ≡ some (j, g)
    → (any_of (λ (k, cs). test f g cs) g.call_sites || in_graphs gs test fs)
      ≡ in_graphs gs test ((f, i) ∷ fs)
in_graphs_cons gs test f i j g fs e = ground arith

module _ (l : Llvm) (p : Program) (fn : ℕ) (g : Graph) (cs : CallSite) where
  asks_open :
      (q : Place) (h d t : ℕ)
      → open_node l p fn g cs ≡ some q
      → ((l.parent_function cs.instruction == h)
          && (cs.instruction == t)
          && any_of (is_callee l p cs.instruction d) q.node.alloca_sites)
        ≡ asks l p fn g h d t cs
  asks_open q h d t e = ground arith

  settles_open :
      (q : Place) (t : ℕ)
      → open_node l p fn g cs ≡ some q
      → ((t == cs.instruction)
          && any_of (calls_something l p cs.instruction) q.node.alloca_sites
          && not q.node.flags.external)
        ≡ settles l p fn g t cs
  settles_open q t e = ground arith

  asks_shut : (h d t : ℕ) → open_node l p fn g cs ≡ none → false ≡ asks l p fn g h d t cs
  asks_shut h d t e = ground arith

  settles_shut : (t : ℕ) → open_node l p fn g cs ≡ none → false ≡ settles l p fn g t cs
  settles_shut t e = ground arith

  module _ (Cg : Type 0) (ops : CallGraphOps Cg) (laws : HasLaws Cg ops) where
    -- m_resolved.insert, after the loop over the allocation sites
    abbrev settle : Place → State Cg × Bool → State Cg
    settle q (st, found) =
        if found && not q.node.flags.external
        then record st { resolved = set_insert cs.instruction st.resolved }
        else st

    resolve_site_open :
        (q : Place) (st : State Cg)
        → open_node l p fn g cs ≡ some q
        → resolve_site l p Cg ops fn g cs st
          ≡ some (
              settle q (
                add_callees l p Cg ops
                  (l.parent_function cs.instruction)
                  cs.instruction
                  q.node.alloca_sites
                  (st, false)))
    unfolding resolve_site
    resolve_site_open q st e = elim (Bool-cases (is_empty q.node.alloca_sites)) [
      | inr more ↦ ground arith
      | inl empty' ↦
          let f = l.parent_function cs.instruction in
          let i = cs.instruction in
          let end = add_callees_end Cg ops laws l p f i st false in
          let same : add_callees l p Cg ops f i q.node.alloca_sites (st, false) ≡ (st, false) =
            ap (λ vs. add_callees l p Cg ops f i vs (st, false))
              (empty-is q.node.alloca_sites empty')
            ∙ end in
          rw same (ground arith)
    ]

    resolve_site_shut :
        (st st' : State Cg)
        → open_node l p fn g cs ≡ none
        → resolve_site l p Cg ops fn g cs st ≡ some st'
        → st ≡ st'
    unfolding resolve_site
    resolve_site_shut st st' e h = ground arith

    settle-Adds :
        (q : Place) (st : State Cg) (r : State Cg × Bool) (a : ℕ → ℕ → ℕ → Bool) (found : Bool)
        → Adds Cg ops laws a (λ t. false) st r.0
        → r.1 ≡ found
        → Adds Cg ops laws a
            (λ t. (t == cs.instruction) && found && not q.node.flags.external)
            st
            (settle q r)
    settle-Adds q st (s, b) a found x e = elim (Bool-cases (b && not q.node.flags.external)) [
      | inl now ↦ rw now (record {
        edges = x.edges;
        resolved = λ t. ground (arith, x.resolved t, member-set_insert cs.instruction t s.resolved);
        reported = x.reported;
      })
      | inr not' ↦ rw not' (record {
        edges = x.edges;
        resolved = λ t. ground (arith, x.resolved t);
        reported = x.reported;
      })
    ]

    resolve_site-Adds :
        (st st' : State Cg)
        → resolve_site l p Cg ops fn g cs st ≡ some st'
        → Adds Cg ops laws (λ h d t. asks l p fn g h d t cs) (λ t. settles l p fn g t cs) st st'
    resolve_site-Adds st st' ran = elim (Option-cases (open_node l p fn g cs)) [
      | inl e ↦
          Adds-same Cg ops laws (λ h d t. false) (λ h d t. asks l p fn g h d t cs) (λ t. false)
            (λ t. settles l p fn g t cs) st st st' (λ h d t. asks_shut h d t e)
            (λ t. settles_shut t e) (resolve_site_shut st st' e ran)
            (Adds-none Cg ops laws st st refl)
      | inr (q, e) ↦
          let f = l.parent_function cs.instruction in
          let i = cs.instruction in
          let vs = q.node.alloca_sites in
          let (x, found) = add_callees-Adds Cg ops laws l p f i vs st false in
          let r = add_callees l p Cg ops f i vs (st, false) in
          let is : some (settle q r) ≡ some st' = sym (resolve_site_open q st e) ∙ ran in
          Adds-same Cg ops laws (λ h d t. (f == h) && (i == t) && any_of (is_callee l p i d) vs)
            (λ h d t. asks l p fn g h d t cs)
            (λ t. (t == i) && any_of (calls_something l p i) vs && not q.node.flags.external)
            (λ t. settles l p fn g t cs) st (settle q r) st' (λ h d t. asks_open q h d t e)
            (λ t. settles_open q t e) (cc is)
            (settle-Adds q st r (λ h d t. (f == h) && (i == t) && any_of (is_callee l p i d) vs)
              (any_of (calls_something l p i) vs) x found)
    ]

module _ (l : Llvm) (p : Program) (Cg : Type 0) (ops : CallGraphOps Cg)
    (laws : HasLaws Cg ops) where
  resolve_sites-Adds :
      (fn : ℕ) (g : Graph) (ss : List (ℕ × CallSite)) (st st' : State Cg)
      → resolve_sites l p Cg ops fn g ss st ≡ some st'
      → Adds Cg ops laws
          (λ h d t. any_of (λ (k, cs). asks l p fn g h d t cs) ss)
          (λ t. any_of (λ (k, cs). settles l p fn g t cs) ss)
          st
          st'
  unfolding resolve_sites
  resolve_sites-Adds fn g [] st st' ran = Adds-none Cg ops laws st st' (ground arith)
  resolve_sites-Adds fn g ((k, cs) ∷ ss) st st' ran =
      elim (Option-cases (resolve_site l p Cg ops fn g cs st)) [
        | inl e ↦ absurd (ground arith)
        | inr (st1, e) ↦
            Adds-both Cg ops laws (λ h d t. asks l p fn g h d t cs)
              (λ h d t. any_of (λ (j, c). asks l p fn g h d t c) ss) (λ t. settles l p fn g t cs)
              (λ t. any_of (λ (j, c). settles l p fn g t c) ss) st st1 st'
              (resolve_site-Adds l p fn g cs Cg ops laws st st1 e)
              (resolve_sites-Adds fn g ss st1 st' (ground arith))
      ]

  resolve_graphs-Adds :
      (gs : Graphs) (fs : List (ℕ × ℕ)) (st st' : State Cg)
      → resolve_graphs l p Cg ops gs fs st ≡ some st'
      → Adds Cg ops laws
          (λ h d t. in_graphs gs (λ fn g cs. asks l p fn g h d t cs) fs)
          (λ t. in_graphs gs (λ fn g cs. settles l p fn g t cs) fs)
          st
          st'
  unfolding resolve_graphs
  resolve_graphs-Adds gs [] st st' ran = Adds-none Cg ops laws st st' (ground arith)
  resolve_graphs-Adds gs ((f, i) ∷ fs) st st' ran = elim (Option-cases (graph_of gs f)) [
    | inl e ↦ absurd (ground arith)
    | inr ((j, g), e) ↦ elim (Option-cases (resolve_sites l p Cg ops f g g.call_sites st)) [
      | inl e' ↦ absurd (ground arith)
      | inr (st1, e') ↦
          Adds-same Cg ops laws
            (λ h d t.
              any_of (λ (k, cs). asks l p f g h d t cs) g.call_sites
              || in_graphs gs (λ fn g' cs. asks l p fn g' h d t cs) fs)
            (λ h d t. in_graphs gs (λ fn g' cs. asks l p fn g' h d t cs) ((f, i) ∷ fs))
            (λ t.
              any_of (λ (k, cs). settles l p f g t cs) g.call_sites
              || in_graphs gs (λ fn g' cs. settles l p fn g' t cs) fs)
            (λ t. in_graphs gs (λ fn g' cs. settles l p fn g' t cs) ((f, i) ∷ fs)) st st' st'
            (λ h d t. in_graphs_cons gs (λ fn g' cs. asks l p fn g' h d t cs) f i j g fs e)
            (λ t. in_graphs_cons gs (λ fn g' cs. settles l p fn g' t cs) f i j g fs e) refl
            (Adds-both Cg ops laws (λ h d t. any_of (λ (k, cs). asks l p f g h d t cs) g.call_sites)
              (λ h d t. in_graphs gs (λ fn g' cs. asks l p fn g' h d t cs) fs)
              (λ t. any_of (λ (k, cs). settles l p f g t cs) g.call_sites)
              (λ t. in_graphs gs (λ fn g' cs. settles l p fn g' t cs) fs) st st1 st'
              (resolve_sites-Adds f g g.call_sites st st1 e')
              (resolve_graphs-Adds gs fs st1 st' (ground arith)))
    ]
  ]

  -- For a call graph with the laws of LLVM's: the phase that adds edges, where it meets no null or
  -- dangling pointer, adds exactly the edges that open
  -- call sites ask for: those of graphs of main and those that were copied nowhere, to each function
  -- with a legal type among the allocation sites of the called node. It takes exactly the calls for
  -- resolved for which such a site has a callee and no external node, and if it reports no change the
  -- call graph is as before.
  pub add_edges-Adds :
      (gs : Graphs) (st st' : State Cg)
      → add_edges l p Cg ops gs st ≡ some st'
      → ((h d t : ℕ)
          → has_edge ops st'.cg h d t ≡ (
              has_edge ops st.cg h d t
              || in_graphs gs (λ fn g cs. asks l p fn g h d t cs) gs.owner))
        × ((t : ℕ)
            → member t st'.resolved
              ≡ (member t st.resolved || in_graphs gs (λ fn g cs. settles l p fn g t cs) gs.owner))
        × ((st'.change ≡ true) ⊎ (st'.cg ≡ st.cg))
  unfolding add_edges
  add_edges-Adds gs st st' ran =
      let x = resolve_graphs-Adds gs gs.owner (record st { change = false }) st' ran in
      (x.edges, x.resolved, elim x.reported [ inl c ↦ inl c | inr (c, e) ↦ inr e ])
