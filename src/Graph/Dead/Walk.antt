-- ===== src/Graph/Dead/Walk.antt =====
-- Graph::remove_dead of lib/seadsa/Graph.cc on a compressed graph: there getNode changes nothing, and
-- the search is a walk through the graph as it is.
use sea_dsa.Common.{
  ℕ, zero, suc, true, false, Option, none, some, List, [], ◌∷◌, ◌++◌, ◌≡◌, refl, ap, ◌⊎◌, arith,
  inl, inr, lookup, put, Bool-cases, Option-cases, ==→≡,
}
use sea_dsa.Graph.{Cell, Node, Graph, ok, load, modify, set_node, is_null, deref}
use sea_dsa.Graph.Resolve.{find, resolve, resolve_cell}
use sea_dsa.Graph.Dead.{target, targets, Search, offers, get_nodes, search, get_roots}

-- The search in a graph that it does not change.
unfoldable pub walk : ℕ → Graph → Search → Option (List ℕ)
unfolding targets
walk zero g s = elim s.worklist [ [] ↦ some s.reachable | _ ∷ _ ↦ none ]
walk (suc k) g s = elim s.worklist [
  | [] ↦ some s.reachable
  | n ∷ rest ↦ elim (lookup n g.nodes) [
    | none ↦ none
    | some nd ↦ elim (targets g nd.links) [
      | none ↦ none
      | some ts ↦ walk k g (offers (record s { worklist = rest }) ts)
    ]
  ]
]

-- The nodes of scalars, formals and returns.
unfoldable pub roots : Graph → Option (List ℕ)
unfolding targets
roots g = elim (targets g g.values) [
  | none ↦ none
  | some vs ↦ elim (targets g g.formals) [
    | none ↦ none
    | some fs ↦ elim (targets g g.returns) [ none ↦ none | some rs ↦ some (vs ++ fs ++ rs) ]
  ]
]

pub list_cases : (xs : List ℕ) → (xs ≡ []) ⊎ ((x : ℕ) × (rest : List ℕ) × (xs ≡ x ∷ rest))
list_cases [] = inl refl
list_cases (x ∷ xs) = inr (x, xs, refl)

-- No node forwards to another one.
abbrev pub IsResolved : Graph → Type 0
IsResolved g = (n : ℕ) (nd : Node) → lookup n g.nodes ≡ some nd → is_null nd.forward ≡ true

put-lookup : (n : ℕ) (nd : Node) (ns : List (ℕ × Node)) → lookup n ns ≡ some nd → put n nd ns ≡ ns
put-lookup n nd [] h = absurd (ground arith)
put-lookup n nd ((m, md) ∷ ns) h = ground (arith, put-lookup n nd ns, ==→≡ m n)

module _ (g : Graph) (resolved : IsResolved g) where
  -- getNode leaves a cell of the graph as it is.
  pub resolve_cell-target :
      (c : Cell) (t : ℕ)
      → is_null c ≡ false
      → target g c ≡ some t
      → (resolve_cell c g ≡ ok c g) × (c.node ≡ some t)
  unfolding resolve_cell resolve target find load
  resolve_cell-target c t live at = elim (Option-cases c.node) [
    | inl null ↦ absurd (ground arith)
    | inr (n, e) ↦ elim (Option-cases (lookup n g.nodes)) [
      | inl gone ↦ absurd (ground arith)
      | inr (nd, here) ↦ let last = resolved n nd here in (ground arith, ground arith)
    ]
  ]

  pub get_nodes-targets :
      {K : Type 0}
      → (cs : List (K × Cell)) (ts : List ℕ) → targets g cs ≡ some ts
      → get_nodes cs g ≡ ok (cs, ts) g
  unfolding get_nodes targets deref
  get_nodes-targets [] ts e = ground arith
  get_nodes-targets ((k, c) ∷ cs) ts e = elim (Option-cases (targets g cs)) [
    | inl lost ↦ absurd (ground arith)
    | inr (us, there) ↦
        let rest = get_nodes-targets cs us there in
        elim (Bool-cases (is_null c)) [
          | inl null ↦ ground arith
          | inr live ↦ elim (Option-cases (target g c)) [
            | inl gone ↦ absurd (ground arith)
            | inr (t, at) ↦ let (same, is) = resolve_cell-target c t live at in ground arith
          ]
        ]
  ]

  pub search-walk : (k : ℕ) (s : Search) (r : List ℕ) → walk k g s ≡ some r → search k s g ≡ ok r g
  unfolding search walk load modify
  search-walk zero s r e = ground arith
  search-walk (suc k) s r e = elim (list_cases s.worklist) [
    | inl empty ↦ ground arith
    | inr (n, rest, next) ↦ elim (Option-cases (lookup n g.nodes)) [
      | inl gone ↦ absurd (ground arith)
      | inr (nd, here) ↦ elim (Option-cases (targets g nd.links)) [
        | inl lost ↦ absurd (ground arith)
        | inr (ts, ends) ↦
            let seen = get_nodes-targets nd.links ts ends in
            let more = search-walk k (offers (record s { worklist = rest }) ts) r (ground arith) in
            let written : set_node n nd g ≡ g =
              ap (λ ns. record g { nodes = ns }) (put-lookup n nd g.nodes here) in
            ground arith
      ]
    ]
  ]

  pub get_roots-roots : (rs : List ℕ) → roots g ≡ some rs → get_roots g ≡ ok rs g
  unfolding get_roots roots
  get_roots-roots rs e = elim (Option-cases (targets g g.values)) [
    | inl lost ↦ absurd (ground arith)
    | inr (vs, ev) ↦ elim (Option-cases (targets g g.formals)) [
      | inl lost ↦ absurd (ground arith)
      | inr (fs, ef) ↦ elim (Option-cases (targets g g.returns)) [
        | inl lost ↦ absurd (ground arith)
        | inr (us, eu) ↦ ground (
          arith,
          get_nodes-targets g.values vs ev,
          get_nodes-targets g.formals fs ef,
          get_nodes-targets g.returns us eu,
        )
      ]
    ]
  ]
