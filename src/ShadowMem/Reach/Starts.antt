-- ===== src/ShadowMem/Reach/Starts.antt =====
-- The nodes from which argReachableNodes of lib/seadsa/ShadowMem.cc starts in a compressed graph,
-- where getNode of a cell is the node that it holds.
use sea_dsa.Common.{
  ℕ, ◌≡◌, ◌⊎◌, ◌↔◌, refl, sym, subst, ◌==◌, arith, inl, inr, Bool-cases, Option-cases, true, false,
  none, some, List, [], ◌∷◌, ◌++◌, lookup, member, is_some,
}
use sea_dsa.Llvm.{Llvm, is_global, is_argument}
use sea_dsa.Graph.{Cell, Graph, is_null}
use sea_dsa.Graph.Table.{entry, has_cell}
use sea_dsa.Graph.Dead.{target, targets}
use sea_dsa.Graph.Dead.Walk.{roots, resolve_cell-target}
use sea_dsa.Graph.Dead.Reach.{LinksTo, member-targets, AllPresent}
use sea_dsa.Graph.Dead.Round.{IsCompressed}
use sea_dsa.Transfer.{globals}
use sea_dsa.ShadowMem.Reach.{formal_cells, inputs, outputs}

-- Some formal of the list has a cell that holds the node.
abbrev pub FormalTo : Llvm → Graph → ℕ → List ℕ → Type 0
FormalTo l g n [] = ⊥
FormalTo l g n (a ∷ as') =
    ((c : Cell) × (entry l g (l.strip a) ≡ some c) × (c.node ≡ some n)) ⊎ FormalTo l g n as'

-- The cell of some global value holds the node.
abbrev pub GlobalTo : Llvm → ℕ → List (ℕ × Cell) → Type 0
GlobalTo l n [] = ⊥
GlobalTo l n ((v, c) ∷ cs) = ((is_global l v ≡ true) × (c.node ≡ some n)) ⊎ GlobalTo l n cs

-- What a caller gives to a function, and what it gets back.
abbrev pub Given : Llvm → Graph → (fn : ℕ) → ℕ → Type 0
Given l g fn n = FormalTo l g n (l.params fn) ⊎ GlobalTo l n g.values

abbrev pub Returned : Graph → (fn : ℕ) → ℕ → Type 0
Returned g fn n = (c : Cell) × (lookup fn g.returns ≡ some c) × (c.node ≡ some n)

module _ (l : Llvm) (g : Graph) (nd : IsCompressed g) where
  -- A cell that is null or leads to a node of the graph.
  abbrev Good : Cell → Type 0
  Good c =
      (is_null c ≡ true)
      ⊎ (t : ℕ) × (is_null c ≡ false) × (target g c ≡ some t) × (is_some (lookup t g.nodes) ≡ true)

  abbrev AllGood : {K : Type 0} → List (K × Cell) → Type 0
  AllGood [] = Unit
  AllGood ((k, c) ∷ cs) = Good c × AllGood cs

  AllGood-targets :
      {K : Type 0}
      → (cs : List (K × Cell)) (ts : List ℕ) → targets g cs ≡ some ts
      → AllPresent g ts
      → AllGood cs
  unfolding targets
  AllGood-targets [] ts e p = tt
  AllGood-targets ((k, c) ∷ cs) ts e p = elim (Option-cases (targets g cs)) [
    | inl lost ↦ absurd (ground arith)
    | inr (us, there) ↦ elim (Bool-cases (is_null c)) [
      | inl null ↦
          let same : us ≡ ts = ground arith in
          (inl null, AllGood-targets cs us there (subst (AllPresent g) (sym same) p))
      | inr live ↦ elim (Option-cases (target g c)) [
        | inl gone ↦ absurd (ground arith)
        | inr (t, at) ↦
            let same : t ∷ us ≡ ts = ground arith in
            let (here, others) = subst (AllPresent g) (sym same) p in
            (inr (t, live, at, here), AllGood-targets cs us there others)
      ]
    ]
  ]

  targets_good :
      {K : Type 0}
      → (cs : List (K × Cell)) → AllGood cs
      → (ts : List ℕ) × (targets g cs ≡ some ts) × AllPresent g ts
  unfolding targets
  targets_good [] a = ([], refl, tt)
  targets_good ((k, c) ∷ cs) a =
      let (ts, ends, there) = targets_good cs a.1 in
      elim a.0 [
        | inl null ↦ (ts, ground arith, there)
        | inr (t, live, at, here) ↦ (t ∷ ts, ground arith, (here, there))
      ]

  AllGood-append : (xs ys : List (ℕ × Cell)) → AllGood xs → AllGood ys → AllGood (xs ++ ys)
  AllGood-append [] ys a b = b
  AllGood-append ((k, c) ∷ xs) ys a b = (a.0, AllGood-append xs ys a.1 b)

  AllGood-lookup :
      (k : ℕ) (c : Cell) (cs : List (ℕ × Cell)) → AllGood cs → lookup k cs ≡ some c → Good c
  AllGood-lookup k c [] a e = absurd (ground arith)
  AllGood-lookup k c ((j, d) ∷ cs) a e = elim (Bool-cases (j == k)) [
    | inl same ↦ subst Good (ground arith) a.0
    | inr apart ↦ AllGood-lookup k c cs a.1 (ground arith)
  ]

  AllGood-globals : (cs : List (ℕ × Cell)) → AllGood cs → AllGood (globals l cs)
  unfolding globals
  AllGood-globals [] a = tt
  AllGood-globals ((v, c) ∷ cs) a = elim (Bool-cases (is_global l v)) [
    | inl e ↦ rw e (a.0, AllGood-globals cs a.1)
    | inr e ↦ rw e (AllGood-globals cs a.1)
  ]

  Good-node :
      (c : Cell) (n : ℕ)
      → Good c
      → ((is_null c ≡ false) × (target g c ≡ some n)) ↔ (c.node ≡ some n)
  Good-node c n good = elim good [
    | inl null ↦ ground arith
    | inr (t, live, at, here) ↦
        let (kept, is) = resolve_cell-target g nd.resolved c t live at in ground arith
  ]

  LinksTo-append :
      (n : ℕ) (xs ys : List (ℕ × Cell)) → LinksTo g n (xs ++ ys) ↔ (LinksTo g n xs ⊎ LinksTo g n ys)
  LinksTo-append n [] ys = ground arith
  LinksTo-append n ((k, c) ∷ xs) ys = ground (arith, LinksTo-append n xs ys)

  LinksTo-globals :
      (n : ℕ) (cs : List (ℕ × Cell)) → AllGood cs → LinksTo g n (globals l cs) ↔ GlobalTo l n cs
  unfolding globals
  LinksTo-globals n [] a = ground arith
  LinksTo-globals n ((v, c) ∷ cs) a = elim (Bool-cases (is_global l v)) [
    | inl e ↦
        let one = Good-node c n a.0 in
        let rest = LinksTo-globals n cs a.1 in rw e (ground (arith, one, rest))
    | inr e ↦ let rest = LinksTo-globals n cs a.1 in rw e (ground (arith, rest))
  ]

  -- The cells of the maps of the graph.
  record RootsGood : Type 0 where
    in_values : AllGood g.values
    in_formals : AllGood g.formals
    in_returns : AllGood g.returns

  AllPresent-append : (xs ys : List ℕ) → AllPresent g (xs ++ ys) → AllPresent g xs × AllPresent g ys
  AllPresent-append [] ys p = (tt, p)
  AllPresent-append (x ∷ xs) ys p = let (a, b) = AllPresent-append xs ys p.1 in ((p.0, a), b)

  roots_good : RootsGood
  unfolding roots
  roots_good = elim (Option-cases (targets g g.values)) [
    | inl lost ↦ absurd (ground (arith, nd.roots_end))
    | inr (vs, ev) ↦ elim (Option-cases (targets g g.formals)) [
      | inl lost ↦ absurd (ground (arith, nd.roots_end))
      | inr (fs, ef) ↦ elim (Option-cases (targets g g.returns)) [
        | inl lost ↦ absurd (ground (arith, nd.roots_end))
        | inr (us, eu) ↦
            let same : nd.root_list ≡ vs ++ fs ++ us = ground (arith, nd.roots_end) in
            let (p, q) =
              AllPresent-append (vs ++ fs) us (subst (AllPresent g) same nd.roots_present) in
            let (p1, p2) = AllPresent-append vs fs p in
            record {
              in_values = AllGood-targets g.values vs ev p1;
              in_formals = AllGood-targets g.formals fs ef p2;
              in_returns = AllGood-targets g.returns us eu q;
            }
      ]
    ]
  ]

  Good-entry : (v : ℕ) (c : Cell) → entry l g v ≡ some c → Good c
  unfolding entry
  Good-entry v c e = elim (Bool-cases (is_argument l v)) [
    | inl a ↦ AllGood-lookup v c g.formals roots_good.in_formals (ground arith)
    | inr a ↦ AllGood-lookup v c g.values roots_good.in_values (ground arith)
  ]

  formal_cells-none :
      (a : ℕ) (as' : List ℕ)
      → entry l g (l.strip a) ≡ none
      → formal_cells l g (a ∷ as') ≡ formal_cells l g as'
  unfolding formal_cells
  formal_cells-none a as' e = ground arith

  formal_cells-some :
      (a : ℕ) (c : Cell) (as' : List ℕ)
      → entry l g (l.strip a) ≡ some c
      → formal_cells l g (a ∷ as') ≡ (a, c) ∷ formal_cells l g as'
  unfolding formal_cells has_cell entry
  formal_cells-some a c as' e = ground arith

  AllGood-formals : (as' : List ℕ) → AllGood (formal_cells l g as')
  unfolding formal_cells
  AllGood-formals [] = tt
  AllGood-formals (a ∷ as') = elim (Option-cases (entry l g (l.strip a))) [
    | inl e ↦ subst AllGood (sym (formal_cells-none a as' e)) (AllGood-formals as')
    | inr (c, e) ↦
        subst AllGood (sym (formal_cells-some a c as' e))
          (Good-entry (l.strip a) c e, AllGood-formals as')
  ]

  LinksTo-formals : (n : ℕ) (as' : List ℕ) → LinksTo g n (formal_cells l g as') ↔ FormalTo l g n as'
  unfolding formal_cells
  LinksTo-formals n [] = ground arith
  LinksTo-formals n (a ∷ as') =
      let rest = LinksTo-formals n as' in
      elim (Option-cases (entry l g (l.strip a))) [
        | inl e ↦
            subst (λ cs. LinksTo g n cs ↔ FormalTo l g n (a ∷ as'))
              (sym (formal_cells-none a as' e)) (ground (arith, rest))
        | inr (c, e) ↦
            let one = Good-node c n (Good-entry (l.strip a) c e) in
            subst (λ cs. LinksTo g n cs ↔ FormalTo l g n (a ∷ as'))
              (sym (formal_cells-some a c as' e))
              (
                (λ x. elim x [ inl h ↦ inl (c, e, one.0 h) | inr h ↦ inr (rest.0 h) ]),
                λ x. elim x [
                  | inl (d, at, is) ↦ let same : d ≡ c = ground arith in inl (one.1 (ground arith))
                  | inr h ↦ inr (rest.1 h)
                ],
              )
      ]

  -- The nodes for the inputs are those that the caller gives.
  pub inputs-Given :
      (fn : ℕ)
      → (ts : List ℕ) × (inputs l g fn ≡ some ts)
        × AllPresent g ts
        × ((n : ℕ) → (member n ts ≡ true) ↔ Given l g fn n)
  unfolding inputs
  inputs-Given fn =
      let fs = formal_cells l g (l.params fn) in
      let gs = globals l g.values in
      let good = AllGood-globals g.values roots_good.in_values in
      let (ts, ends, there) =
        targets_good (fs ++ gs) (AllGood-append fs gs (AllGood-formals (l.params fn)) good) in
      (
        ts,
        ends,
        there,
        λ n. ground (
          arith,
          member-targets g (fs ++ gs) ts n ends,
          LinksTo-append n fs gs,
          LinksTo-formals n (l.params fn),
          LinksTo-globals n g.values roots_good.in_values,
        ),
      )

  -- The node for the returned value.
  pub outputs-Returned :
      (fn : ℕ)
      → (ts : List ℕ) × (outputs g fn ≡ some ts)
        × AllPresent g ts
        × ((n : ℕ) → (member n ts ≡ true) ↔ Returned g fn n)
  unfolding outputs
  outputs-Returned fn = elim (Option-cases (lookup fn g.returns)) [
    | inl e ↦ (
      [],
      ground arith,
      tt,
      λ n. (λ m. absurd (ground arith), λ (c, at, is). absurd (ground arith)),
    )
    | inr (c, e) ↦
        let good = AllGood-lookup fn c g.returns roots_good.in_returns e in
        let (ts, ends, there) = targets_good ((fn, c) ∷ []) (good, tt) in
        (
          ts,
          ground arith,
          there,
          λ n.
              let one = Good-node c n good in
              let all = member-targets g ((fn, c) ∷ []) ts n ends in
              (
                (λ m. elim (all.0 m) [ inl h ↦ (c, e, one.0 h) | inr h ↦ elim h [ ] ]),
                λ (d, at, is).
                    let same : d ≡ c = ground arith in all.1 (inl (one.1 (ground arith))),
              ),
        )
  ]
