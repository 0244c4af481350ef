-- ===== src/Graph/Resolve/Compression.antt =====
-- Cell::getNode of lib/seadsa/Graph.cc: the walk along forwarding nodes, and what shortening it changes.
use sea_dsa.Common.{
  ℕ, zero, suc, true, false, none, some, ◌≡◌, refl, ap, ◌∙◌, ◌⊎◌, inl, inr, arith, lookup,
  lookup-put, ◌==◌, if◌then◌else◌, Option-cases, Bool-cases,
}
use sea_dsa.Graph.{Cell, Node, Graph, ok, load, modify, set_node, is_null}
use sea_dsa.Graph.Resolve.{shift, resolve, find}

-- The ways in which a walk of at least one step ends.
pub data Walk (k : ℕ) (g : Graph) (c f : Cell) : Type 0 where
  at_null : c.node ≡ none → f ≡ c → Walk k g c f
  at_root :
      (n : ℕ) (nd : Node)
      → c.node ≡ some n
      → lookup n g.nodes ≡ some nd
      → is_null nd.forward ≡ true
      → f ≡ c
      → Walk k g c f
  along :
      (n : ℕ) (nd : Node) (r : Cell)
      → c.node ≡ some n
      → lookup n g.nodes ≡ some nd
      → is_null nd.forward ≡ false
      → find k g nd.forward ≡ some r
      → f ≡ shift r c.offset
      → Walk k g c f

pub find-Walk : (k : ℕ) (g : Graph) (c f : Cell) → find (suc k) g c ≡ some f → Walk k g c f
unfolding find
find-Walk k g c f h = elim (Option-cases c.node) [
  | inl e ↦ at_null e (ground arith)
  | inr (n, e) ↦ elim (Option-cases (lookup n g.nodes)) [
    | inl gone ↦ absurd (ground arith)
    | inr (nd, here) ↦ elim (Bool-cases (is_null nd.forward)) [
      | inl stop ↦ at_root n nd e here stop (ground arith)
      | inr on ↦ elim (Option-cases (find k g nd.forward)) [
        | inl lost ↦ absurd (ground arith)
        | inr (r, tail) ↦ along n nd r e here on tail (ground arith)
      ]
    ]
  ]
]

-- A cell at which a walk stops: null, or in a node that is not forwarding.
abbrev pub Root : Graph → Cell → Type 0
Root g f =
    (f.node ≡ none)
    ⊎ ((n : ℕ) × (nd : Node) × (f.node ≡ some n)
        × (lookup n g.nodes ≡ some nd)
        × (is_null nd.forward ≡ true))

pub find-Root : (k : ℕ) (g : Graph) (c f : Cell) → find k g c ≡ some f → Root g f
unfolding find
find-Root zero g c f h = cc
find-Root (suc k) g c f h = elim (find-Walk k g c f h) [
  | at_null e p ↦ inl (ground arith)
  | at_root n nd e here stop p ↦ inr (n, nd, ground arith, here, stop)
  | along n nd r e here on tail p ↦ rw p (find-Root k g nd.forward r tail)
]

pub Root-find : (k : ℕ) (g : Graph) (f : Cell) → Root g f → find (suc k) g f ≡ some f
unfolding find
Root-find k g f h = ground arith

-- Two walks from one cell end in one place.
pub find_unique :
    (j k : ℕ) (g : Graph) (c r s : Cell) → find j g c ≡ some r → find k g c ≡ some s → r ≡ s
unfolding find
find_unique zero k g c r s h h' = cc
find_unique (suc j) zero g c r s h h' = cc
find_unique (suc j) (suc k) g c r s h h' = elim (find-Walk j g c r h) [
  | at_null e p ↦ ground arith
  | at_root n nd e here stop p ↦ ground arith
  | along n nd t e here on tail p ↦ elim (find-Walk k g c s h') [
    | at_null e' p' ↦ cc
    | at_root n' nd' e' here' stop' p' ↦ ground arith
    | along n' nd' t' e' here' on' tail' p' ↦ ground (arith, find_unique j k g nd.forward t t')
  ]
]

pub find-is_null :
    (k : ℕ) (g : Graph) (c r : Cell) → find k g c ≡ some r → is_null c ≡ false → is_null r ≡ false
unfolding find
find-is_null zero g c r h e = cc
find-is_null (suc k) g c r h q = elim (find-Walk k g c r h) [
  | at_null e p ↦ ground arith
  | at_root n nd e here stop p ↦ ground arith
  | along n nd t e here on tail p ↦ ground (arith, find-is_null k g nd.forward t)
]

-- `g'` answers every walk as `g` does, and has the same tables and the same nodes up to where the
-- forwarding ones lead.
pub record Keeps (g g' : Graph) : Type 0 where
  pub rest : g' ≡ record g { nodes = g'.nodes }
  pub walks : (k : ℕ) (c r : Cell) → find k g c ≡ some r → find k g' c ≡ some r
  pub nodes :
      (n : ℕ) (nd : Node)
      → lookup n g.nodes ≡ some nd
      → (nd' : Node) × (lookup n g'.nodes ≡ some nd')
        × (nd' ≡ record nd { forward = nd'.forward })
        × (is_null nd'.forward ≡ is_null nd.forward)
        × ((k : ℕ) (r : Cell) → find k g nd.forward ≡ some r → find k g' nd'.forward ≡ some r)

pub Keeps-refl : (g : Graph) → Keeps g g
Keeps-refl g = record {
  rest = refl;
  walks = λ k c r h. h;
  nodes = λ n nd h. (nd, h, refl, refl, λ k r e. e);
}

pub Keeps-trans : (g h i : Graph) → Keeps g h → Keeps h i → Keeps g i
Keeps-trans g h i p q = record {
  rest = q.rest ∙ ap (λ (x : Graph). record x { nodes = i.nodes }) p.rest;
  walks = λ k c r e. q.walks k c r (p.walks k c r e);
  nodes = λ n nd e.
      let (a, a_here, a_same, a_null, a_walks) = p.nodes n nd e in
      let (b, b_here, b_same, b_null, b_walks) = q.nodes n a a_here in
      (
        b,
        b_here,
        b_same ∙ ap (λ (x : Node). record x { forward = b.forward }) a_same,
        b_null ∙ a_null,
        λ k r w. b_walks k r (a_walks k r w),
      );
}

-- Forwarding straight to the end of the walk.
module _ (j n : ℕ) (g : Graph) (nd : Node) (f : Cell) (here : lookup n g.nodes ≡ some nd)
    (on : is_null nd.forward ≡ false) (end : find j g nd.forward ≡ some f) where
  abbrev pub short : Graph
  short = set_node n (record nd { forward = f }) g

  short_lookup :
      (m : ℕ)
      → lookup m short.nodes
        ≡ (if n == m then some (record nd { forward = f }) else lookup m g.nodes)
  short_lookup m = lookup-put n m (record nd { forward = f }) g.nodes

  short-Root : (r : Cell) → Root g r → Root short r
  short-Root r (inl e) = inl e
  short-Root r (inr (m, md, e, at, stop)) = inr (m, md, e, ground (arith, short_lookup m), stop)

  short_on : is_null f ≡ false
  short_on = find-is_null j g nd.forward f end on

  short_end : (k : ℕ) (r : Cell) → find k g nd.forward ≡ some r → find k short f ≡ some r
  unfolding find
  short_end zero r h = cc
  short_end (suc k) r h =
      rw (find_unique (suc k) j g nd.forward r f h end)
        (Root-find k short f (short-Root f (find-Root j g nd.forward f end)))

  short_walks : (k : ℕ) (c r : Cell) → find k g c ≡ some r → find k short c ≡ some r
  unfolding find
  short_walks zero c r h = cc
  short_walks (suc k) c r h = elim (find-Walk k g c r h) [
    | at_null e p ↦ ground arith
    | at_root m md e at stop p ↦ ground (arith, short_lookup m)
    | along m md t e at go tail p ↦
        ground (arith, short_lookup m, short_walks k md.forward t, short_end k t, short_on)
  ]

  pub short-Keeps : Keeps g short
  short-Keeps = record {
    rest = refl;
    walks = short_walks;
    nodes = λ m md at. elim (Bool-cases (n == m)) [
      | inl same ↦ (
        record nd { forward = f },
        ground (arith, short_lookup m),
        ground arith,
        ground (arith, short_on),
        λ k r w. short_end k r (ground arith),
      )
      | inr apart ↦
          (md, ground (arith, short_lookup m), refl, refl, λ k r w. short_walks k md.forward r w)
    ];
  }

module _ (k n : ℕ) (g : Graph) (c : Cell) (nd : Node) (e : c.node ≡ some n)
    (here : lookup n g.nodes ≡ some nd) where
  pub resolve-root : is_null nd.forward ≡ true → resolve (suc k) c g ≡ ok c g
  unfolding resolve load
  resolve-root stop = ground arith

  pub resolve-along :
      (h : Graph) (md : Node) (t : Cell)
      → is_null nd.forward ≡ false
      → resolve k nd.forward g ≡ ok t h
      → lookup n h.nodes ≡ some md
      → resolve (suc k) c g ≡ ok (shift t c.offset) (set_node n (record md { forward = t }) h)
  unfolding resolve load modify
  resolve-along h md t on ran at = ground arith

-- Where the walk from a cell ends within `k` steps, resolving the cell with fuel `k` ends there
-- too, and the graph that it leaves, with shorter paths, answers every walk as before.
pub resolve-find :
    (k : ℕ) (g : Graph) (c r : Cell)
    → find k g c ≡ some r
    → (g' : Graph) × (resolve k c g ≡ ok r g') × Keeps g g'
unfolding find
resolve-find zero g c r h = cc
resolve-find (suc k) g c r h = elim (find-Walk k g c r h) [
  | at_null e p ↦ (g, unfold resolve in ground arith, Keeps-refl g)
  | at_root n nd e here stop p ↦ (g, rw p (resolve-root k n g c nd e here stop), Keeps-refl g)
  | along n nd t e here on tail p ↦
      let (h, ran, kept) = resolve-find k g nd.forward t tail in
      let (md, at, same, null, walks) = kept.nodes n nd here in
      (
        set_node n (record md { forward = t }) h,
        rw p (resolve-along k n g c nd e here h md t on ran at),
        Keeps-trans g h _ kept (short-Keeps k n h md t at (null ∙ on) (walks k t tail)),
      )
]
