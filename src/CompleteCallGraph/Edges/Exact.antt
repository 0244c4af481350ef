-- ===== src/CompleteCallGraph/Edges/Exact.antt =====
-- The edges that lib/seadsa/DsaCompleteCallGraph.cc adds for indirect calls, and the calls that it
-- takes for fully resolved.
use sea_dsa.Common.{
  ℕ, ◌≡◌, refl, sym, ap, ◌∙◌, Bool, true, false, not, ◌&&◌, ◌||◌, Option, none, some, List, [], ◌∷◌,
  ◌++◌, ◌==◌, arith, inl, inr, ◌⊎◌, Bool-cases, Option-cases, any_of, member, if◌then◌else◌, ==→≡,
}
use sea_dsa.Llvm.{Llvm, is_function}
use sea_dsa.Graph.{CallSite, Graph}
use sea_dsa.Graph.Query.{Place, place}
use sea_dsa.CompleteCallGraph.{CallGraphOps, HasLaws, Program, Graphs, graph_of}
use sea_dsa.CompleteCallGraph.Edges.{State, is_edge, has_edge, callee_of, add_edge, add_callees}

any_of-append :
    {A : Type 0} (q : A → Bool) (xs ys : List A)
    → any_of q (xs ++ ys) ≡ (any_of q xs || any_of q ys)
any_of-append q [] ys = refl
any_of-append q (x ∷ xs) ys = ground (arith, any_of-append q xs ys)

-- Whether a call site in the graph of one of the functions passes a test.
abbrev pub in_graphs : Graphs → (ℕ → Graph → CallSite → Bool) → List (ℕ × ℕ) → Bool
in_graphs gs test = any_of (λ (f, i). elim (graph_of gs f) [
  | none ↦ false
  | some (j, g) ↦ any_of (λ (k, cs). test f g cs) g.call_sites
])

module _ (l : Llvm) (p : Program) where
  -- Whether an allocation site is a function that the call may call, and whether it is this one.
  abbrev pub calls_something : (site v : ℕ) → Bool
  calls_something s v =
      is_function l (p.strip_aliases v) && p.is_legal_to_promote s (p.strip_aliases v)

  abbrev pub is_callee : (site callee v : ℕ) → Bool
  is_callee s c v = calls_something s v && (p.strip_aliases v == c)

  callee_of-none : (s v : ℕ) → callee_of l p s v ≡ none → calls_something s v ≡ false
  unfolding callee_of
  callee_of-none s v h = ground arith

  callee_of-some :
      (s v c : ℕ)
      → callee_of l p s v ≡ some c
      → (calls_something s v ≡ true) × (p.strip_aliases v ≡ c)
  unfolding callee_of
  callee_of-some s v c h = elim (Bool-cases (calls_something s v)) [
    | inl e ↦ (e, ground arith)
    | inr e ↦ absurd (ground arith)
  ]

  -- The node of a call site that is looked at: it is in the graph of main, or was copied nowhere.
  abbrev pub open_node : (fn : ℕ) → Graph → CallSite → Option Place
  open_node fn g cs =
      if p.is_main fn || not cs.cloned
      then elim cs.cell [ none ↦ none | some c ↦ place g c ]
      else none

  -- Whether the call site asks for an edge.
  abbrev pub asks : (fn : ℕ) → Graph → (caller callee site : ℕ) → CallSite → Bool
  asks fn g h c s cs = elim (open_node fn g cs) [
    | none ↦ false
    | some q ↦
        (l.parent_function cs.instruction == h)
        && (cs.instruction == s)
        && any_of (is_callee cs.instruction c) q.node.alloca_sites
  ]

  -- Whether the call site shows that this call is fully resolved.
  abbrev pub settles : (fn : ℕ) → Graph → (site : ℕ) → CallSite → Bool
  settles fn g s cs = elim (open_node fn g cs) [
    | none ↦ false
    | some q ↦
        (s == cs.instruction)
        && any_of (calls_something cs.instruction) q.node.alloca_sites
        && not q.node.flags.external
  ]

is_edge-is :
    (c d s t : ℕ)
    → is_edge d t (record { has_call = true; site = s; callee = some c }) ≡ ((s == t) && (c == d))
is_edge-is c d s t = ground arith

module _ (Cg : Type 0) (ops : CallGraphOps Cg) (laws : HasLaws Cg ops) where
  has_edge-add_called_function :
      (g : Cg) (f s c h d t : ℕ)
      → has_edge ops (ops.add_called_function g f s c) h d t
        ≡ (has_edge ops g h d t || ((f == h) && (s == t) && (c == d)))
  unfolding has_edge
  has_edge-add_called_function g f s c h d t = elim (Bool-cases (f == h)) [
    | inl e ↦
        rw (laws.records_add g f s c h, e)
          (any_of-append (is_edge d t) (ops.records g h)
              (record { has_call = true; site = s; callee = some c } ∷ [])
            ∙ ground (arith, is_edge-is c d s t))
    | inr e ↦ rw (laws.records_add g f s c h, e) (ground arith)
  ]

  has_edge-add_edge :
      (f s c : ℕ) (st : State Cg) (h d t : ℕ)
      → has_edge ops (add_edge ops f s c st).cg h d t
        ≡ (has_edge ops st.cg h d t || ((f == h) && (s == t) && (c == d)))
  unfolding add_edge
  has_edge-add_edge f s c st h d t = elim (Bool-cases (has_edge ops st.cg f c s)) [
    | inr new ↦ rw new (has_edge-add_called_function st.cg f s c h d t)
    | inl old ↦ rw old (elim (Bool-cases ((f == h) && (s == t) && (c == d))) [
      | inr e ↦ rw e (ground arith)
      | inl e ↦
          let ef : f ≡ h = ==→≡ f h (ground arith) in
          let es : s ≡ t = ==→≡ s t (ground arith) in
          let ec : c ≡ d = ==→≡ c d (ground arith) in
          let there : has_edge ops st.cg h d t ≡ true = cc (ef, es, ec, old) in ground arith
    ])
  ]

  -- No change is reported only if there was none.
  abbrev pub IsReported : State Cg → State Cg → Type 0
  IsReported st st' = (st'.change ≡ true) ⊎ ((st.change ≡ false) × (st'.cg ≡ st.cg))

  IsReported-refl : (st : State Cg) → IsReported st st
  IsReported-refl st = elim (Bool-cases st.change) [ inl e ↦ inl e | inr e ↦ inr (e, refl) ]

  IsReported-trans : (r s t : State Cg) → IsReported r s → IsReported s t → IsReported r t
  IsReported-trans r s t p (inl c) = inl c
  IsReported-trans r s t (inl c) (inr (d, e)) = absurd (ground arith)
  IsReported-trans r s t (inr (c, e)) (inr (d, e')) = inr (c, e' ∙ e)

  -- The edges that a part of the phase adds, and the calls that it takes for resolved.
  pub record Adds (asked : ℕ → ℕ → ℕ → Bool) (settled : ℕ → Bool) (st st' : State Cg) : Type 0 where
    pub edges : (h d t : ℕ) → has_edge ops st'.cg h d t ≡ (has_edge ops st.cg h d t || asked h d t)
    pub resolved : (t : ℕ) → member t st'.resolved ≡ (member t st.resolved || settled t)
    pub reported : IsReported st st'

  pub Adds-none : (st st' : State Cg) → st ≡ st' → Adds (λ h d t. false) (λ t. false) st st'
  Adds-none st st' e = rw (sym e) (record {
    edges = λ h d t. ground arith;
    resolved = λ t. ground arith;
    reported = IsReported-refl st;
  })

  -- The same in other words.
  pub Adds-same :
      (a b : ℕ → ℕ → ℕ → Bool) (x y : ℕ → Bool) (st s s' : State Cg)
      → ((h d t : ℕ) → a h d t ≡ b h d t)
      → ((t : ℕ) → x t ≡ y t)
      → s ≡ s'
      → Adds a x st s
      → Adds b y st s'
  Adds-same a b x y st s s' ab xy e q = rw (sym e) (record {
    edges = λ h d t. q.edges h d t ∙ ap (λ z. has_edge ops st.cg h d t || z) (ab h d t);
    resolved = λ t. q.resolved t ∙ ap (λ z. member t st.resolved || z) (xy t);
    reported = q.reported;
  })

  pub Adds-both :
      (a b : ℕ → ℕ → ℕ → Bool) (x y : ℕ → Bool) (r s t : State Cg)
      → Adds a x r s
      → Adds b y s t
      → Adds (λ h d i. a h d i || b h d i) (λ i. x i || y i) r t
  Adds-both a b x y r s t p q = record {
    edges = λ h d i. ground (arith, p.edges h d i, q.edges h d i);
    resolved = λ i. ground (arith, p.resolved i, q.resolved i);
    reported = IsReported-trans r s t p.reported q.reported;
  }

  IsReported-add_edge : (f s c : ℕ) (st : State Cg) → IsReported st (add_edge ops f s c st)
  unfolding add_edge
  IsReported-add_edge f s c st = elim (Bool-cases (has_edge ops st.cg f c s)) [
    | inl old ↦ rw old (IsReported-refl st)
    | inr new ↦ rw new (inl refl)
  ]

  resolved-add_edge : (f s c : ℕ) (st : State Cg) → (add_edge ops f s c st).resolved ≡ st.resolved
  unfolding add_edge
  resolved-add_edge f s c st = ground arith

  add_edge-Adds :
      (f s c : ℕ) (st : State Cg)
      → Adds (λ h d t. (f == h) && (s == t) && (c == d)) (λ t. false) st (add_edge ops f s c st)
  add_edge-Adds f s c st = record {
    edges = has_edge-add_edge f s c st;
    resolved = λ t. ground (arith, resolved-add_edge f s c st);
    reported = IsReported-add_edge f s c st;
  }

  module _ (l : Llvm) (p : Program) where
    add_callees_skip :
        (f s v : ℕ) (vs : List ℕ) (st : State Cg) (b : Bool)
        → callee_of l p s v ≡ none
        → add_callees l p Cg ops f s (v ∷ vs) (st, b) ≡ add_callees l p Cg ops f s vs (st, b)
    unfolding add_callees
    add_callees_skip f s v vs st b e = ground arith

    add_callees_take :
        (f s v c : ℕ) (vs : List ℕ) (st : State Cg) (b : Bool)
        → callee_of l p s v ≡ some c
        → add_callees l p Cg ops f s (v ∷ vs) (st, b)
          ≡ add_callees l p Cg ops f s vs (add_edge ops f s c st, true)
    unfolding add_callees
    add_callees_take f s v c vs st b e = ground arith

    pub add_callees_end :
        (f s : ℕ) (st : State Cg) (b : Bool) → add_callees l p Cg ops f s [] (st, b) ≡ (st, b)
    unfolding add_callees
    add_callees_end f s st b = refl

    -- What the loop over the allocation sites of a node adds, and whether it finds a function.
    pub add_callees-Adds :
        (f s : ℕ) (vs : List ℕ) (st : State Cg) (b : Bool)
        → Adds
            (λ h d t. (f == h) && (s == t) && any_of (is_callee l p s d) vs)
            (λ t. false)
            st
            (add_callees l p Cg ops f s vs (st, b)).0
          × ((add_callees l p Cg ops f s vs (st, b)).1 ≡ (b || any_of (calls_something l p s) vs))
    add_callees-Adds f s [] st b = (
      Adds-same (λ h d t. false) (λ h d t. (f == h) && (s == t) && false) (λ t. false) (λ t. false)
          st st (add_callees l p Cg ops f s [] (st, b)).0 (λ h d t. ground arith) (λ t. refl)
          (sym (ap (λ r. r.0) (add_callees_end f s st b))) (Adds-none st st refl),
      ap (λ r. r.1) (add_callees_end f s st b) ∙ ground arith,
    )
    add_callees-Adds f s (v ∷ vs) st b = elim (Option-cases (callee_of l p s v)) [
      | inl stay ↦
          let no = callee_of-none l p s v stay in
          let (q, found) = add_callees-Adds f s vs st b in
          let same = add_callees_skip f s v vs st b stay in
          (
            Adds-same (λ h d t. (f == h) && (s == t) && any_of (is_callee l p s d) vs)
                (λ h d t. (f == h) && (s == t) && any_of (is_callee l p s d) (v ∷ vs)) (λ t. false)
                (λ t. false) st (add_callees l p Cg ops f s vs (st, b)).0
                (add_callees l p Cg ops f s (v ∷ vs) (st, b)).0 (λ h d t. ground arith) (λ t. refl)
                (sym (ap (λ r. r.0) same)) q,
            ap (λ r. r.1) same ∙ found ∙ ground arith,
          )
      | inr (c, go) ↦
          let st1 = add_edge ops f s c st in
          let (legal, is) = callee_of-some l p s v c go in
          let test : (d : ℕ) → (p.strip_aliases v == d) ≡ (c == d) = λ d. ap (λ x. x == d) is in
          let (q, found) = add_callees-Adds f s vs st1 true in
          let same = add_callees_take f s v c vs st b go in
          let one = add_edge-Adds f s c st in
          (
            Adds-same
                (λ h d t.
                  ((f == h) && (s == t) && (c == d))
                  || ((f == h) && (s == t) && any_of (is_callee l p s d) vs))
                (λ h d t. (f == h) && (s == t) && any_of (is_callee l p s d) (v ∷ vs))
                (λ t. false || false) (λ t. false) st (add_callees l p Cg ops f s vs (st1, true)).0
                (add_callees l p Cg ops f s (v ∷ vs) (st, b)).0 (λ h d t. ground (arith, test d))
                (λ t. refl) (sym (ap (λ r. r.0) same))
                (Adds-both (λ h d t. (f == h) && (s == t) && (c == d))
                  (λ h d t. (f == h) && (s == t) && any_of (is_callee l p s d) vs) (λ t. false)
                  (λ t. false) st st1 (add_callees l p Cg ops f s vs (st1, true)).0 one q),
            ap (λ r. r.1) same ∙ found ∙ ground arith,
          )
    ]
