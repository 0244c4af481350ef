-- ===== src/Graph/Merge/Walk/Report.antt =====
-- mergeUniqueScalar and mergeAllocSites of lib/seadsa/Graph.cc, along links: which graph changes.
use sea_dsa.Common.{
  ℕ, zero, suc, ◌≡◌, refl, Bool, true, false, ◌||◌, some, List, [], ◌∷◌, ◌==◌, arith, inl, inr,
  Option, sym, ◌⊎◌, Bool-cases, Option-cases, member, lookup, put, if◌then◌else◌, ==→≡,
}
use sea_dsa.Llvm.{Llvm}
use sea_dsa.FieldType.{Field}
use sea_dsa.Graph.{Cell, Node, Graph, set_node}
use sea_dsa.Graph.Query.{place, link?, is_proper}
use sea_dsa.Graph.Merge.{changed, or_changed}
use sea_dsa.Graph.Merge.Laws.{merge_unique_scalars-IsAgreed, merge_alloc_sites-IsMerged}
use sea_dsa.Graph.Merge.Walk.{
  Step, Walk, unique_scalar_step, alloc_site_step, merge_links, merge_walk, merge_from,
}

-- A step reports every change of its nodes.
pub record IsHonest (step : Step) : Type 0 where
  pub first : (a b : Node) → ((step a b).2.this ≡ true) ⊎ ((step a b).0 ≡ a)
  pub second : (a b : Node) → ((step a b).2.other ≡ true) ⊎ ((step a b).1 ≡ b)

unique_scalar_step-IsHonest : IsHonest unique_scalar_step
unique_scalar_step-IsHonest = record {
  first = λ a b. elim (merge_unique_scalars-IsAgreed a b).this [
    | inl (c, r) ↦ inr r
    | inr (c, r, d) ↦ inl c
  ];
  second = λ a b. elim (merge_unique_scalars-IsAgreed a b).other [
    | inl (c, r) ↦ inr r
    | inr (c, r, d) ↦ inl c
  ];
}

alloc_site_step-IsHonest : IsHonest alloc_site_step
alloc_site_step-IsHonest = record {
  first = λ a b. elim (merge_alloc_sites-IsMerged a.alloca_sites b.alloca_sites).this_kept [
    | inl c ↦ inl c
    | inr r ↦ inr (λ i. record a { alloca_sites = r i })
  ];
  second = λ a b. elim (merge_alloc_sites-IsMerged a.alloca_sites b.alloca_sites).other_kept [
    | inl c ↦ inl c
    | inr r ↦ inr (λ i. record b { alloca_sites = r i })
  ];
}

put_same : {V : Type 0} (k : ℕ) (v : V) (m : List (ℕ × V)) → lookup k m ≡ some v → put k v m ≡ m
put_same k v [] h = absurd (ground arith)
put_same k v ((j, w) ∷ m) h = elim (Bool-cases (j == k)) [
  | inl e ↦ let q : j ≡ k = ==→≡ j k e in ground arith
  | inr e ↦ let q = put_same k v m (ground arith) in ground arith
]

set_node_same :
    (n : ℕ) (a b : Node) (g : Graph) → lookup n g.nodes ≡ some a → b ≡ a → set_node n b g ≡ g
set_node_same n a b g h e = λ i. record g { nodes = q i }
  where
    q : put n b g.nodes ≡ g.nodes
    q = rw e (put_same n a g.nodes h)

-- From one walk to a later one, a graph changes only if this is reported, and what was reported
-- stays so.
abbrev pub Reports : Bool → Graph → Bool → Graph → Type 0
Reports c g c' g' = (c' ≡ true) ⊎ ((c ≡ false) × (g' ≡ g))

Reports-trans : (a b c : Bool) (g h k : Graph) → Reports a g b h → Reports b h c k → Reports a g c k
Reports-trans a b c g h k p (inl q) = inl q
Reports-trans a b c g h k (inl p) (inr (q, e)) = absurd (ground arith)
Reports-trans a b c g h k (inr (p, f)) (inr (q, e)) = inr (p, cc (f, e))

record ReportsBoth (w w' : Walk) : Type 0 where
  first : Reports w.result.this w.this w'.result.this w'.this
  second : Reports w.result.other w.other w'.result.other w'.other

ReportsBoth-trans : (u v w : Walk) → ReportsBoth u v → ReportsBoth v w → ReportsBoth u w
ReportsBoth-trans u v w p q = record {
  first =
      Reports-trans u.result.this v.result.this w.result.this u.this v.this w.this p.first q.first;
  second =
      Reports-trans u.result.other v.result.other w.result.other u.other v.other w.other p.second
        q.second;
}

Reports-refl : (c : Bool) (g : Graph) → Reports c g c g
Reports-refl true g = inl refl
Reports-refl false g = inr (refl, refl)

ReportsBoth-refl : (w w' : Walk) → w ≡ w' → ReportsBoth w w'
ReportsBoth-refl w w' e = rw (sym e) (record {
  first = Reports-refl w.result.this w.this;
  second = Reports-refl w.result.other w.other;
})

module _ (l : Llvm) where
  merge_links-ReportsBoth :
      (step : Step) (rec : ℕ → ℕ → Walk → Option Walk)
      → ((n m : ℕ) (w w' : Walk) → rec n m w ≡ some w' → ReportsBoth w w')
      → (a : Node) (ls : List (Field × Cell)) (w w' : Walk)
      → merge_links l step rec a ls w ≡ some w'
      → ReportsBoth w w'
  unfolding merge_links
  merge_links-ReportsBoth step rec ih a [] w w' h = ReportsBoth-refl w w' (ground arith)
  merge_links-ReportsBoth step rec ih a ((key, c) ∷ ls) w w' h =
      elim (Option-cases (place w.other c)) [
        | inl e ↦ absurd (ground arith)
        | inr (q, eq) ↦ elim (Bool-cases (is_proper l key)) [
          | inr e ↦ absurd (ground arith)
          | inl proper ↦ elim (Option-cases (link? l a key)) [
            | inl e ↦ merge_links-ReportsBoth step rec ih a ls w w' (ground arith)
            | inr (d, ed) ↦ elim (Option-cases (place w.this d)) [
              | inl e ↦ absurd (ground arith)
              | inr (p, ep) ↦ elim (Option-cases (rec p.address q.address w)) [
                | inl e ↦ absurd (ground arith)
                | inr (v, ran) ↦
                    ReportsBoth-trans w v w' (ih p.address q.address w v ran)
                      (merge_links-ReportsBoth step rec ih a ls v w' (ground arith))
              ]
            ]
          ]
        ]
      ]

  or_Reports : (c d : Bool) (g h : Graph) → ((d ≡ true) ⊎ (h ≡ g)) → Reports c g (c || d) h
  or_Reports true d g h r = inl (ground arith)
  or_Reports false true g h r = inl (ground arith)
  or_Reports false false g h (inl r) = absurd (ground arith)
  or_Reports false false g h (inr r) = inr (refl, r)

  module _ (step : Step) (honest : IsHonest step) where
    -- The step at one pair of nodes.
    step-ReportsBoth :
        (n m : ℕ) (a b : Node) (w : Walk)
        → lookup n w.this.nodes ≡ some a
        → lookup m w.other.nodes ≡ some b
        → ReportsBoth w (record {
          result = or_changed w.result (step a b).2;
          seen = m ∷ w.seen;
          this = set_node n (step a b).0 w.this;
          other = set_node m (step a b).1 w.other;
        })
    unfolding or_changed
    step-ReportsBoth n m a b w la lb = record {
      first =
          or_Reports w.result.this (step a b).2.this w.this (set_node n (step a b).0 w.this)
            (elim (honest.first a b) [
              | inl c ↦ inl c
              | inr e ↦ inr (set_node_same n a (step a b).0 w.this la e)
            ]);
      second =
          or_Reports w.result.other (step a b).2.other w.other (set_node m (step a b).1 w.other)
            (elim (honest.second a b) [
              | inl c ↦ inl c
              | inr e ↦ inr (set_node_same m b (step a b).1 w.other lb e)
            ]);
    }

    merge_walk-ReportsBoth :
        (k n m : ℕ) (w w' : Walk) → merge_walk l step k n m w ≡ some w' → ReportsBoth w w'
    unfolding merge_walk
    merge_walk-ReportsBoth zero n m w w' h = absurd (ground arith)
    merge_walk-ReportsBoth (suc k) n m w w' h = elim (Bool-cases (member m w.seen)) [
      | inl e ↦ ReportsBoth-refl w w' (ground arith)
      | inr e ↦ elim (Option-cases (lookup n w.this.nodes)) [
        | inl la ↦ absurd (ground arith)
        | inr (a, la) ↦ elim (Option-cases (lookup m w.other.nodes)) [
          | inl lb ↦ absurd (ground arith)
          | inr (b, lb) ↦
              let v : Walk = record {
                result = or_changed w.result (step a b).2;
                seen = m ∷ w.seen;
                this = set_node n (step a b).0 w.this;
                other = set_node m (step a b).1 w.other;
              } in
              ReportsBoth-trans w v w' (step-ReportsBoth n m a b w la lb) (
                merge_links-ReportsBoth step (merge_walk l step k) (merge_walk-ReportsBoth k)
                  (step a b).0 b.links v w' (ground arith))
        ]
      ]
    ]

    pub merge_from-IsHonest :
        (k n m : ℕ) (g h : Graph) (w : Walk)
        → merge_from l step k n m g h ≡ some w
        → ((w.result.this ≡ true) ⊎ (w.this ≡ g)) × ((w.result.other ≡ true) ⊎ (w.other ≡ h))
    unfolding merge_from
    merge_from-IsHonest k n m g h w ran =
        let r =
          merge_walk-ReportsBoth k n m
            (record { result = changed false false; seen = []; this = g; other = h }) w ran in
        (
          elim r.first [ inl c ↦ inl c | inr (c, e) ↦ inr e ],
          elim r.second [ inl c ↦ inl c | inr (c, e) ↦ inr e ],
        )

-- The steps of mergeUniqueScalar and mergeAllocSites.
abbrev pub step_of : Bool → Step
step_of scalars = if scalars then unique_scalar_step else alloc_site_step

pub step_of-IsHonest : (b : Bool) → IsHonest (step_of b)
step_of-IsHonest true = unique_scalar_step-IsHonest
step_of-IsHonest false = alloc_site_step-IsHonest

-- mergeUniqueScalar and mergeAllocSites, where they end, report every change: along all links, each
-- of the two graphs stays as it was or the result has its bit set.
pub merge_from-step_of :
    (l : Llvm) (scalars : Bool) (k n m : ℕ) (g h : Graph) (w : Walk)
    → merge_from l (step_of scalars) k n m g h ≡ some w
    → ((w.result.this ≡ true) ⊎ (w.this ≡ g)) × ((w.result.other ≡ true) ⊎ (w.other ≡ h))
merge_from-step_of l scalars = merge_from-IsHonest l (step_of scalars) (step_of-IsHonest scalars)
