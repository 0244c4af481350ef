-- ===== src/Mapper/Injective/Laws.antt =====
-- isInjective of lib/seadsa/Mapper.cc: what it answers.
use sea_dsa.Common.{
  ℕ, ◌+◌, ◌≤◌, ◌<◌, ◌≡◌, ◌⊎◌, ◌∙◌, ◌++◌, ◌&&◌, refl, lookup, Bool, true, false, some, List, [], ◌∷◌,
  ◌==◌, arith, inl, inr, Bool-cases, Option-cases, if◌then◌else◌, ==→≡, ==_refl,
}
use sea_dsa.FieldType.{Field}
use sea_dsa.Graph.{Node, Graph}
use sea_dsa.Mapper.{Sim}
use sea_dsa.Mapper.Injective.{
  targets_of, inverse, same, has_target, counts, injective_loop, is_injective,
}

-- How often a cell is in a list.
abbrev pub times_in : ℕ × ℕ → List (ℕ × ℕ) → ℕ
times_in c [] = 0
times_in c (d ∷ ds) = (if same d c then 1 else 0) + times_in c ds

-- How often the cell at `o` of `n` simulates a node: once for each node that is simulated with the
-- field at `o` of `n`.
abbrev pub cells_at : (n o : ℕ) → List (ℕ × Field) → ℕ
cells_at n o [] = 0
cells_at n o ((k, f) ∷ s) = (if (k == n) && (f.offset == o) then 1 else 0) + cells_at n o s

abbrev pub simulations : (n o : ℕ) → Sim → ℕ
simulations n o [] = 0
simulations n o ((k, s) ∷ m) = cells_at n o s + simulations n o m

times_in-append :
    (c : ℕ × ℕ) (xs ys : List (ℕ × ℕ)) → times_in c (xs ++ ys) ≡ times_in c xs + times_in c ys
times_in-append c [] ys = omega arith
times_in-append c (x ∷ xs) ys = omega (arith, times_in-append c xs ys)

cells_at-targets_of :
    (n o : ℕ) (s : List (ℕ × Field)) → times_in (n, o) (targets_of s) ≡ cells_at n o s
unfolding targets_of
cells_at-targets_of n o [] = refl
cells_at-targets_of n o ((k, f) ∷ s) = omega (arith, cells_at-targets_of n o s)

simulations-inverse : (n o : ℕ) (m : Sim) → times_in (n, o) (inverse m) ≡ simulations n o m
unfolding inverse
simulations-inverse n o [] = refl
simulations-inverse n o ((k, s) ∷ m) =
    times_in-append (n, o) (targets_of s) (inverse m)
    ∙ omega (arith, cells_at-targets_of n o s, simulations-inverse n o m)

module _ (to : Graph) (only_modified : Bool) where
  repeats_at_most_once :
      (n o : ℕ) (seen cs : List (ℕ × ℕ))
      → counts to only_modified n ≡ some true
      → injective_loop to only_modified seen cs ≡ some true
      → (if has_target (n, o) seen then 1 else 0) + times_in (n, o) cs ≤ 1
  unfolding injective_loop
  repeats_at_most_once n o seen [] counted h = ground arith
  repeats_at_most_once n o seen ((m, p) ∷ cs) counted h =
      elim (Option-cases (counts to only_modified m)) [
        | inl dangling ↦ absurd (ground arith)
        | inr (false, skipped) ↦
            let ih = repeats_at_most_once n o ((m, p) ∷ seen) cs counted (ground arith) in
            elim (Bool-cases (m == n)) [
              | inl e ↦
                  let e' : m ≡ n = ==→≡ m n e in
                  let counted' : counts to only_modified m ≡ some true = cc (e', counted) in
                  absurd (ground arith)
              | inr e ↦ ground arith
            ]
        | inr (true, taken) ↦ elim (Bool-cases (has_target (m, p) seen)) [
          | inl twice ↦ absurd (ground arith)
          | inr once ↦
              let ih = repeats_at_most_once n o ((m, p) ∷ seen) cs counted (ground arith) in
              elim (Bool-cases (same (m, p) (n, o))) [
                | inl e ↦
                    let em : m ≡ n = ==→≡ m n (ground arith) in
                    let ep : p ≡ o = ==→≡ p o (ground arith) in
                    let once' : has_target (n, o) seen ≡ false = cc (em, ep, once) in ground arith
                | inr e ↦ ground arith
              ]
        ]
      ]

  repeats_twice :
      (seen cs : List (ℕ × ℕ))
      → injective_loop to only_modified seen cs ≡ some false
      → (n : ℕ) × (o : ℕ) × (counts to only_modified n ≡ some true)
        × (1 < (if has_target (n, o) seen then 1 else 0) + times_in (n, o) cs)
  unfolding injective_loop
  repeats_twice seen [] h = absurd (ground arith)
  repeats_twice seen ((m, p) ∷ cs) h =
      let later : injective_loop to only_modified ((m, p) ∷ seen) cs ≡ some false
          → (n : ℕ) × (o : ℕ) × (counts to only_modified n ≡ some true)
            × (1 < (if has_target (n, o) seen then 1 else 0) + times_in (n, o) ((m, p) ∷ cs)) =
        λ q.
          let (n, o, counted, more) = repeats_twice ((m, p) ∷ seen) cs q in
          (n, o, counted, ground arith) in
      elim (Option-cases (counts to only_modified m)) [
        | inl dangling ↦ absurd (ground arith)
        | inr (false, skipped) ↦ later (ground arith)
        | inr (true, taken) ↦ elim (Bool-cases (has_target (m, p) seen)) [
          | inl twice ↦ (m, p, taken, ground (arith, ==_refl m, ==_refl p))
          | inr once ↦ later (ground arith)
        ]
      ]

  -- A node of the graph that counts: a modified one, unless all are asked for.
  abbrev pub Counts : ℕ → Type 0
  Counts n =
      (nd : Node) × (lookup n to.nodes ≡ some nd)
      × ((only_modified ≡ false) ⊎ (nd.flags.modified ≡ true))

  counts-Counts : (n : ℕ) → counts to only_modified n ≡ some true → Counts n
  unfolding counts
  counts-Counts n h = elim (Option-cases (lookup n to.nodes)) [
    | inl e ↦ absurd (ground arith)
    | inr (nd, e) ↦ elim (Bool-cases only_modified) [
      | inr all ↦ (nd, e, inl all)
      | inl some' ↦ (nd, e, inr (ground arith))
    ]
  ]

  Counts-counts : (n : ℕ) → Counts n → counts to only_modified n ≡ some true
  unfolding counts
  Counts-counts n (nd, e, inl all) = ground arith
  Counts-counts n (nd, e, inr m) = ground arith

  -- isInjective, where it meets no dangling pointer, answers true exactly if no cell of a node that
  -- counts (a modified one, unless all are asked for) simulates twice.
  pub is_injective-times_in :
      (m : Sim) (b : Bool)
      → is_injective to only_modified m ≡ some b
      → (b ≡ true → (n o : ℕ) → Counts n → simulations n o m ≤ 1)
        × (b ≡ false → (n : ℕ) × (o : ℕ) × Counts n × (1 < simulations n o m))
  unfolding is_injective
  is_injective-times_in m true h = (
    (λ e n o counted. omega (
      arith,
      simulations-inverse n o m,
      repeats_at_most_once n o [] (inverse m) (Counts-counts n counted) h,
    )),
    λ e. absurd (ground arith),
  )
  is_injective-times_in m false h = (
    (λ e. absurd (ground arith)),
    λ e.
        let (n, o, counted, more) = repeats_twice [] (inverse m) h in
        (n, o, counts-Counts n counted, omega (arith, simulations-inverse n o m)),
  )
