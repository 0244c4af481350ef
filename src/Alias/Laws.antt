-- ===== src/Alias/Laws.antt =====
-- mayAlias of lib/seadsa/SeaDsaAliasAnalysis.cc: what its answers mean.
use sea_dsa.Common.{
  ℕ, ◌+◌, ◌%◌, ◌^◌, ◌<◌, true, false, some, List, [], ◌∷◌, ◌≡◌, ◌≢◌, ◌⊎◌, inl, inr, arith, lookup,
  leb, ◌==◌, ==→≡, if◌then◌else◌, all_of, member, is_empty, ==_refl, Bool-cases, Option-cases,
}
use sea_dsa.Llvm.{Llvm}
use sea_dsa.Graph.{Cell, Node, Graph}
use sea_dsa.Graph.Offset.{adjust}
use sea_dsa.Graph.Query.{Place, place, place_offset}
use sea_dsa.Alias.{maybe_unsafe, size_of, may_overlap, may_alias_places, may_alias}

place-node :
    (g : Graph) (c : Cell) (p : Place) → place g c ≡ some p → lookup p.address g.nodes ≡ some p.node
unfolding place
place-node g c p h = ground arith

same-node :
    (g : Graph) (c d : Cell) (p q : Place)
    → place g c ≡ some p
    → place g d ≡ some q
    → p.address ≡ q.address
    → p.node ≡ q.node
same-node g c d p q h k e = ground (arith, place-node g c p, place-node g d q)

module _ (l : Llvm) where
  -- All types of a set with a size have that size.
  all_of_size :
      (t sz : ℕ) (ts : List ℕ)
      → all_of (λ u. l.store_size u == sz) ts ≡ true
      → member t ts ≡ true
      → l.store_size t ≡ sz
  all_of_size t sz [] h m = cc
  all_of_size t sz (u ∷ ts) h m = ground (arith, all_of_size t sz ts)

  size_of-size :
      (t sz : ℕ) (ts : List ℕ) → size_of l ts ≡ some sz → member t ts ≡ true → l.store_size t ≡ sz
  unfolding size_of
  size_of-size t sz [] h m = cc
  size_of-size t sz (u ∷ ts) h m = ground (arith, all_of_size t (l.store_size u) ts)

  overlap_comm :
      (n : Node) (a b : ℕ)
      → (if leb a b then may_overlap l n a b else may_overlap l n b a)
        ≡ (if leb b a then may_overlap l n b a else may_overlap l n a b)
  overlap_comm n a b = ground arith

  -- The lower of two offsets has a type at least, all of one size, and they end before the higher one.
  pub record Below (n : Node) (a b : ℕ) : Type 0 where
    pub types : List ℕ
    pub size : ℕ
    pub a_type : ℕ
    pub one_at_least : member a_type types ≡ true
    pub accessed : lookup (adjust n a) n.accessed_types ≡ some types
    pub sized : (t : ℕ) → member t types ≡ true → l.store_size t ≡ size
    pub before : (a + size) % 2 ^ 64 < b

  abbrev pub Disjoint : Node → ℕ → ℕ → Type 0
  Disjoint n a b = Below n a b ⊎ Below n b a

  a_member : (ts : List ℕ) → is_empty ts ≡ false → (t : ℕ) × (member t ts ≡ true)
  a_member [] h = absurd (ground arith)
  a_member (t ∷ ts) h = (t, ground (arith, ==_refl t))

  may_overlap-Below : (n : Node) (a b : ℕ) → may_overlap l n a b ≡ false → Below n a b
  unfolding may_overlap
  may_overlap-Below n a b h = elim (Option-cases (lookup (adjust n a) n.accessed_types)) [
    | inl gone ↦ absurd (ground arith)
    | inr (ts, here) ↦ elim (Option-cases (size_of l ts)) [
      | inl mixed ↦ absurd (ground arith)
      | inr (sz, e) ↦
          let (t, m) = a_member ts (ground arith) in
          record {
            types = ts;
            a_type = t;
            one_at_least = m;
            size = sz;
            accessed = here;
            sized = λ t m. size_of-size t sz ts e m;
            before = ground arith;
          }
    ]
  ]

  places_comm :
      (p q : Place)
      → (p.address ≡ q.address → p.node ≡ q.node)
      → may_alias_places l p q ≡ may_alias_places l q p
  unfolding may_alias_places
  places_comm p q same = elim (Bool-cases (p.address == q.address)) [
    | inl e ↦
        let here : p.node ≡ q.node = same (==→≡ p.address q.address e) in
        rw here (ground (arith, overlap_comm q.node (adjust q.node p.raw) (adjust q.node q.raw)))
    | inr e ↦ ground arith
  ]

  -- The order of the two cells of a query does not matter.
  pub may_alias_comm : (g : Graph) (c d : Cell) → may_alias l g c d ≡ may_alias l g d c
  unfolding may_alias
  may_alias_comm g c d = elim (Option-cases (place g c)) [
    | inl lost ↦ ground arith
    | inr (p, e) ↦ elim (Option-cases (place g d)) [
      | inl lost ↦ ground arith
      | inr (q, f) ↦ ground (arith, places_comm p q (same-node g c d p q e f))
    ]
  ]

  -- What the answer that two cells do not alias rests on.
  pub record Apart (p q : Place) : Type 0 where
    pub safe : (maybe_unsafe p.node ≡ false) × (maybe_unsafe q.node ≡ false)
    -- two objects, or two ranges of one
    pub separate :
        (p.address ≢ q.address)
        ⊎ (p.node.flags.offset_collapsed ≡ false)
          × Disjoint p.node (place_offset p) (place_offset q)

  -- The answer is `false` for two places only if both nodes are known exactly and they are
  -- different, or the node is not collapsed and there are types at the lower offset, all of one size,
  -- with which they end before the higher offset.
  pub may_alias_places-Apart : (p q : Place) → may_alias_places l p q ≡ false → Apart p q
  unfolding may_alias_places
  may_alias_places-Apart p q h = record {
    safe = (ground arith, ground arith);
    separate = elim (Bool-cases (p.address == q.address)) [
      | inr e ↦ inl (λ same. ground arith)
      | inl e ↦ inr (
        ground arith,
        elim (Bool-cases (leb (place_offset p) (place_offset q))) [
          | inl le ↦ inl (may_overlap-Below p.node (place_offset p) (place_offset q) (ground arith))
          | inr gt ↦ inr (may_overlap-Below p.node (place_offset q) (place_offset p) (ground arith))
        ],
      )
    ];
  }
