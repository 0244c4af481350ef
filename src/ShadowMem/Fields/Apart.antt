-- ===== src/ShadowMem/Fields/Apart.antt =====
-- The numbers that getFieldId of lib/seadsa/ShadowMem.cc gives to the fields of nodes.
use sea_dsa.Common.{
  ℕ, ◌+◌, ◌^◌, ◌≤◌, ◌<◌, ◌≡◌, ◌⊎◌, refl, arith, inl, inr, ap, false, Bool-cases, Option-cases, none,
  some, List, lookup, put, lookup-put, ◌==◌, ==→≡, if◌then◌else◌,
}
use sea_dsa.Common.Words.{add32}
use sea_dsa.ShadowMem.Fields.{get_field_id}

-- The numbers that a node of this size takes.
abbrev pub width : ℕ → ℕ
width size = if size == 0 then 1 else size

-- Each node has its numbers, below `max_id`, and no two nodes share one.
pub record IsApart (size : ℕ → ℕ) (ids : List (ℕ × ℕ)) (max_id : ℕ) : Type 0 where
  pub below : (n i : ℕ) → lookup n ids ≡ some i → i + width (size n) ≤ max_id
  pub apart :
      (n m i j : ℕ)
      → lookup n ids ≡ some i
      → lookup m ids ≡ some j
      → (n == m) ≡ false
      → (i + width (size n) ≤ j) ⊎ (j + width (size m) ≤ i)

-- What a call for the field at `o` of node `n` does.
pub record IsAssigned (size : ℕ → ℕ) (n o : ℕ) (before : List (ℕ × ℕ)) (id : ℕ)
    (after : List (ℕ × ℕ)) (max_id : ℕ) : Type 0 where
  pub is_apart : IsApart size after max_id
  pub kept : (m i : ℕ) → lookup m before ≡ some i → lookup m after ≡ some i
  pub base : ℕ
  pub found : lookup n after ≡ some base
  pub at : id ≡ base + o
  pub unique :
      (m j p : ℕ) → lookup m after ≡ some j → p < width (size m) → id ≡ j + p → (n ≡ m) × (o ≡ p)

add32_small : (a b : ℕ) → a + b < 2 ^ 32 → add32 a b ≡ a + b
add32_small a b h = omega arith

module _ (size : ℕ → ℕ) where
  -- A node that has no numbers yet takes the next ones.
  put-IsApart :
      (n : ℕ) (ids : List (ℕ × ℕ)) (max_id : ℕ)
      → IsApart size ids max_id
      → lookup n ids ≡ none
      → IsApart size (put n max_id ids) (max_id + width (size n))
  put-IsApart n ids mx w new = record { below = bound; apart = disjoint }
    where
      value :
          (m i : ℕ)
          → lookup m (put n mx ids) ≡ some i
          → ((n ≡ m) × (mx ≡ i)) ⊎ (lookup m ids ≡ some i)
      value m i h = elim (Bool-cases (n == m)) [
        | inl e ↦ inl (==→≡ n m e, ground (arith, lookup-put n m mx ids))
        | inr e ↦ inr (ground (arith, lookup-put n m mx ids))
      ]

      bound :
          (m i : ℕ) → lookup m (put n mx ids) ≡ some i → i + width (size m) ≤ mx + width (size n)
      bound m i h = elim (value m i h) [
        | inl (e, e') ↦
            let s : width (size n) ≡ width (size m) = ap (λ x. width (size x)) e in omega arith
        | inr old ↦ let b = w.below m i old in omega arith
      ]

      disjoint :
          (a b i j : ℕ)
          → lookup a (put n mx ids) ≡ some i
          → lookup b (put n mx ids) ≡ some j
          → (a == b) ≡ false
          → (i + width (size a) ≤ j) ⊎ (j + width (size b) ≤ i)
      disjoint a b i j h h' ne = elim (value a i h) [
        | inl (e, e') ↦ elim (value b j h') [
          | inl (f, f') ↦ absurd (ground arith)
          | inr old ↦ let z = w.below b j old in inr (omega arith)
        ]
        | inr old ↦ elim (value b j h') [
          | inl (f, f') ↦ let z = w.below a i old in inl (omega arith)
          | inr old' ↦ w.apart a b i j old old' ne
        ]
      ]

  -- Numbers that are apart are those of one field only.
  one_field :
      (ids : List (ℕ × ℕ)) (mx n i o m j p : ℕ)
      → IsApart size ids mx
      → lookup n ids ≡ some i
      → lookup m ids ≡ some j
      → o < width (size n)
      → p < width (size m)
      → i + o ≡ j + p
      → (n ≡ m) × (o ≡ p)
  one_field ids mx n i o m j p w h h' ho hp e = elim (Bool-cases (n == m)) [
    | inl same ↦
        let q = ==→≡ n m same in
        let r : lookup n ids ≡ lookup m ids = ap (λ x. lookup x ids) q in
        let s : i ≡ j = cc in (q, omega arith)
    | inr ne ↦ elim (w.apart n m i j h h' ne) [
      | inl far ↦ absurd (omega arith)
      | inr far ↦ absurd (omega arith)
    ]
  ]

-- As long as the numbers stay below 2^32 and those of the nodes of the table are apart, getFieldId
-- gives a field that lies in its node, in or out of the table, a number that no other field of any
-- node of the table has; the numbers of the nodes that were in the table stay as they are, and all
-- stay apart.
pub get_field_id-IsAssigned :
    (size : ℕ → ℕ) (n o : ℕ) (ids : List (ℕ × ℕ)) (max_id : ℕ)
    → IsApart size ids max_id
    → o < width (size n)
    → max_id + width (size n) < 2 ^ 32
    → (id : ℕ) × (ids' : List (ℕ × ℕ)) × (max_id' : ℕ) × (get_field_id n (size n) o ids max_id
        ≡ some (id, ids', max_id'))
      × IsAssigned size n o ids id ids' max_id'
unfolding get_field_id
get_field_id-IsAssigned size n o ids mx w small room = elim (Option-cases (lookup n ids)) [
  | inr (i, h) ↦
      let b = w.below n i h in
      (
        i + o,
        ids,
        mx,
        ground (arith, add32_small i o (omega arith)),
        record {
          is_apart = w;
          kept = λ m j q. q;
          base = i;
          found = h;
          at = refl;
          unique = λ m j p q hp e. one_field size ids mx n i o m j p w h q small hp e;
        },
      )
  | inl new ↦
      let a : add32 mx o ≡ mx + o = add32_small mx o (omega arith) in
      let b : add32 mx (width (size n)) ≡ mx + width (size n) =
        add32_small mx (width (size n)) (omega arith) in
      let new_number : get_field_id n (size n) o ids mx
          ≡ some (mx + o, put n mx ids, mx + width (size n)) =
        elim (Bool-cases (size n == 0)) [
          | inl e ↦ ground (arith, a, b)
          | inr e ↦ ground (arith, a, b)
        ] in
      let w' = put-IsApart size n ids mx w new in
      let found : lookup n (put n mx ids) ≡ some mx = ground (arith, lookup-put n n mx ids) in
      (
        mx + o,
        put n mx ids,
        mx + width (size n),
        new_number,
        record {
          is_apart = w';
          kept = λ m j q. ground (arith, lookup-put n m mx ids);
          base = mx;
          found = found;
          at = refl;
          unique = λ m j p q hp e.
              one_field size (put n mx ids) (mx + width (size n)) n mx o m j p w' found q small hp
                e;
        },
      )
]
