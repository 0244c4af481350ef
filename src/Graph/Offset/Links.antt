-- ===== src/Graph/Offset/Links.antt =====
-- Node::setLink, getLink and hasLink of lib/seadsa/Graph.cc and include/seadsa/Graph.hh: what is
-- stored in a node is found again. The map links_type is a list in which fields are found by ==.
use sea_dsa.Common.{
  ℕ, ◌%◌, ◌≡◌, ◌||◌, ◌&&◌, true, false, not, Option, some, none, List, [], ◌∷◌, refl, ap, arith,
  inl, inr, ◌==◌, ==_refl, ==→≡, lookup, lookup-put, is_some, Bool-cases, Option-cases,
  if◌then◌else◌,
}
use sea_dsa.Llvm.{Llvm}
use sea_dsa.FieldType.{
  FieldType, Field, bool_eq, field_eq, type_eq, is_unknown, mk_omni_field, mk_omni_type,
}
use sea_dsa.FieldType.Order.{field_eq_sym, field_eq_trans, type_eq_sym}
use sea_dsa.Graph.{Cell, Node, Graph, ok, load, modify, set_node, is_null, is_forwarding, deref}
use sea_dsa.Graph.Resolve.{resolve, resolve_cell, get_node}
use sea_dsa.Graph.Offset.{
  adjust, node_of, numeric_offset, adjusted_field, find_link, put_link, has_link, get_link,
  set_link,
}

-- Two offsets are one place in a node: all are in a collapsed one, and in an array those that are
-- apart by multiples of its size.
pub data SamePlace (nd : Node) (a b : ℕ) : Type 0 where
  collapsed : nd.flags.offset_collapsed ≡ true → SamePlace nd a b
  wrapped :
      nd.flags.offset_collapsed ≡ false
      → nd.flags.array ≡ true
      → a % nd.size ≡ b % nd.size
      → SamePlace nd a b
  equal : a ≡ b → SamePlace nd a b

SamePlace-adjust : (nd : Node) (a b : ℕ) → SamePlace nd a b → adjust nd a ≡ adjust nd b
SamePlace-adjust nd a b (collapsed e) = ground arith
SamePlace-adjust nd a b (wrapped e f h) = ground arith
SamePlace-adjust nd a b (equal e) = ap (adjust nd) e

adjust-SamePlace : (nd : Node) (a b : ℕ) → adjust nd a ≡ adjust nd b → SamePlace nd a b
adjust-SamePlace nd a b h = elim (Bool-cases nd.flags.offset_collapsed) [
  | inl e ↦ collapsed e
  | inr e ↦ elim (Bool-cases nd.flags.array) [
    | inl f ↦ wrapped e f (ground arith)
    | inr f ↦ equal (ground arith)
  ]
]

module _ (l : Llvm) where
  -- After a link is stored at field `f`, a lookup at `g` finds it if the fields are `==`, and
  -- otherwise what it found before.
  find_link-put_link :
      (f g : Field) (c : Cell) (ls : List (Field × Cell))
      → find_link l g (put_link l f c ls) ≡ (if field_eq l f g then some c else find_link l g ls)
  unfolding find_link put_link
  find_link-put_link f g c [] = refl
  find_link-put_link f g c ((h, d) ∷ ls) = ground (
    arith,
    find_link-put_link f g c ls,
    field_eq_trans l h g f,
    field_eq_trans l h f g,
    field_eq_trans l f h g,
    field_eq_sym l f g,
    field_eq_sym l f h,
  )

  find_link-same :
      (f k : Field) (c : Cell) (ls : List (Field × Cell))
      → k.offset ≡ f.offset
      → type_eq l k.type f.type ≡ true
      → find_link l k (put_link l f c ls) ≡ some c
  unfolding field_eq
  find_link-same f k c ls o t =
      ground (arith, find_link-put_link f k c ls, type_eq_sym l f.type k.type)

  -- A field at the same offset with the omnipotent type.
  omni_apart :
      (s t : FieldType)
      → l.type_aware ≡ true
      → s.is_omni ≡ true
      → t.is_omni ≡ false
      → type_eq l s t ≡ false
  unfolding type_eq is_unknown bool_eq
  omni_apart s t a so to = ground arith

  omni_same : (s : FieldType) → s.is_omni ≡ true → type_eq l mk_omni_type s ≡ true
  unfolding type_eq is_unknown bool_eq
  omni_same s so = ground arith

  find_link-omni_apart :
      (f k : Field) (c : Cell) (ls : List (Field × Cell))
      → l.type_aware ≡ true
      → f.type.is_omni ≡ true
      → k.type.is_omni ≡ false
      → find_link l k (put_link l f c ls) ≡ find_link l k ls
  unfolding field_eq
  find_link-omni_apart f k c ls a fo ko =
      ground (arith, find_link-put_link f k c ls, omni_apart f.type k.type a fo ko)

  find_link-other :
      (f k : Field) (c : Cell) (ls : List (Field × Cell))
      → ¬ (k.offset ≡ f.offset)
      → find_link l k (put_link l f c ls) ≡ find_link l k ls
  unfolding field_eq
  find_link-other f k c ls o = ground (arith, find_link-put_link f k c ls, ==→≡ f.offset k.offset)

  module _ (g : Graph) (n : ℕ) (nd : Node) (here : lookup n g.nodes ≡ some nd)
      (last : is_null nd.forward ≡ true)
      (sized : (not (nd.flags.array && nd.size == 0) || nd.flags.offset_collapsed) ≡ true) where
    node_of_self : node_of n g ≡ ok n g
    unfolding node_of get_node resolve_cell resolve load deref
    node_of_self = ground arith

    numeric_offset-adjust : (o : ℕ) → numeric_offset n o g ≡ ok (adjust nd o) g
    unfolding numeric_offset load
    numeric_offset-adjust o = let self = node_of_self in ground arith

    abbrev place_of : Field → Field
    place_of f = record f { offset = adjust nd f.offset }

    adjusted_field-place_of : (f : Field) → adjusted_field n f g ≡ ok (place_of f) g
    unfolding adjusted_field
    adjusted_field-place_of f = let o = numeric_offset-adjust f.offset in ground arith

    -- What getLink finds in the node.
    abbrev answer : Field → Option Cell
    answer k = elim (find_link l (place_of k) nd.links) [
      | some c ↦ some c
      | none ↦
          if l.type_aware && not k.type.is_omni
          then find_link l (mk_omni_field (place_of k)) nd.links
          else none
    ]

    module _ (k : Field) (aware : (l.type_aware || is_unknown k.type) ≡ true) where
      get_link-answer : (d : Cell) → answer k ≡ some d → get_link l n k g ≡ ok d g
      unfolding get_link load
      get_link-answer d h =
          let p = adjusted_field-place_of k in
          elim (Option-cases (find_link l (place_of k) nd.links)) [
            | inr (c, e) ↦ ground arith
            | inl e ↦ elim (Option-cases (find_link l (mk_omni_field (place_of k)) nd.links)) [
              | inr (c, e') ↦ ground arith
              | inl e' ↦ ground arith
            ]
          ]

      answer-get_link : (d : Cell) → get_link l n k g ≡ ok d g → answer k ≡ some d
      unfolding get_link load
      answer-get_link d h =
          let p = adjusted_field-place_of k in
          elim (Option-cases (find_link l (place_of k) nd.links)) [
            | inr (c, e) ↦ ground arith
            | inl e ↦ elim (Option-cases (find_link l (mk_omni_field (place_of k)) nd.links)) [
              | inr (c, e') ↦ ground arith
              | inl e' ↦ ground arith
            ]
          ]

      has_link-find_link : has_link l n k g ≡ ok (is_some (find_link l (place_of k) nd.links)) g
      unfolding has_link load
      has_link-find_link = let p = adjusted_field-place_of k in ground arith

    -- A link that the node has not.
    has_link-none :
        (k : Field)
        → (l.type_aware || is_unknown k.type) ≡ true
        → has_link l n k g ≡ ok false g
        → find_link l (place_of k) nd.links ≡ none
    has_link-none k aware h = let e = has_link-find_link k aware in ground arith

    set_link-set_node :
        (f : Field) (c : Cell)
        → set_link l n f c g
          ≡ ok tt (set_node n (record nd { links = put_link l (place_of f) c nd.links }) g)
    unfolding set_link load modify
    set_link-set_node f c = let p = adjusted_field-place_of f in ground arith

-- In a node that does not forward, and is no array of size 0 unless it is collapsed, setLink stores a
-- cell, and changes no other node. getLink finds it at every field that is in the same place of the
-- node and has an equal type. It finds it also at a field in the same place with a type that is not
-- omnipotent, if the cell was stored with the omnipotent type, the analysis is type aware, and the
-- field had no link of its own. At fields in other places getLink finds what it found before. The
-- field asked for has no type unless the analysis is type aware.
pub get_link-set_link :
    (l : Llvm) (g : Graph) (n : ℕ) (nd : Node) (f k : Field) (c : Cell)
    → lookup n g.nodes ≡ some nd
    → is_forwarding nd ≡ false
    → (nd.flags.array ≡ true → nd.flags.offset_collapsed ≡ false → ¬ (nd.size ≡ 0))
    → (l.type_aware || is_unknown k.type) ≡ true
    → (h : Graph) × (set_link l n f c g ≡ ok tt h)
      × ((m : ℕ) → (n == m) ≡ false → lookup m h.nodes ≡ lookup m g.nodes)
      × (SamePlace nd k.offset f.offset
          → type_eq l k.type f.type ≡ true
          → get_link l n k h ≡ ok c h)
      × (SamePlace nd k.offset f.offset
          → l.type_aware ≡ true
          → f.type.is_omni ≡ true
          → k.type.is_omni ≡ false
          → has_link l n k g ≡ ok false g
          → get_link l n k h ≡ ok c h)
      × (¬ (SamePlace nd k.offset f.offset)
          → (d : Cell) → get_link l n k g ≡ ok d g
          → get_link l n k h ≡ ok d h)
unfolding mk_omni_field
get_link-set_link l g n nd f k c here last sized aware =
    let nd' = record nd {
      links = put_link l (record f { offset = adjust nd f.offset }) c nd.links;
    } in
    let h = set_node n nd' g in
    let stored : lookup n h.nodes ≡ some nd' =
      ground (arith, lookup-put n n nd' g.nodes, ==_refl n) in
    let sized' : (not (nd.flags.array && nd.size == 0) || nd.flags.offset_collapsed) ≡ true =
      ground (arith, ==→≡ nd.size 0) in
    let last' : is_null nd.forward ≡ true = ground arith in
    let at : (x : Field) → Field = λ x. record x { offset = adjust nd x.offset } in
    let found = get_link-answer l h n nd' stored last' sized' k aware in
    (
      h,
      set_link-set_node l g n nd here last' sized' f c,
      λ m apart. ground (arith, lookup-put n m nd' g.nodes),
      λ same eq. found c (
          let e =
            find_link-same l (at f) (at k) c nd.links (SamePlace-adjust nd k.offset f.offset same)
              eq in
          ground arith),
      λ same aw fo ko none'. found c (
          let o = SamePlace-adjust nd k.offset f.offset same in
          let e = find_link-omni_apart l (at f) (at k) c nd.links aw fo ko in
          let e' = has_link-none l g n nd here last' sized' k aware none' in
          let e2 =
            find_link-same l (at f) (mk_omni_field (at k)) c nd.links o (omni_same l f.type fo) in
          ground arith),
      λ apart d was. found d (
          let o : ¬ (adjust nd k.offset ≡ adjust nd f.offset) =
            λ e. apart (adjust-SamePlace nd k.offset f.offset e) in
          let e = find_link-other l (at f) (at k) c nd.links o in
          let e' = find_link-other l (at f) (mk_omni_field (at k)) c nd.links o in
          let before = answer-get_link l g n nd here last' sized' k aware d was in ground arith),
    )
