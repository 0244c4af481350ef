-- ===== src/Graph/Query.antt =====
-- Reads of a graph that leave it as it is: they walk forwarding nodes without shortening the paths.
use sea_dsa.Common.{ℕ, Bool, not, ◌&&◌, ◌||◌, Option, none, some, lookup, if◌then◌else◌}
use sea_dsa.Llvm.{Llvm}
use sea_dsa.FieldType.{Field, is_unknown, mk_omni_field}
use sea_dsa.Graph.{Cell, Node, Graph}
use sea_dsa.Graph.Resolve.{find, enough}
use sea_dsa.Graph.Offset.{adjust, find_link}

-- Where a cell points: a node that is not forwarding, its address and the raw offset. `none` is a
-- null cell or a dangling pointer.
pub record Place : Type 0 where
  pub address : ℕ
  pub node : Node
  pub raw : ℕ

unfoldable pub place : Graph → Cell → Option Place
unfolding find
place g c = elim (find (enough g) g c) [
  | none ↦ none
  | some r ↦ elim r.node [
    | none ↦ none
    | some n ↦ elim (lookup n g.nodes) [
      | none ↦ none
      | some nd ↦ some (record { address = n; node = nd; raw = r.offset })
    ]
  ]
]

-- Cell::getOffset
abbrev pub place_offset : Place → ℕ
place_offset p = adjust p.node p.raw

abbrev pub adjusted : Node → Field → Field
adjusted nd f = record f { offset = adjust nd f.offset }

module _ (l : Llvm) where
  -- the assertion of hasLink and getLink
  unfoldable pub is_proper : Field → Bool
  unfolding is_unknown
  is_proper f = l.type_aware || is_unknown f.type

  -- Node::hasLink and Node::getLink of a node that is not forwarding
  unfoldable pub link? : Node → Field → Option Cell
  unfolding find_link
  link? nd f = find_link l (adjusted nd f) nd.links

  unfoldable pub link_or_omni? : Node → Field → Option Cell
  unfolding link? mk_omni_field find_link
  link_or_omni? nd f = elim (link? nd f) [
    | some c ↦ some c
    | none ↦
        if l.type_aware && not f.type.is_omni
        then find_link l (mk_omni_field (adjusted nd f)) nd.links
        else none
  ]
