-- ===== src/Alias.antt =====
-- lib/seadsa/SeaDsaAliasAnalysis.cc: whether two cells of one graph may overlap.
pub mod Laws
use sea_dsa.Common.{
  ℕ, ◌+◌, ◌%◌, ◌^◌, Bool, true, false, not, ◌&&◌, ◌||◌, Option, none, some, List, [], ◌∷◌, lookup,
  leb, ◌==◌, if◌then◌else◌, is_empty, all_of,
}
use sea_dsa.Llvm.{Llvm}
use sea_dsa.Graph.{Cell, Node, Graph, is_null}
use sea_dsa.Graph.Offset.{adjust}
use sea_dsa.Graph.Query.{Place, place, place_offset}

-- maybeUnsafe
unfoldable pub maybe_unsafe : Node → Bool
maybe_unsafe n = n.flags.inttoptr || n.flags.ptrtoint || n.flags.incomplete || n.flags.unknown

module _ (l : Llvm) where
  -- sizeOf: the size that all types of the set have
  unfoldable pub size_of : List ℕ → Option ℕ
  size_of [] = some 0
  size_of (t ∷ ts) =
      if all_of (λ u. l.store_size u == l.store_size t) ts then some (l.store_size t) else none

  -- The end of the comparison, for one node and the lower and the higher offset.
  unfoldable pub may_overlap : Node → ℕ → ℕ → Bool
  unfolding size_of
  may_overlap n o1 o2 = elim (lookup (adjust n o1) n.accessed_types) [
    | none ↦ true
    | some ts ↦
        if is_empty ts
        then true
        else elim (size_of ts) [ none ↦ true | some sz ↦ leb o2 ((o1 + sz) % 2 ^ 64) ]
  ]

  -- mayAlias, for the places of two cells that are not null
  unfoldable pub may_alias_places : Place → Place → Bool
  unfolding maybe_unsafe may_overlap
  may_alias_places p q =
      if maybe_unsafe p.node || maybe_unsafe q.node
      then true
      else if not (p.address == q.address)
      then false
      else if p.node.flags.offset_collapsed
      then true
      else if leb (place_offset p) (place_offset q)
      then may_overlap p.node (place_offset p) (place_offset q)
      else may_overlap p.node (place_offset q) (place_offset p)

  -- mayAlias; `none` is a dangling pointer
  unfoldable pub may_alias : Graph → Cell → Cell → Option Bool
  unfolding may_alias_places place
  may_alias g c d = if is_null c || is_null d then some true else elim (place g c) [
    | none ↦ none
    | some p ↦ elim (place g d) [ none ↦ none | some q ↦ some (may_alias_places p q) ]
  ]
