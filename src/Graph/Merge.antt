-- ===== src/Graph/Merge.antt =====
-- Node::mergeUniqueScalar and Node::mergeAllocSites of lib/seadsa/Graph.cc: two graphs of which the
-- first is simulated by the second are walked together, and the facts on their nodes are merged.
pub mod Laws
pub mod Walk
use sea_dsa.Common.{
  ℕ, zero, suc, Bool, true, false, not, ◌||◌, ◌&&◌, Option, none, some, List, [], ◌∷◌, lookup,
  member, set_insert, set_union, includes, if◌then◌else◌, ◌==◌, is_some,
}
use sea_dsa.FieldType.{addr_eq}
use sea_dsa.Graph.{Node}
use sea_dsa.Graph.Unify.{set_unique_scalar}

-- The result: 0x1 says that the first node changed, 0x2 that the second one did.
pub record Changed : Type 0 where
  pub this : Bool
  pub other : Bool

-- res |= ...
unfoldable pub or_changed : Changed → Changed → Changed
or_changed a b = record { this = a.this || b.this; other = a.other || b.other }

abbrev pub changed : Bool → Bool → Changed
changed a b = record { this = a; other = b }

-- The part of mergeUniqueScalar for one pair of nodes.
unfoldable pub merge_unique_scalars : Node → Node → Node × Node × Changed
unfolding addr_eq
merge_unique_scalars a b =
    if is_some a.unique_scalar && is_some b.unique_scalar
    then (if addr_eq a.unique_scalar b.unique_scalar
        then (a, b, changed false false)
        else (set_unique_scalar none a, set_unique_scalar none b, changed true true))
    else if is_some a.unique_scalar
    then (set_unique_scalar none a, b, changed true false)
    else if is_some b.unique_scalar
    then (a, set_unique_scalar none b, changed false true)
    else (a, b, changed false false)

-- The part of mergeAllocSites for one pair of nodes.
unfoldable pub merge_alloc_sites : List ℕ → List ℕ → List ℕ × List ℕ × Changed
merge_alloc_sites s t =
    if includes s t
    then (if includes t s
        then (s, t, changed false false)
        else (s, set_union t s, changed false true))
    else if includes t s
    then (set_union s t, t, changed true false)
    else (let s' = set_union s t in (s', set_union t s', changed true true))
