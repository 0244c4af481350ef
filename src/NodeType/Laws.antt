-- ===== src/NodeType/Laws.antt =====
-- NodeType::join of include/seadsa/Graph.hh: laws of the join of marks.
use sea_dsa.Common.{Bool, false, ◌&&◌, ◌||◌, ◌≡◌, arith}
use sea_dsa.NodeType.{NodeType, join}

or_comm : (a b : Bool) → (a || b) ≡ (b || a)
or_comm a b = ground arith

or_assoc : (a b c : Bool) → ((a || b) || c) ≡ (a || (b || c))
or_assoc a b c = ground arith

or_self : (a : Bool) → (a || a) ≡ a
or_self a = ground arith

and_comm : (a b : Bool) → (a && b) ≡ (b && a)
and_comm a b = ground arith

and_assoc : (a b c : Bool) → ((a && b) && c) ≡ (a && (b && c))
and_assoc a b c = ground arith

and_self : (a : Bool) → (a && a) ≡ a
and_self a = ground arith

-- An offset-collapsed node is no array.
pub record IsConsistent (t : NodeType) : Type 0 where
  pub exclusive : (t.offset_collapsed && t.array) ≡ false

array_comm : (m n : NodeType) → (join m n).array ≡ (join n m).array
unfolding join
array_comm m n = ground arith

array_assoc : (m n t : NodeType) → (join (join m n) t).array ≡ (join m (join n t)).array
unfolding join
array_assoc m n t = ground arith

array_self : (t : NodeType) → IsConsistent t → (join t t).array ≡ t.array
unfolding join
array_self t h = ground arith

-- The order of two marks that are joined does not matter.
join_comm : (m n : NodeType) → join m n ≡ join n m
unfolding join
join_comm m n = λ i. record {
  shadow = or_comm m.shadow n.shadow i;
  foreign = and_comm m.foreign n.foreign i;
  alloca = or_comm m.alloca n.alloca i;
  heap = or_comm m.heap n.heap i;
  global = or_comm m.global n.global i;
  extern_func = or_comm m.extern_func n.extern_func i;
  extern_global = or_comm m.extern_global n.extern_global i;
  unknown = or_comm m.unknown n.unknown i;
  incomplete = or_comm m.incomplete n.incomplete i;
  modified = or_comm m.modified n.modified i;
  read = or_comm m.read n.read i;
  array = array_comm m n i;
  offset_collapsed = or_comm m.offset_collapsed n.offset_collapsed i;
  type_collapsed = or_comm m.type_collapsed n.type_collapsed i;
  external = or_comm m.external n.external i;
  inttoptr = or_comm m.inttoptr n.inttoptr i;
  ptrtoint = or_comm m.ptrtoint n.ptrtoint i;
  vastart = or_comm m.vastart n.vastart i;
  dead = or_comm m.dead n.dead i;
  null = or_comm m.null n.null i;
}

-- The grouping of three marks that are joined does not matter, although a collapsed one hides arrays.
join_assoc : (m n t : NodeType) → join (join m n) t ≡ join m (join n t)
unfolding join
join_assoc m n t = λ i. record {
  shadow = or_assoc m.shadow n.shadow t.shadow i;
  foreign = and_assoc m.foreign n.foreign t.foreign i;
  alloca = or_assoc m.alloca n.alloca t.alloca i;
  heap = or_assoc m.heap n.heap t.heap i;
  global = or_assoc m.global n.global t.global i;
  extern_func = or_assoc m.extern_func n.extern_func t.extern_func i;
  extern_global = or_assoc m.extern_global n.extern_global t.extern_global i;
  unknown = or_assoc m.unknown n.unknown t.unknown i;
  incomplete = or_assoc m.incomplete n.incomplete t.incomplete i;
  modified = or_assoc m.modified n.modified t.modified i;
  read = or_assoc m.read n.read t.read i;
  array = array_assoc m n t i;
  offset_collapsed = or_assoc m.offset_collapsed n.offset_collapsed t.offset_collapsed i;
  type_collapsed = or_assoc m.type_collapsed n.type_collapsed t.type_collapsed i;
  external = or_assoc m.external n.external t.external i;
  inttoptr = or_assoc m.inttoptr n.inttoptr t.inttoptr i;
  ptrtoint = or_assoc m.ptrtoint n.ptrtoint t.ptrtoint i;
  vastart = or_assoc m.vastart n.vastart t.vastart i;
  dead = or_assoc m.dead n.dead t.dead i;
  null = or_assoc m.null n.null t.null i;
}

-- Consistent marks joined with themselves stay as they are.
join_self : (t : NodeType) → IsConsistent t → join t t ≡ t
unfolding join
join_self t h = λ i. record {
  shadow = or_self t.shadow i;
  foreign = and_self t.foreign i;
  alloca = or_self t.alloca i;
  heap = or_self t.heap i;
  global = or_self t.global i;
  extern_func = or_self t.extern_func i;
  extern_global = or_self t.extern_global i;
  unknown = or_self t.unknown i;
  incomplete = or_self t.incomplete i;
  modified = or_self t.modified i;
  read = or_self t.read i;
  array = array_self t h i;
  offset_collapsed = or_self t.offset_collapsed i;
  type_collapsed = or_self t.type_collapsed i;
  external = or_self t.external i;
  inttoptr = or_self t.inttoptr i;
  ptrtoint = or_self t.ptrtoint i;
  vastart = or_self t.vastart i;
  dead = or_self t.dead i;
  null = or_self t.null i;
}

-- Joining marks is commutative and associative, and consistent marks joined with themselves stay as
-- they are: the order in which nodes are merged, and merging one again, makes no difference to marks.
pub join_semilattice :
    (m n t : NodeType)
    → IsConsistent t
    → (join m n ≡ join n m) × (join (join m n) t ≡ join m (join n t)) × (join t t ≡ t)
join_semilattice m n t h = (join_comm m n, join_assoc m n t, join_self t h)

-- A join is consistent, whatever is joined.
pub join-IsConsistent : (m n : NodeType) → IsConsistent (join m n)
unfolding join
join-IsConsistent m n = ground arith
