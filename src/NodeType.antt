-- ===== src/NodeType.antt =====
-- struct NodeType of include/seadsa/Graph.hh: the marks of a node and how they are joined.
pub mod Laws
use sea_dsa.Common.{Bool, true, false, ◌&&◌, ◌||◌, if◌then◌else◌}

pub record NodeType : Type 0 where
  pub shadow : Bool
  pub foreign : Bool
  pub alloca : Bool
  pub heap : Bool
  pub global : Bool
  pub extern_func : Bool
  pub extern_global : Bool
  pub unknown : Bool
  pub incomplete : Bool
  pub modified : Bool
  pub read : Bool
  pub array : Bool
  pub offset_collapsed : Bool
  pub type_collapsed : Bool
  pub external : Bool
  pub inttoptr : Bool
  pub ptrtoint : Bool
  pub vastart : Bool
  pub dead : Bool
  pub null : Bool

abbrev pub reset : NodeType
reset = record {
  shadow = false;
  foreign = false;
  alloca = false;
  heap = false;
  global = false;
  extern_func = false;
  extern_global = false;
  unknown = false;
  incomplete = false;
  modified = false;
  read = false;
  array = false;
  offset_collapsed = false;
  type_collapsed = false;
  external = false;
  inttoptr = false;
  ptrtoint = false;
  vastart = false;
  dead = false;
  null = false;
}

-- The bitwise joins, before the correction of `array`.
abbrev join_bits : NodeType → NodeType → NodeType
join_bits m n = record {
  shadow = m.shadow || n.shadow;
  foreign = m.foreign && n.foreign;
  alloca = m.alloca || n.alloca;
  heap = m.heap || n.heap;
  global = m.global || n.global;
  extern_func = m.extern_func || n.extern_func;
  extern_global = m.extern_global || n.extern_global;
  unknown = m.unknown || n.unknown;
  incomplete = m.incomplete || n.incomplete;
  modified = m.modified || n.modified;
  read = m.read || n.read;
  array = m.array || n.array;
  offset_collapsed = m.offset_collapsed || n.offset_collapsed;
  type_collapsed = m.type_collapsed || n.type_collapsed;
  external = m.external || n.external;
  inttoptr = m.inttoptr || n.inttoptr;
  ptrtoint = m.ptrtoint || n.ptrtoint;
  vastart = m.vastart || n.vastart;
  dead = m.dead || n.dead;
  null = m.null || n.null;
}

-- A node is not offset-collapsed and an array at the same time.
unfoldable pub join : NodeType → NodeType → NodeType
join m n =
    let t : NodeType = join_bits m n in
    record t { array = if t.offset_collapsed && t.array then false else t.array }
