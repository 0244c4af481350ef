-- ===== src/ShadowMem/Fields.antt =====
-- getFieldId, getShadowForField and the pseudo-instructions of lib/seadsa/ShadowMem.cc. A shadow
-- variable is named by its node and offset.
pub mod Apart
use sea_dsa.Common.{
  ℕ, ◌+◌, Bool, true, false, not, ◌&&◌, ◌||◌, Option, none, some, List, [], ◌∷◌, ◌++◌, ◌==◌, ltb,
  lookup, put, if◌then◌else◌,
}
use sea_dsa.Common.Words.{add32}
use sea_dsa.Graph.{Node, Graph}
use sea_dsa.Graph.Query.{Place, place_offset}

-- ShadowMemInstOp
pub data ShadowMemInstOp : Type 0 where
  load trsfr_load store global_init init arg_init arg_ref arg_mod arg_new fun_in fun_out :
      ShadowMemInstOp

-- Where a pseudo-instruction is inserted.
pub data Point : Type 0 where
  before : ℕ → Point
  entry : Point
  exit : Point

-- A call of a pseudo-function on a shadow variable, with the bytes that it accesses, and the pointer
-- and instruction that are associated with it. `scalar` is the unique scalar of the cell, or the
-- global of a global_init.
pub record Pseudo : Type 0 where
  pub op : ShadowMemInstOp
  pub point : Point
  pub id : ℕ
  pub shadow : ℕ × ℕ
  pub idx : Option ℕ
  pub scalar : Option ℕ
  pub bytes : Option ℕ
  pub pointer : Option ℕ
  pub inst : Option ℕ

-- m_graph, m_nodeIds with m_maxId, m_shadows, and the pseudo-instructions in the order in which they
-- are made
pub record State : Type 0 where
  pub graph : Graph
  pub node_ids : List (ℕ × ℕ)
  pub max_id : ℕ
  pub shadows : List (ℕ × ℕ)
  pub made : List Pseudo

-- getFieldId for the node `n` of this size; `none` is a failed assertion.
unfoldable pub get_field_id :
    (n size offset : ℕ) → List (ℕ × ℕ) → (max_id : ℕ) → Option (ℕ × List (ℕ × ℕ) × ℕ)
get_field_id n size offset ids max_id = elim (lookup n ids) [
  | some id ↦ some (add32 id offset, ids, max_id)
  | none ↦
      if size == 0
      then (if offset == 0 then some (max_id, put n max_id ids, add32 max_id 1) else none)
      else some (add32 max_id offset, put n max_id ids, add32 max_id size)
]

-- The shadow variables are kept in the order of the maps, by node and by offset.
abbrev pub insert_shadow : ℕ × ℕ → List (ℕ × ℕ) → List (ℕ × ℕ)
insert_shadow (n, o) [] = (n, o) ∷ []
insert_shadow (n, o) ((m, p) ∷ s) =
    let rest = insert_shadow (n, o) s in
    if (n == m) && (o == p)
    then (m, p) ∷ s
    else if ltb n m || ((n == m) && ltb o p)
    then (n, o) ∷ (m, p) ∷ s
    else (m, p) ∷ rest

-- What is read of LLVM and the command line: whether a value is a global variable of a type with a
-- single value, and -horn-sea-dsa-split; and which of all nodes a node of the graph is.
pub record Target : Type 0 where
  pub is_scalar_global : ℕ → Bool
  pub split : Bool
  pub pointer : ℕ → ℕ

module _ (t : Target) where
  -- getOffset
  abbrev pub get_offset : Place → ℕ
  get_offset p = if t.split then place_offset p else 0

  -- getUniqueScalar
  unfoldable pub get_unique_scalar : Place → Option ℕ
  get_unique_scalar p =
      if place_offset p == 0
      then elim p.node.unique_scalar [
        | none ↦ none
        | some v ↦ if t.is_scalar_global v then some v else none
      ]
      else none

  -- getShadowForField
  unfoldable pub get_shadow : Place → State → State
  get_shadow p s = record s { shadows = insert_shadow (p.address, get_offset p) s.shadows }

  -- mkShadowCall with the id and the shadow variable of the cell. `pointer` and `inst` are those of
  -- associateConcretePtr.
  unfoldable pub mk_shadow_call :
      ShadowMemInstOp
      → Point
      → Place
      → (idx scalar bytes pointer inst : Option ℕ) → State
      → Option State
  unfolding get_field_id
  mk_shadow_call op at p idx scalar bytes pointer inst s =
      elim (get_field_id (t.pointer p.address) p.node.size (get_offset p) s.node_ids s.max_id) [
        | none ↦ none
        | some (id, ids, max_id) ↦ some (record s {
          node_ids = ids;
          max_id = max_id;
          made =
              s.made
              ++ record {
                op = op;
                point = at;
                id = id;
                shadow = (p.address, get_offset p);
                idx = idx;
                scalar = scalar;
                bytes = bytes;
                pointer = pointer;
                inst = inst;
              }
                ∷ [];
        })
      ]

  -- mkShadowStore and mkShadowLoad with the pointer that they are associated with
  unfoldable pub mk_access :
      ShadowMemInstOp → Place → (bytes : Option ℕ) → (pointer inst : ℕ) → State → Option State
  unfolding get_shadow mk_shadow_call get_unique_scalar
  mk_access op p bytes pointer inst s =
      mk_shadow_call op (before inst) p none (get_unique_scalar p) bytes (some pointer) (some inst)
        (get_shadow p s)

  -- mkShadowGlobalVarInit, which leaves out a unique scalar
  unfoldable pub mk_global_init :
      Point → Place → (global : ℕ) → (bytes : Option ℕ) → State → Option State
  unfolding get_shadow mk_shadow_call get_unique_scalar
  mk_global_init at p v bytes s = elim (get_unique_scalar p) [
    | some u ↦ some s
    | none ↦ mk_shadow_call global_init at p none (some v) bytes (some v) none (get_shadow p s)
  ]

  -- mkArgRef, mkArgNewMod, mkMarkIn and mkMarkOut, with an argument index and no bytes. The shadow
  -- variable of mkMarkIn is there already, for its initial value.
  unfoldable pub mk_indexed : ShadowMemInstOp → Point → Place → (idx : ℕ) → State → Option State
  unfolding get_shadow mk_shadow_call get_unique_scalar
  mk_indexed op at p idx s =
      mk_shadow_call op at p (some idx) (get_unique_scalar p) none none none (get_shadow p s)

  -- mkShadowAllocInit
  unfoldable pub mk_alloc_init : ShadowMemInstOp → Place → State → Option State
  unfolding mk_shadow_call get_unique_scalar
  mk_alloc_init op p s = mk_shadow_call op entry p none (get_unique_scalar p) none none none s
