-- ===== src/Mapper.antt =====
-- class SimulationMapper of include/seadsa/Mapper.hh and lib/seadsa/Mapper.cc: a relation between
-- the nodes of two graphs under which the second graph simulates the first.
pub mod Embedding
pub mod Functional
pub mod Injective
use sea_dsa.Common.{
  ℕ, zero, suc, ◌%◌, Bool, not, ◌&&◌, ◌||◌, none, some, List, [], ◌∷◌, lookup, put, ltb, leb, ◌==◌,
  if◌then◌else◌, is_some, length, all_of,
}
use sea_dsa.Common.Words.{add32, sub32}
use sea_dsa.Llvm.{Llvm}
use sea_dsa.FieldType.{Field, mk_field, mk_not_implemented, mk_omni_field}
use sea_dsa.Graph.{Cell, null_cell, cell, Node, Graph, is_null}
use sea_dsa.Graph.Offset.{adjust}
use sea_dsa.Graph.Query.{place, place_offset, is_proper, link?, link_or_omni?}

-- m_sim: the nodes that simulate a node, with the field at which it is embedded
abbrev pub Sim : Type 0
Sim = List (ℕ × List (ℕ × Field))

abbrev pub simulators : Sim → ℕ → List (ℕ × Field)
simulators m n = elim (lookup n m) [ none ↦ [] | some s ↦ s ]

-- map.emplace(&n2, f) for m_sim[&n1], where `n2` is absent
unfoldable pub add_simulator : Sim → ℕ → ℕ → Field → Sim
add_simulator m n1 n2 f = put n1 (put n2 f (simulators m n1)) m

-- `refused` is the result false, with m_sim cleared. `stuck` is a failed assertion, a null pointer
-- or a dangling one.
pub data Outcome : Type 0 where
  simulated : Sim → Outcome
  refused : Outcome
  stuck : Outcome
  out_of_fuel : Outcome

-- The conditions on sizes and marks for embedding `a` in `b` at offset `o`.
unfoldable pub embeds : Node → Node → ℕ → Bool
embeds a b o =
    let adj = adjust b o in
    let unfolds : Bool = leb b.size a.size && (a.size % b.size == 0) && adj == 0 in
    not (
      not a.flags.array && b.flags.array && not unfolds && ltb 0 adj && ltb b.size (add32 a.size o))
    && not (a.flags.array && not b.flags.array && not b.flags.offset_collapsed)
    && not (a.flags.array && not (adj == 0))
    && not (
        a.flags.array
        && not b.flags.offset_collapsed
        && not (a.size == b.size)
        && not (b.flags.array && ltb b.size a.size && (a.size % b.size == 0) && adj == 0))
    && not (a.flags.offset_collapsed && not b.flags.offset_collapsed)

module _ (l : Llvm) (from to : Graph) where
  -- What is compared for one link of the first node: the nodes that the two links lead to, and the
  -- offset between them.
  pub data Child : Type 0 where
    child : (n m : ℕ) → Field → Child
    no_child : Child
    bad_child : Child

  unfoldable pub child_at : Node → ℕ → Field → Cell → Child
  unfolding link? link_or_omni? is_proper place
  child_at b adj key c =
      let j = if b.flags.offset_collapsed then 0 else add32 key.offset adj in
      let f = mk_field j key.type in
      if not (is_proper l f) || not (is_some (link? l b f)) && not (is_proper l (mk_omni_field f))
      then bad_child
      else if not (is_some (link? l b f)) && not (is_some (link? l b (mk_omni_field f)))
      then no_child
      else elim (place from c) [
        | none ↦ bad_child
        | some p ↦ elim (link_or_omni? l b f) [
          | none ↦ bad_child
          | some d ↦ elim (place to d) [
            | none ↦ bad_child
            | some q ↦
                let o1 =
                  if q.node.flags.array then adjust q.node (place_offset p) else place_offset p in
                let o2 = place_offset q in
                if ltb o2 o1 && not q.node.flags.offset_collapsed
                then no_child
                else child p.address q.address (mk_field (sub32 o2 o1) key.type)
          ]
        ]
      ]

  -- The children of a node in turn, each with the relation that the ones before have left.
  insert_children : (Sim → ℕ → ℕ → Field → Outcome) → Sim → Node → ℕ → List (Field × Cell) → Outcome
  unfolding child_at
  insert_children rec m b adj [] = simulated m
  insert_children rec m b adj ((key, c) ∷ ls) = elim (child_at b adj key c) [
    | bad_child ↦ stuck
    | no_child ↦ refused
    | child n3 n4 f ↦ elim (rec m n3 n4 f) [
      | simulated m' ↦ insert_children rec m' b adj ls
      | refused ↦ refused
      | stuck ↦ stuck
      | out_of_fuel ↦ out_of_fuel
    ]
  ]

  -- insert(const Node &, Node &, Field)
  unfoldable pub insert_nodes : ℕ → Sim → ℕ → ℕ → Field → Outcome
  unfolding insert_children embeds add_simulator
  insert_nodes zero m n1 n2 o = out_of_fuel
  insert_nodes (suc k) m n1 n2 o = elim (lookup n1 from.nodes) [
    | none ↦ stuck
    | some a ↦ elim (lookup n2 to.nodes) [
      | none ↦ stuck
      | some b ↦ elim (lookup n2 (simulators m n1)) [
        | some f ↦ if f.offset == adjust b o.offset then simulated m else refused
        | none ↦
            if not (embeds a b o.offset)
            then refused
            else insert_children (insert_nodes k)
                (add_simulator m n1 n2 (record o { offset = adjust b o.offset })) b
                (adjust b o.offset) a.links
      ]
    ]
  ]

  -- insert(const Cell &, Cell &)
  unfoldable pub insert_cells : ℕ → Sim → Cell → Cell → Outcome
  unfolding insert_nodes place
  insert_cells k m c1 c2 =
      if is_null c1 && is_null c2
      then simulated m
      else if is_null c1 || is_null c2
      then refused
      else elim (place from c1) [
        | none ↦ stuck
        | some p ↦ elim (place to c2) [
          | none ↦ stuck
          | some q ↦
              if q.node.flags.offset_collapsed
              then insert_nodes k m p.address q.address (mk_field 0 mk_not_implemented)
              else if ltb (place_offset q) (place_offset p)
                  && not (not p.node.flags.array && q.node.flags.array)
              then refused
              else insert_nodes k m p.address q.address
                  (mk_field (sub32 (place_offset q) (place_offset p)) mk_not_implemented)
        ]
      ]

-- get(const Node &) and get(const Cell &)
unfoldable pub get_simulator : Sim → ℕ → Cell
get_simulator m n = elim (simulators m n) [
  | [] ↦ null_cell
  | (n2, f) ∷ rest ↦ elim rest [ [] ↦ cell n2 f.offset | _ ∷ _ ↦ null_cell ]
]

-- isFunction
unfoldable pub is_function : Sim → Bool
is_function m = all_of (λ (n, s). leb (length s) 1) m
