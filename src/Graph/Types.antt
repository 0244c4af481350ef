-- ===== src/Graph/Types.antt =====
-- Node::growSize, Node::addAccessedType and Node::joinAccessedTypes of lib/seadsa/Graph.cc. They may
-- collapse the node, and collapsing merges nodes: the mutual recursion goes through `Ops`.
use sea_dsa.Common.{
  ℕ, zero, suc, ◌+◌, ◌*◌, ◌/◌, Bool, true, false, not, ◌||◌, Option, none, some, List, [], ◌∷◌,
  ◌++◌, lookup, put, ltb, if◌then◌else◌, set_insert,
}
use sea_dsa.Common.Words.{u32, add32}
use sea_dsa.Llvm.{Llvm, Shape}
use sea_dsa.FieldType.{Field}
use sea_dsa.Graph.{Cell, Node, M, skip, for_each, out_of_fuel, ◌>>=◌, ◌>>◌, load, modify}
use sea_dsa.Graph.Offset.{numeric_offset}

-- The calls that the operations below make of each other. `fuel` bounds the worklists.
pub record Ops : Type 0 where
  pub fuel : ℕ
  pub collapse_offsets : ℕ → M (Unit {0})
  pub add_link : ℕ → Field → Cell → M (Unit {0})
  pub unify_at : ℕ → ℕ → ℕ → M (Unit {0})

-- The parts of an aggregate with their offsets, in order; `none` for a type that is no aggregate.
module _ (l : Llvm) where
  struct_parts : ℕ → ℕ → ℕ → List ℕ → List (ℕ × ℕ)
  struct_parts t o i [] = []
  struct_parts t o i (e ∷ es) = (add32 o (l.element_offset t i), e) ∷ struct_parts t o (suc i) es

  -- `len` elements of type `e` and `sz` bytes each, from the i-th on
  array_parts : ℕ → ℕ → ℕ → ℕ → ℕ → List (ℕ × ℕ)
  array_parts e sz o i zero = []
  array_parts e sz o i (suc len) = (u32 (o + i * sz), e) ∷ array_parts e sz o (suc i) len

  unfoldable pub parts : ℕ → ℕ → Option (List (ℕ × ℕ))
  unfolding struct_parts array_parts
  parts o t = elim (l.shape t) [
    | Shape.struct es ↦ some (struct_parts t o 0 es)
    | Shape.array len e ↦ some (array_parts e (l.store_size e) o 0 len)
    | Shape.vector len e ↦ some (array_parts e (l.primitive_bits e / 8) o 0 len)
    | _ ↦ none
  ]

  is_void : ℕ → Bool
  is_void t = elim (l.shape t) [ Shape.void ↦ true | _ ↦ false ]

  module _ (ops : Ops) where
    -- Node::growSize(unsigned)
    unfoldable pub grow_size : ℕ → ℕ → M (Unit {0})
    grow_size n v = do
      nd ← load n
      if nd.flags.offset_collapsed
          then modify n (λ d. record d { size = 1 })
          else if not (ltb nd.size v)
          then skip
          else if nd.flags.array
          then ops.collapse_offsets n
          else modify n (λ d. record d { size = v })

    -- Node::growSize(const Offset &, const Type *); `none` is a null type
    unfoldable pub grow_size_at : ℕ → ℕ → Option ℕ → M (Unit {0})
    unfolding grow_size is_void numeric_offset
    grow_size_at n o none = skip
    grow_size_at n o (some t) = if is_void t then skip else do
      nd ← load n
      if nd.flags.offset_collapsed
          then skip
          else do a ← numeric_offset n o; grow_size n (u32 (l.alloc_size t + a))

    -- One type that is no aggregate.
    unfoldable pub add_primitive_type : ℕ → ℕ → ℕ → M (Unit {0})
    unfolding numeric_offset
    add_primitive_type n o t = do
      a ← numeric_offset n o
      modify n (λ d. record d {
        accessed_types = elim (lookup a d.accessed_types) [
          | none ↦ put a (t ∷ []) d.accessed_types
          | some ts ↦ put a (set_insert t ts) d.accessed_types
        ];
      })

    -- The loop of Node::addAccessedType. The head of the list is the back of the worklist. A node
    -- that collapses is forwarding, with its marks reset: the second test of the source looks at
    -- the marks of that node, not of the one that it forwards to.
    unfoldable pub add_accessed_types : ℕ → ℕ → List (ℕ × ℕ) → M (Unit {0})
    unfolding grow_size_at add_primitive_type parts
    add_accessed_types k n [] = skip
    add_accessed_types zero n (w ∷ ws) = λ g. out_of_fuel
    add_accessed_types (suc k) n ((o, t) ∷ ws) = do
      before ← load n
      if before.flags.offset_collapsed then skip else do
        grow_size_at n o (some t)
        after ← load n
        if after.flags.offset_collapsed then skip else elim (parts o t) [
          | some ps ↦ add_accessed_types k n (ps ++ ws)
          | none ↦ do add_primitive_type n o t; add_accessed_types k n ws
        ]

    -- Node::addAccessedType(unsigned, Type *)
    unfoldable pub add_accessed_type : ℕ → ℕ → ℕ → M (Unit {0})
    unfolding add_accessed_types
    add_accessed_type n o t = add_accessed_types ops.fuel n ((o, t) ∷ [])

    -- Node::addAccessedType(const Offset &, Set)
    unfoldable pub add_type_set : ℕ → ℕ → List ℕ → M (Unit {0})
    unfolding add_accessed_type numeric_offset
    add_type_set n o ts = do
      nd ← load n
      if nd.flags.offset_collapsed
          then skip
          else for_each (λ t. do a ← numeric_offset n o; add_accessed_type n a t) ts

    -- Node::joinAccessedTypes, with the types of the other node
    unfoldable pub join_accessed_types : ℕ → ℕ → Node → M (Unit {0})
    unfolding add_type_set
    join_accessed_types n offset other = do
      nd ← load n
      if nd.flags.offset_collapsed || other.flags.offset_collapsed
          then skip
          else for_each (λ (o, ts). add_type_set n (add32 o offset) ts) other.accessed_types
