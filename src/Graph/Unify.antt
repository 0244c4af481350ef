-- ===== src/Graph/Unify.antt =====
-- Node::pointTo, Node::collapseOffsets, Node::collapseTypes and Node::unifyAt of
-- lib/seadsa/Graph.cc: merging nodes.
pub mod Decision
use sea_dsa.Common.{
  ℕ, zero, suc, ◌%◌, Bool, true, false, not, ◌&&◌, ◌||◌, Option, none, some, List, [], ◌∷◌, ltb,
  leb, ◌==◌, if◌then◌else◌, is_some, set_union,
}
use sea_dsa.Common.Words.{add32, sub32}
use sea_dsa.Llvm.{Llvm}
use sea_dsa.FieldType.{Field, is_unknown, mk_omni_field, add_offset, addr_eq}
use sea_dsa.NodeType.{NodeType, join, reset}
use sea_dsa.Graph.{
  Cell, null_cell, cell, Node, M, skip, pure, assert, when, for_each, out_of_fuel, ◌>>=◌, ◌>>◌,
  load, modify, is_forwarding, is_null, deref, mk_node,
}
use sea_dsa.Graph.Resolve.{resolve_cell, get_node}
use sea_dsa.Graph.Offset.{
  adjust, node_of, numeric_offset, adjusted_field, find_link, put_link, has_link, get_link_,
  set_link,
}
use sea_dsa.Graph.Types.{Ops, grow_size, join_accessed_types}
use sea_dsa.Graph.Link.{cell_point_to, add_links, add_link}

abbrev pub set_unique_scalar : Option ℕ → Node → Node
set_unique_scalar v d = record d { unique_scalar = v; has_once_unique_scalar = true }

-- setOffsetCollapsed(true)
abbrev pub set_offset_collapsed : NodeType → NodeType
set_offset_collapsed t = record t { offset_collapsed = true; array = false }

-- What is to be done with `n` and `m` before `m` can be embedded in `n` at offset `o`.
pub data Plan : Type 0 where
  collapse : Plan
  swap : Plan
  embed_here : Plan

unfoldable pub plan : Node → Node → ℕ → Plan
plan nd md o =
    if not nd.flags.offset_collapsed && md.flags.offset_collapsed
    then collapse
    else if not nd.flags.offset_collapsed
        && not md.flags.offset_collapsed
        && md.flags.array
        && not nd.flags.array
    then (if adjust nd o == 0 then swap else collapse)
    else if nd.flags.array && md.flags.array
    then (if leb nd.size md.size
        then (if not (md.size % nd.size == 0)
            then collapse
            else if adjust nd o == 0
            then embed_here
            else collapse)
        else (if not (nd.size % md.size == 0)
            then collapse
            else if adjust md o == 0
            then swap
            else collapse))
    else if nd.flags.array
        && not md.flags.array
        && not (adjust nd o == 0)
        && ltb nd.size (add32 (adjust nd o) md.size)
    then collapse
    else embed_here

module _ (l : Llvm) where
  module _ (ops : Ops) where
    -- The unique scalars when `n` is embedded at offset `o` of `m`.
    clear_unique_scalar : ℕ → ℕ → ℕ → M (Unit {0})
    unfolding addr_eq
    clear_unique_scalar n m o = do
      when (not (o == 0)) (modify m (set_unique_scalar none))
      nd ← load n
      md ← load m
      when (not (addr_eq nd.unique_scalar md.unique_scalar)) (modify m (set_unique_scalar none))

    -- The links and the marks move behind the forwarding cell; the node keeps nothing. The
    -- allocation sites go to `m` itself, whether or not it was forwarded on the way.
    embed : ℕ → ℕ → M (Unit {0})
    unfolding node_of add_links join_accessed_types resolve_cell
    embed n m = do
      nd ← load n
      at ← resolve_cell nd.forward
      modify n (λ d. record d { forward = at })
      r ← node_of m
      rd ← load r
      md ← load m
      assert (not (is_forwarding md) || rd.flags.offset_collapsed || rd.flags.type_collapsed)
      assert (not (is_forwarding md) || rd.flags.offset_collapsed)
      when (not rd.flags.offset_collapsed) (join_accessed_types l ops m at.offset nd)
      r' ← node_of m
      modify r' (λ d. record d { flags = join d.flags nd.flags })
      modify m (λ d. record d { alloca_sites = set_union d.alloca_sites nd.alloca_sites })
      fwd ← load n
      last ← add_links l ops true fwd.forward nd.links
      modify n (λ d. record d { forward = last })

    -- Node::pointTo
    unfoldable pub point_to : ℕ → ℕ → ℕ → M (Unit {0})
    unfolding clear_unique_scalar embed cell_point_to numeric_offset
    point_to n m o = if n == m then skip else do
      nd ← load n
      assert (not (is_forwarding nd))
      a ← numeric_offset m o
      clear_unique_scalar n m a
      b ← numeric_offset m o
      c ← cell_point_to l ops m b
      modify n (λ d. record d { forward = c })
      embed n m
      modify n (λ d. record d {
        alloca_sites = [];
        size = 0;
        links = [];
        accessed_types = [];
        unique_scalar = none;
        flags = reset;
      })

    -- The node that stands for a collapsed one, with its marks.
    successor : (NodeType → NodeType) → ℕ → Node → M ℕ
    unfolding mk_node
    successor mark sz nd = do
      m ← mk_node l
      modify m (λ d. record d { flags = mark (join d.flags nd.flags); size = sz })
      pure m

    -- Node::collapseOffsets
    unfoldable pub collapse_offsets : ℕ → M (Unit {0})
    unfolding point_to successor
    collapse_offsets n = do
      nd ← load n
      if nd.flags.offset_collapsed then skip else do
        modify n (λ d. record d { unique_scalar = none })
        assert (not (is_forwarding nd))
        if leb nd.size 1
            then modify n (λ d. record d { size = 1; flags = set_offset_collapsed d.flags })
            else (do m ← successor set_offset_collapsed 1 nd; point_to n m 0)

    -- Node::collapseTypes
    unfoldable pub collapse_types : ℕ → M (Unit {0})
    unfolding point_to successor
    collapse_types n = do
      nd ← load n
      if nd.flags.type_collapsed then skip else do
        modify n (λ d. record d { unique_scalar = none })
        assert (not (is_forwarding nd))
        m ← successor (λ t. record t { type_collapsed = true }) nd.size nd
        point_to n m 0

    -- collapseOffsets(); getNode()->unifyAt(*n.getNode(), o)
    collapse_and_unify : ℕ → ℕ → ℕ → M (Unit {0})
    unfolding node_of
    collapse_and_unify n m o = do
      ops.collapse_offsets n
      n' ← node_of n
      m' ← node_of m
      ops.unify_at n' m' o

    -- Node::unifyAt
    unfoldable pub unify_at : ℕ → ℕ → ℕ → M (Unit {0})
    unfolding collapse_and_unify plan point_to numeric_offset
    unify_at n m o = do
      nd ← load n
      md ← load m
      assert (not (is_forwarding nd))
      assert (not (is_forwarding md))
      assert (not (nd.flags.array && nd.size == 0))
      assert (not (md.flags.array && md.size == 0))
      elim (plan nd md o) [
        | collapse ↦ collapse_and_unify n m o
        | swap ↦ ops.unify_at m n 0
        | embed_here ↦ do
          a ← numeric_offset n o
          if n == m then when (ltb 0 a) (ops.collapse_offsets n) else point_to m n o
      ]

  -- The operations with calls nested at most `k` deep.
  unfoldable pub operations : ℕ → Ops
  unfolding collapse_offsets add_link unify_at
  operations zero = record {
    fuel = zero;
    collapse_offsets = λ n g. out_of_fuel;
    add_link = λ n f c g. out_of_fuel;
    unify_at = λ n m o g. out_of_fuel;
  }
  operations (suc k) =
      let rest = operations k in
      record {
        fuel = suc k;
        collapse_offsets = collapse_offsets rest;
        add_link = add_link l rest;
        unify_at = unify_at rest;
      }
