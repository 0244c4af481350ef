-- ===== src/Graph/Link.antt =====
-- Cell::pointTo, Cell::unify and Node::addLink of lib/seadsa/Graph.cc. They may merge nodes, by the
-- operations that they are given.
use sea_dsa.Common.{ℕ, ◌%◌, Bool, false, not, ◌&&◌, ◌||◌, List, [], ◌∷◌, ltb, ◌==◌, if◌then◌else◌}
use sea_dsa.Common.Words.{sub32}
use sea_dsa.Llvm.{Llvm}
use sea_dsa.FieldType.{Field, is_unknown, mk_omni_field, add_offset}
use sea_dsa.Graph.{
  Cell, cell, M, skip, pure, assert, when, ◌>>=◌, ◌>>◌, load, modify, is_forwarding, is_null, deref,
}
use sea_dsa.Graph.Resolve.{resolve_cell}
use sea_dsa.Graph.Offset.{adjusted_field, put_link, has_link, get_link_, set_link}
use sea_dsa.Graph.Types.{Ops, grow_size}

module _ (l : Llvm) where
  module _ (ops : Ops) where
    -- Cell::pointTo(Node &, unsigned): the new value of the cell
    unfoldable pub cell_point_to : ℕ → ℕ → M Cell
    unfolding grow_size
    cell_point_to n o = do
      nd ← load n
      assert (not (is_forwarding nd))
      assert (nd.flags.offset_collapsed || not nd.flags.array || not (nd.size == 0))
      when (not nd.flags.offset_collapsed && not nd.flags.array && ltb o nd.size)
          (grow_size l ops n o)
      pure (
          if nd.flags.offset_collapsed
          then cell n 0
          else if nd.flags.array
          then cell n (o % nd.size)
          else cell n o)

    -- Cell::unify, with the new values of both cells. A null cell becomes the other one.
    unfoldable pub unify : Cell → Cell → M (Cell × Cell)
    unfolding resolve_cell deref cell_point_to
    unify c d =
        if is_null c
        then (do
          assert (not (is_null d))
          d' ← resolve_cell d
          n ← deref d'
          c' ← cell_point_to n d'.offset
          pure (c', d'))
        else if is_null d
        then (do c' ← resolve_cell c; n ← deref c'; d' ← cell_point_to n c'.offset; pure (c', d'))
        else do
          c' ← resolve_cell c
          d' ← resolve_cell d
          n ← deref c'
          m ← deref d'
          if ltb c'.offset d'.offset
              then ops.unify_at m n (sub32 d'.offset c'.offset)
              else ops.unify_at n m (sub32 c'.offset d'.offset)
          pure (c', d')

    -- link.unify(cc) for the link of a node at an adjusted field, which is written back first
    unify_link : ℕ → Field → Cell → Cell → M (Unit {0})
    unfolding resolve_cell deref cell_point_to put_link
    unify_link n f link c = do
      link' ←
          if is_null link
          then (do d ← resolve_cell c; m ← deref d; cell_point_to m d.offset)
          else resolve_cell link
      modify n (λ d. record d { links = put_link l f link' d.links })
      if is_null link then skip else do
        c' ← resolve_cell c
        p ← deref link'
        q ← deref c'
        if ltb link'.offset c'.offset
            then ops.unify_at q p (sub32 c'.offset link'.offset)
            else ops.unify_at p q (sub32 link'.offset c'.offset)

    -- Cell::addLink, with the new value of the cell. The node is resolved before the field is shifted.
    unfoldable pub cell_add_link : Cell → Field → Cell → M Cell
    unfolding resolve_cell deref add_offset
    cell_add_link at f c = do
      r ← resolve_cell at
      n ← deref r
      ops.add_link n (add_offset f r.offset) c
      pure r

    -- `at.addLink(kv.first, *kv.second)` for each link, the null ones left out if `lenient`
    unfoldable pub add_links : (lenient : Bool) → Cell → List (Field × Cell) → M Cell
    unfolding cell_add_link
    add_links lenient at [] = pure at
    add_links lenient at ((f, c) ∷ ls) =
        let rest = λ (r : Cell). add_links lenient r ls in
        if lenient && is_null c then rest at else cell_add_link at f c >>= rest

    links_at : ℕ → List (Field × Cell) → List (Field × Cell)
    links_at o [] = []
    links_at o ((f, c) ∷ ls) = if f.offset == o then (f, c) ∷ links_at o ls else links_at o ls

    links_not_at : ℕ → List (Field × Cell) → List (Field × Cell)
    links_not_at o [] = []
    links_not_at o ((f, c) ∷ ls) =
        if f.offset == o then links_not_at o ls else (f, c) ∷ links_not_at o ls

    -- The last part of Node::addLink, for a field of the omni type: it takes over all links at its
    -- offset.
    add_omni_link : ℕ → Field → Cell → M (Unit {0})
    unfolding add_links links_at links_not_at put_link
    add_omni_link n f c = do
      nd ← load n
      modify n (λ d. record d { links = put_link l f c (links_not_at f.offset d.links) })
      add_links false (cell n 0) (links_at f.offset nd.links)
      skip

    -- Node::addLink
    unfoldable pub add_link : ℕ → Field → Cell → M (Unit {0})
    unfolding unify_link add_omni_link adjusted_field has_link get_link_ set_link is_unknown
        mk_omni_field
    add_link n f0 c = do
      nd ← load n
      assert (not (is_forwarding nd))
      assert (l.type_aware || is_unknown f0.type)
      assert (not (is_null c))
      f ← adjusted_field n f0
      present ← has_link l n f
      omni ← if l.type_aware && not present then has_link l n (mk_omni_field f) else pure false
      if present
          then (do link ← get_link_ l n f; unify_link n f link c)
          else if omni
          then (do
            assert (not f.type.is_omni)
            link ← get_link_ l n (mk_omni_field f)
            unify_link n (mk_omni_field f) link c)
          else if not f.type.is_omni
          then set_link l n f c
          else do assert l.type_aware; add_omni_link n f c
