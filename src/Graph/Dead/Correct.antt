-- ===== src/Graph/Dead/Correct.antt =====
-- Graph::remove_dead of lib/seadsa/Graph.cc: what it keeps and what it removes.
use sea_dsa.Common.{
  ℕ, zero, suc, ◌+◌, ◌≤◌, true, not, none, some, List, [], ◌≡◌, ◌⊎◌, inl, inr, refl, ap, arith,
  reverse, remove_if, lookup, member, is_some, length, Bool-cases,
}
use sea_dsa.Graph.{Node, Graph, ok}
use sea_dsa.Graph.Dead.{Search, offers, insert_all, reachable, remove_dead}
use sea_dsa.Graph.Dead.Walk.{walk, list_cases, search-walk, get_roots-roots}
use sea_dsa.Graph.Dead.Reach.{LinksTo, Reach, scalar, formal, return, link, unseen, offers-work}
use sea_dsa.Graph.Dead.Round.{IsCompressed, Inv, AllPresent-member, done, popped, Inv-round}
use sea_dsa.Graph.Dead.Start.{
  member-insert_all, insert_all-work, unseen_none, member-reverse, length-reverse, lookup-remove_if,
  member-roots,
}

module _ (g : Graph) (nd : IsCompressed g) where
  Reach-root :
      (n : ℕ) → LinksTo g n g.values ⊎ LinksTo g n g.formals ⊎ LinksTo g n g.returns → Reach g n
  Reach-root n (inl h) = scalar h
  Reach-root n (inr (inl h)) = formal h
  Reach-root n (inr (inr h)) = return h

  Inv-done : (s : Search) → s.worklist ≡ [] → Inv g s → Inv g (done s.reachable)
  Inv-done s e v = record {
    sound = v.sound;
    queued = λ n m. ground arith;
    present = v.present;
    rooted = v.rooted;
    closed = λ n m xd a b c. ground (arith, v.closed n m xd a b c);
  }

  found : (n : ℕ) → is_some (lookup n g.nodes) ≡ true → (d : Node) × (lookup n g.nodes ≡ some d)
  found n h = ground arith

  -- The walk ends within as many rounds as there are nodes to be found or waiting.
  walk_lem :
      (k : ℕ) (s : Search)
      → Inv g s
      → length s.worklist + unseen s.reachable g.nodes ≤ k
      → (r : List ℕ) × (walk k g s ≡ some r) × Inv g (done r)
  unfolding walk
  walk_lem zero s v w = elim (list_cases s.worklist) [
    | inl e ↦ (s.reachable, ground arith, Inv-done s e v)
    | inr (n, rest, e) ↦ absurd (omega (arith, ap length e))
  ]
  walk_lem (suc k) s v w = elim (list_cases s.worklist) [
    | inl e ↦ (s.reachable, ground arith, Inv-done s e v)
    | inr (n, rest, e) ↦
        let (md, here) = found n (v.present n (v.queued n (ground arith))) in
        let (ts, ends, there) = nd.links_end n md here in
        let (r, ran, v') =
          walk_lem k (offers (popped g s n rest md ts e here ends there) ts)
            (Inv-round g s n rest md ts e here ends there v)
            (omega (
              arith,
              offers-work g (popped g s n rest md ts e here ends there) ts there,
              ap length e,
            )) in
        (r, ground arith, v')
  ]

  Reach-member : (r : List ℕ) (n : ℕ) → Inv g (done r) → Reach g n → member n r ≡ true
  Reach-member r n v (scalar h) =
      v.rooted nd.root_list n nd.roots_end ((member-roots g nd.root_list n nd.roots_end).1 (inl h))
  Reach-member r n v (formal h) =
      v.rooted nd.root_list n nd.roots_end
        ((member-roots g nd.root_list n nd.roots_end).1 (inr (inl h)))
  Reach-member r n v (return h) =
      v.rooted nd.root_list n nd.roots_end
        ((member-roots g nd.root_list n nd.roots_end).1 (inr (inr h)))
  Reach-member r n v (link {n = k} {nd = d} p here to) =
      ground (arith, v.closed k n d (Reach-member r k v p) here to)

  abbrev start : Search
  start = record {
    reachable = insert_all [] nd.root_list;
    worklist = reverse (insert_all [] nd.root_list);
  }

  Inv-start : Inv g start
  Inv-start = record {
    sound = λ n m. Reach-root n (
        (member-roots g nd.root_list n nd.roots_end).0
          (ground (arith, member-insert_all n [] nd.root_list)));
    queued = λ n m. ground (arith, member-reverse n (insert_all [] nd.root_list));
    present = λ n m.
        AllPresent-member g nd.root_list n nd.roots_present
          (ground (arith, member-insert_all n [] nd.root_list));
    rooted = λ rs n e m. ground (arith, member-insert_all n [] nd.root_list, nd.roots_end);
    closed = λ n m xd a b c. inl (ground (arith, member-reverse n (insert_all [] nd.root_list)));
  }

start_work :
    (g : Graph) (nd : IsCompressed g)
    → length (start g nd).worklist + unseen (start g nd).reachable g.nodes ≤ length g.nodes
start_work g nd = omega (
  arith,
  length-reverse (insert_all [] nd.root_list),
  insert_all-work g [] nd.root_list nd.roots_present,
  unseen_none g.nodes,
)

abbrev pub Kept : Graph → Graph → ℕ → Type 0
Kept g h n = Reach g n × (lookup n h.nodes ≡ lookup n g.nodes) × (is_some (lookup n h.nodes) ≡ true)

abbrev pub Dropped : Graph → Graph → ℕ → Type 0
Dropped g h n = (¬ Reach g n) × (lookup n h.nodes ≡ none)

-- In a graph that is compressed, with no forwarding node, and whose cells are null or lead to its
-- nodes, remove_dead ends, and keeps exactly the nodes that can be reached from the scalars, the
-- formals and the returns: a kept node is unchanged, and nothing else of the graph changes.
pub remove_dead-Reach :
    (g : Graph)
    → IsCompressed g
    → (h : Graph) × (remove_dead g ≡ ok tt h)
      × (h ≡ record g { nodes = h.nodes })
      × ((n : ℕ) → Kept g h n ⊎ Dropped g h n)
unfolding remove_dead reachable
remove_dead-Reach g nd =
    let (r, ran, v) =
      walk_lem g nd (length g.nodes) (start g nd) (Inv-start g nd) (start_work g nd) in
    let searched = search-walk g nd.resolved (length g.nodes) (start g nd) r ran in
    let rooted = get_roots-roots g nd.resolved nd.root_list nd.roots_end in
    (
      record g { nodes = remove_if (λ (n, d). not (member n r)) g.nodes },
      ground (arith, rooted, searched),
      refl,
      λ n. elim (Bool-cases (member n r)) [
        | inl m ↦ inl (
          v.sound n m,
          ground (arith, lookup-remove_if n r g.nodes),
          ground (arith, lookup-remove_if n r g.nodes, v.present n m),
        )
        | inr m ↦ inr (
          λ p. ground (arith, Reach-member g nd r n v p),
          ground (arith, lookup-remove_if n r g.nodes),
        )
      ],
    )
