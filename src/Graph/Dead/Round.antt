-- ===== src/Graph/Dead/Round.antt =====
-- One round of the loop over the worklist of Graph::remove_dead of lib/seadsa/Graph.cc.
use sea_dsa.Common.{
  ℕ, true, some, List, [], ◌∷◌, ◌≡◌, ◌⊎◌, inl, inr, subst, arith, lookup, member, is_some, ◌==◌,
  Bool-cases,
}
use sea_dsa.Graph.{Node, Graph}
use sea_dsa.Graph.Dead.{targets, Search, offers}
use sea_dsa.Graph.Dead.Walk.{roots, IsResolved}
use sea_dsa.Graph.Dead.Reach.{
  LinksTo, Reach, link, member-targets, reachable-offers, worklist-offers, AllPresent,
}

-- A compressed graph: no node forwards to another one, and each cell that is not null leads to a
-- node of the graph.
pub record IsCompressed (g : Graph) : Type 0 where
  pub resolved : IsResolved g
  pub root_list : List ℕ
  pub roots_end : roots g ≡ some root_list
  pub roots_present : AllPresent g root_list
  pub links_end :
      (n : ℕ) (nd : Node)
      → lookup n g.nodes ≡ some nd
      → (ts : List ℕ) × (targets g nd.links ≡ some ts) × AllPresent g ts

-- What holds at the head of the loop.
pub record Inv (g : Graph) (s : Search) : Type 0 where
  pub sound : (n : ℕ) → member n s.reachable ≡ true → Reach g n
  pub queued : (n : ℕ) → member n s.worklist ≡ true → member n s.reachable ≡ true
  pub present : (n : ℕ) → member n s.reachable ≡ true → is_some (lookup n g.nodes) ≡ true
  pub rooted :
      (rs : List ℕ) (n : ℕ) → roots g ≡ some rs → member n rs ≡ true → member n s.reachable ≡ true
  pub closed :
      (n m : ℕ) (nd : Node)
      → member n s.reachable ≡ true
      → lookup n g.nodes ≡ some nd
      → LinksTo g m nd.links
      → (member n s.worklist ≡ true) ⊎ (member m s.reachable ≡ true)

pub AllPresent-member :
    (g : Graph) (ns : List ℕ) (n : ℕ)
    → AllPresent g ns
    → member n ns ≡ true
    → is_some (lookup n g.nodes) ≡ true
AllPresent-member g [] n h m = cc
AllPresent-member g (k ∷ ns) n h m = ground (arith, AllPresent-member g ns n h.1)

-- With the worklist empty.
abbrev pub done : List ℕ → Search
done r = record { reachable = r; worklist = [] }

-- One round: `n` leaves the worklist, and its targets are offered.
module _ (g : Graph) (s : Search) (n : ℕ) (rest : List ℕ) (nd : Node) (ts : List ℕ)
    (e : s.worklist ≡ n ∷ rest) (here : lookup n g.nodes ≡ some nd)
    (ends : targets g nd.links ≡ some ts) (there : AllPresent g ts) where
  abbrev pub popped : Search
  popped = record s { worklist = rest }

  pub Inv-round : Inv g s → Inv g (offers popped ts)
  Inv-round v = record {
    sound = λ x m. elim (Bool-cases (member x s.reachable)) [
      | inl old ↦ v.sound x old
      | inr new ↦
          link (v.sound n (v.queued n (ground arith))) here
            ((member-targets g nd.links ts x ends).0 (ground (arith, reachable-offers popped ts x)))
    ];
    queued = λ x m.
        ground (arith, worklist-offers popped ts x, reachable-offers popped ts x, v.queued x);
    present = λ x m.
        ground (arith, reachable-offers popped ts x, v.present x, AllPresent-member g ts x there);
    rooted = λ rs x f m. ground (arith, reachable-offers popped ts x, v.rooted rs x f m);
    closed = λ x y xd m at to. elim (Bool-cases (x == n)) [
      | inl same ↦
          let eq : xd ≡ nd = ground arith in
          let to' =
            (member-targets g nd.links ts y ends).1
              (subst (λ (d : Node). LinksTo g y d.links) eq to) in
          inr (ground (arith, reachable-offers popped ts y))
      | inr apart ↦ elim (Bool-cases (member x s.reachable)) [
        | inl old ↦ ground (
          arith,
          reachable-offers popped ts y,
          worklist-offers popped ts x,
          v.closed x y xd old at to,
        )
        | inr new ↦ inl (ground (arith, reachable-offers popped ts x, worklist-offers popped ts x))
      ]
    ];
  }
