-- ===== src/ShadowMem/Reach/Exact.antt =====
-- The nodes that argReachableNodes of lib/seadsa/ShadowMem.cc finds.
use sea_dsa.Common.{
  ℕ, zero, suc, ◌≤◌, ◌<◌, ◌≡◌, refl, ap, ◌∙◌, true, false, not, ◌&&◌, Option, some, List, [], ◌∷◌,
  arith, inl, inr, ◌⊎◌, ◌↔◌, Bool-cases, Option-cases, lookup, member, set_insert,
  member-set_insert, set_union, member-set_union, ◌==◌, ==_refl, ==→≡, subst, remove_if, is_some,
}
use sea_dsa.Llvm.{Llvm}
use sea_dsa.Graph.{Node, Graph}
use sea_dsa.Graph.Dead.{targets}
use sea_dsa.Graph.Dead.Reach.{LinksTo, member-targets, unseen, unseen-lt, AllPresent}
use sea_dsa.Graph.Dead.Round.{IsCompressed}
use sea_dsa.Graph.Dead.Start.{unseen_none}
use sea_dsa.ShadowMem.Reach.Starts.{Given, Returned, inputs-Given, outputs-Returned}
use sea_dsa.ShadowMem.Reach.{mark_all, mark_reachable, rounds, arg_reachable_nodes}

-- The nodes to which links lead from some nodes.
pub data Leads (g : Graph) (from : ℕ → Type 0) : ℕ → Type 0 where
  start : {n : ℕ} → from n → Leads g from n
  link :
      {n m : ℕ} {nd : Node}
      → Leads g from n
      → lookup n g.nodes ≡ some nd
      → LinksTo g m nd.links
      → Leads g from m

-- The nodes of a list.
abbrev pub Among : List ℕ → ℕ → Type 0
Among ns n = member n ns ≡ true

Leads_mono :
    {g : Graph} (p q : ℕ → Type 0) → ((n : ℕ) → p n → q n) → {m : ℕ} → Leads g p m → Leads g q m
Leads_mono p q sub (start h) = start (sub _ h)
Leads_mono p q sub (link h at to) = link (Leads_mono p q sub h) at to

-- What marking nodes `ns` makes of a set.
record Marked (g : Graph) (ns seen s : List ℕ) : Type 0 where
  kept : (x : ℕ) → member x seen ≡ true → member x s ≡ true
  started : (x : ℕ) → member x ns ≡ true → member x s ≡ true
  closed :
      (n m : ℕ) (nd : Node)
      → member n s ≡ true
      → member n seen ≡ false
      → lookup n g.nodes ≡ some nd
      → LinksTo g m nd.links
      → member m s ≡ true
  sound : (x : ℕ) → member x s ≡ true → (member x seen ≡ true) ⊎ Leads g (Among ns) x

unseen_mono :
    (r s : List ℕ) (ns : List (ℕ × Node))
    → ((x : ℕ) → member x r ≡ true → member x s ≡ true)
    → unseen s ns ≤ unseen r ns
unseen_mono r s [] sub = omega arith
unseen_mono r s ((n, nd) ∷ ns) sub = ground (arith, unseen_mono r s ns sub, sub n)

mark_all_cons :
    (rec : ℕ → List ℕ → Option (List ℕ)) (n : ℕ) (ns seen s : List ℕ)
    → rec n seen ≡ some s
    → mark_all rec (n ∷ ns) seen ≡ mark_all rec ns s
unfolding mark_all
mark_all_cons rec n ns seen s e = ground arith

module _ (g : Graph) (nd : IsCompressed g) where
  Marked-nil : (seen : List ℕ) → Marked g [] seen seen
  Marked-nil seen = record {
    kept = λ x m. m;
    started = λ x m. absurd (ground arith);
    closed = λ n m d p q. absurd (ground arith);
    sound = λ x m. inl m;
  }

  Marked-cons :
      (n : ℕ) (ns seen s t : List ℕ)
      → Marked g (n ∷ []) seen s
      → Marked g ns s t
      → Marked g (n ∷ ns) seen t
  Marked-cons n ns seen s t p q = record {
    kept = λ x m. q.kept x (p.kept x m);
    started = λ x m. elim (Bool-cases (n == x)) [
      | inl e ↦ q.kept x (p.started x (ground arith))
      | inr e ↦ q.started x (ground arith)
    ];
    closed = λ x m d at new is to. elim (Bool-cases (member x s)) [
      | inl old ↦ q.kept m (p.closed x m d old new is to)
      | inr later ↦ q.closed x m d at later is to
    ];
    sound = λ x m. elim (q.sound x m) [
      | inr far ↦ inr (Leads_mono (Among ns) (Among (n ∷ ns)) (λ y h. ground arith) far)
      | inl near ↦ elim (p.sound x near) [
        | inl old ↦ inl old
        | inr far ↦ inr (Leads_mono (Among (n ∷ [])) (Among (n ∷ ns)) (λ y h. ground arith) far)
      ]
    ];
  }

  -- A node that is new, with the marks of what it links to.
  Marked-node :
      (n : ℕ) (d : Node) (ts seen s : List ℕ)
      → lookup n g.nodes ≡ some d
      → targets g d.links ≡ some ts
      → Marked g ts (set_insert n seen) s
      → Marked g (n ∷ []) seen s
  Marked-node n d ts seen s at ends p = record {
    kept = λ x m. p.kept x (ground (arith, member-set_insert n x seen));
    started = λ x m. p.kept x (ground (arith, member-set_insert n x seen));
    closed = λ x y e in' new is to. elim (Bool-cases (n == x)) [
      | inl same ↦
          let eq : e ≡ d = ground arith in
          p.started y (
            (member-targets g d.links ts y ends).1
              (subst (λ (z : Node). LinksTo g y z.links) eq to))
      | inr apart ↦ p.closed x y e in' (ground (arith, member-set_insert n x seen)) is to
    ];
    sound = λ x m. elim (p.sound x m) [
      | inl old ↦ elim (Bool-cases (n == x)) [
        | inl same ↦ inr (start (ground arith))
        | inr apart ↦ inl (ground (arith, member-set_insert n x seen))
      ]
      | inr far ↦ inr (through far)
    ];
  }
    where
      through : {x : ℕ} → Leads g (Among ts) x → Leads g (Among (n ∷ [])) x
      through (start h) =
          link (start (ground (arith, ==_refl n))) at ((member-targets g d.links ts _ ends).0 h)
      through (link h is to) = link (through h) is to

  -- Marking the nodes of a list, where marking one node works on every larger set too.
  mark_all-Marked :
      (k : ℕ)
      → ((n : ℕ) (seen : List ℕ)
          → is_some (lookup n g.nodes) ≡ true
          → unseen seen g.nodes < k
          → (s : List ℕ) × (mark_reachable g k n seen ≡ some s) × Marked g (n ∷ []) seen s)
      → (ns seen : List ℕ) → AllPresent g ns
      → unseen seen g.nodes < k
      → (s : List ℕ) × (mark_all (mark_reachable g k) ns seen ≡ some s) × Marked g ns seen s
  unfolding mark_all
  mark_all-Marked k one [] seen there few = (seen, refl, Marked-nil seen)
  mark_all-Marked k one (n ∷ ns) seen there few =
      let (s, e, p) = one n seen there.0 few in
      let less = unseen_mono seen s g.nodes p.kept in
      let (t, e', q) = mark_all-Marked k one ns s there.1 (omega arith) in
      (t, mark_all_cons (mark_reachable g k) n ns seen s e ∙ e', Marked-cons n ns seen s t p q)

  mark_reachable-Marked :
      (k n : ℕ) (seen : List ℕ)
      → is_some (lookup n g.nodes) ≡ true
      → unseen seen g.nodes < k
      → (s : List ℕ) × (mark_reachable g k n seen ≡ some s) × Marked g (n ∷ []) seen s
  unfolding mark_reachable
  mark_reachable-Marked zero n seen here few = absurd (omega arith)
  mark_reachable-Marked (suc k) n seen here few = elim (Bool-cases (member n seen)) [
    | inl old ↦ (
      seen,
      ground arith,
      record {
        kept = λ x m. m;
        started = λ x m. let e : n ≡ x = ==→≡ n x (ground arith) in cc (e, old);
        closed = λ x m d p q. absurd (ground arith);
        sound = λ x m. inl m;
      },
    )
    | inr new ↦ elim (Option-cases (lookup n g.nodes)) [
      | inl gone ↦ absurd (ground arith)
      | inr (d, at) ↦
          let (ts, ends, there) = nd.links_end n d at in
          let less = unseen-lt n seen g.nodes here new in
          let (s, e, p) =
            mark_all-Marked k (mark_reachable-Marked k) ts (set_insert n seen) there
              (omega arith) in
          (s, ground arith, Marked-node n d ts seen s at ends p)
    ]
  ]

  -- Marking from the empty set finds exactly what the nodes lead to.
  marked_exactly :
      (ns : List ℕ)
      → AllPresent g ns
      → (s : List ℕ) × (mark_all (mark_reachable g (rounds g)) ns [] ≡ some s)
        × ((x : ℕ) → (member x s ≡ true) ↔ Leads g (Among ns) x)
  marked_exactly ns there =
      let (s, e, p) =
        mark_all-Marked (rounds g) (mark_reachable-Marked (rounds g)) ns [] there
          (omega (arith, unseen_none g.nodes)) in
      (s, e, λ x. ((λ m. elim (p.sound x m) [ inl none' ↦ cc | inr far ↦ far ]), reaches s p))
    where
      reaches : (s : List ℕ) → Marked g ns [] s → {x : ℕ} → Leads g (Among ns) x → member x s ≡ true
      reaches s p (start h) = p.started _ h
      reaches s p (link h is to) = p.closed _ _ _ (reaches s p h) refl is to

-- The same from the nodes that are those of the list.
marked_from :
    (g : Graph) (nd : IsCompressed g) (ns : List ℕ) (from : ℕ → Type 0)
    → AllPresent g ns
    → ((x : ℕ) → (member x ns ≡ true) ↔ from x)
    → (s : List ℕ) × (mark_all (mark_reachable g (rounds g)) ns [] ≡ some s)
      × ((x : ℕ) → (member x s ≡ true) ↔ Leads g from x)
marked_from g nd ns from there same =
    let (s, e, all) = marked_exactly g nd ns there in
    (
      s,
      e,
      λ x. (
        (λ m. Leads_mono (Among ns) from (λ n. (same n).0) ((all x).0 m)),
        λ h. (all x).1 (Leads_mono from (Among ns) (λ n. (same n).1) h),
      ),
    )

member-difference :
    (x : ℕ) (i o : List ℕ)
    → member x (remove_if (λ y. member y i) o) ≡ (member x o && not (member x i))
member-difference x i [] = refl
member-difference x i (y ∷ o) = elim (Bool-cases (y == x)) [
  | inl e ↦
      let same : member y i ≡ member x i = ap (λ z. member z i) (==→≡ y x e) in
      ground (arith, same, member-difference x i o)
  | inr e ↦ ground (arith, member-difference x i o)
]

-- In a graph that is compressed, with no forwarding node, and whose cells are null or lead to its
-- nodes, argReachableNodes ends. Its first set holds exactly the nodes to which links lead from the
-- cells of formals of the function and of globals, or from the cell of the returned value; the second
-- one those to which only the returned value leads.
pub arg_reachable_nodes-Leads :
    (l : Llvm) (g : Graph) (fn : ℕ)
    → IsCompressed g
    → (reach new : List ℕ) × (arg_reachable_nodes l g fn ≡ some (reach, new))
      × ((x : ℕ) → (member x reach ≡ true) ↔ (Leads g (Given l g fn) x ⊎ Leads g (Returned g fn) x))
      × ((x : ℕ)
          → (member x new ≡ true) ↔ (Leads g (Returned g fn) x × (Leads g (Given l g fn) x → ⊥)))
unfolding arg_reachable_nodes
arg_reachable_nodes-Leads l g fn nd =
    let (is, ei, pi, from) = inputs-Given l g nd fn in
    let (os, eo, po, back) = outputs-Returned l g nd fn in
    let (i, e, in') = marked_from g nd is (Given l g fn) pi from in
    let (o, e', out) = marked_from g nd os (Returned g fn) po back in
    let new = remove_if (λ y. member y i) o in
    (
      set_union i new,
      new,
      ground arith,
      λ x. (
        (λ m. elim (Bool-cases (member x i)) [
          | inl h ↦ inl ((in' x).0 h)
          | inr h ↦
              inr ((out x).0 (ground (arith, member-set_union x i new, member-difference x i o)))
        ]),
        λ far. elim far [
          | inl h ↦ let m = (in' x).1 h in ground (arith, member-set_union x i new)
          | inr h ↦
              let m = (out x).1 h in
              ground (arith, member-set_union x i new, member-difference x i o)
        ],
      ),
      λ x. (
        (λ m. (
          (out x).0 (ground (arith, member-difference x i o)),
          λ h. let h' = (in' x).1 h in absurd (ground (arith, member-difference x i o)),
        )),
        λ (h, apart). elim (Bool-cases (member x i)) [
          | inl h' ↦ absurd (apart ((in' x).0 h'))
          | inr h' ↦ let m = (out x).1 h in ground (arith, member-difference x i o)
        ],
      ),
    )
