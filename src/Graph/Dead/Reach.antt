-- ===== src/Graph/Dead/Reach.antt =====
-- What it means to be reachable, and what one step of the worklist of remove_dead does.
use sea_dsa.Common.{
  ℕ, suc, ◌+◌, ◌≤◌, true, false, not, ◌&&◌, ◌||◌, some, List, [], ◌∷◌, ◌++◌, ◌≡◌, ◌⊎◌, inl, inr,
  ◌↔◌, refl, arith, lookup, member, member-set_insert, set_insert, is_some, length, Bool-cases,
  Option-cases, if◌then◌else◌,
}
use sea_dsa.Graph.{Cell, Node, Graph, is_null}
use sea_dsa.Graph.Dead.{target, targets, Search, offer, offers}

-- Some cell of the map is not null and points into the node `m`.
abbrev pub LinksTo : {K : Type 0} → Graph → ℕ → List (K × Cell) → Type 0
LinksTo g m [] = ⊥
LinksTo g m ((k, c) ∷ cs) = ((is_null c ≡ false) × (target g c ≡ some m)) ⊎ LinksTo g m cs

-- The nodes that some scalar, formal or return leads to.
pub data Reach (g : Graph) : ℕ → Type 0 where
  scalar : {n : ℕ} → LinksTo g n g.values → Reach g n
  formal : {n : ℕ} → LinksTo g n g.formals → Reach g n
  return : {n : ℕ} → LinksTo g n g.returns → Reach g n
  link :
      {n m : ℕ} {nd : Node}
      → Reach g n
      → lookup n g.nodes ≡ some nd
      → LinksTo g m nd.links
      → Reach g m

pub member-targets :
    {K : Type 0} (g : Graph) (cs : List (K × Cell)) (ts : List ℕ) (m : ℕ)
    → targets g cs ≡ some ts
    → (member m ts ≡ true) ↔ LinksTo g m cs
unfolding targets
member-targets g [] ts m h = (λ x. ground arith, λ x. elim x [ ])
member-targets g ((k, c) ∷ cs) ts m h = elim (Option-cases (targets g cs)) [
  | inl lost ↦ absurd (ground arith)
  | inr (us, e) ↦ elim (Bool-cases (is_null c)) [
    | inl null ↦ ground (arith, member-targets g cs us m)
    | inr live ↦ elim (Option-cases (target g c)) [
      | inl gone ↦ absurd (ground arith)
      | inr (t, at) ↦ ground (arith, member-targets g cs us m)
    ]
  ]
]

pub member-append : (a : ℕ) (s t : List ℕ) → member a (s ++ t) ≡ (member a s || member a t)
member-append a [] t = refl
member-append a (x ∷ s) t = ground (arith, member-append a s t)

pub reachable-offers :
    (s : Search) (ts : List ℕ) (x : ℕ)
    → member x (offers s ts).reachable ≡ (member x s.reachable || member x ts)
unfolding offers offer
reachable-offers s [] x = ground arith
reachable-offers s (t ∷ ts) x =
    ground (arith, reachable-offers (offer s t) ts x, member-set_insert t x s.reachable)

pub worklist-offers :
    (s : Search) (ts : List ℕ) (x : ℕ)
    → member x (offers s ts).worklist
      ≡ (member x s.worklist || (member x ts && not (member x s.reachable)))
unfolding offers offer
worklist-offers s [] x = ground arith
worklist-offers s (t ∷ ts) x =
    ground (arith, worklist-offers (offer s t) ts x, member-set_insert t x s.reachable)

-- The nodes of the graph that are not found yet.
abbrev pub unseen : List ℕ → List (ℕ × Node) → ℕ
unseen r [] = 0
unseen r ((n, nd) ∷ ns) = (if member n r then 0 else 1) + unseen r ns

unseen-le : (n : ℕ) (r : List ℕ) (ns : List (ℕ × Node)) → unseen (set_insert n r) ns ≤ unseen r ns
unseen-le n r [] = omega arith
unseen-le n r ((m, md) ∷ ns) = ground (arith, unseen-le n r ns, member-set_insert n m r)

pub unseen-lt :
    (n : ℕ) (r : List ℕ) (ns : List (ℕ × Node))
    → is_some (lookup n ns) ≡ true
    → member n r ≡ false
    → suc (unseen (set_insert n r) ns) ≤ unseen r ns
unseen-lt n r [] h m = cc
unseen-lt n r ((k, md) ∷ ns) h m =
    ground (arith, unseen-lt n r ns, unseen-le n r ns, member-set_insert n k r)

-- The nodes of the list are all in the graph.
abbrev pub AllPresent : Graph → List ℕ → Type 0
AllPresent g [] = Unit
AllPresent g (n ∷ ns) = (is_some (lookup n g.nodes) ≡ true) × AllPresent g ns

-- What is put on the worklist is taken from what is not found yet.
pub offers-work :
    (g : Graph) (s : Search) (ts : List ℕ)
    → AllPresent g ts
    → length (offers s ts).worklist + unseen (offers s ts).reachable g.nodes
      ≤ length s.worklist + unseen s.reachable g.nodes
unfolding offers offer
offers-work g s [] h = omega arith
offers-work g s (t ∷ ts) h =
    ground (arith, offers-work g (offer s t) ts h.1, unseen-lt t s.reachable g.nodes h.0)
