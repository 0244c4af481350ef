-- ===== src/Graph/Dead/Start.antt =====
-- The set and the worklist with which the loop of Graph::remove_dead of lib/seadsa/Graph.cc begins.
use sea_dsa.Common.{
  ℕ, suc, ◌+◌, ◌≤◌, true, not, ◌||◌, none, some, List, [], ◌∷◌, ◌++◌, ◌≡◌, ◌⊎◌, inl, inr, ◌↔◌, refl,
  arith, reverse, remove_if, lookup, member, member-set_insert, set_insert, length, length-append,
  Bool-cases, Option-cases, if◌then◌else◌,
}
use mathlib.Core.List.{reverse-cons}
use sea_dsa.Graph.{Node, Graph}
use sea_dsa.Graph.Dead.{targets, insert_all}
use sea_dsa.Graph.Dead.Walk.{roots}
use sea_dsa.Graph.Dead.Reach.{LinksTo, member-targets, member-append, unseen, AllPresent, unseen-lt}

pub member-insert_all :
    (x : ℕ) (s ns : List ℕ) → member x (insert_all s ns) ≡ (member x s || member x ns)
unfolding insert_all
member-insert_all x s [] = ground arith
member-insert_all x s (n ∷ ns) = ground (
  arith,
  member-insert_all x (if member n s then s else set_insert n s) ns,
  member-set_insert n x s,
)

length-set_insert : (n : ℕ) (s : List ℕ) → length (set_insert n s) ≤ suc (length s)
length-set_insert n [] = omega arith
length-set_insert n (x ∷ xs) = ground (arith, length-set_insert n xs)

pub insert_all-work :
    (g : Graph) (s ns : List ℕ)
    → AllPresent g ns
    → length (insert_all s ns) + unseen (insert_all s ns) g.nodes ≤ length s + unseen s g.nodes
unfolding insert_all
insert_all-work g s [] h = omega arith
insert_all-work g s (n ∷ ns) h = elim (Bool-cases (member n s)) [
  | inl old ↦ rw old (insert_all-work g s ns h.1)
  | inr new ↦ rw new (
      omega (
        arith,
        insert_all-work g (set_insert n s) ns h.1,
        length-set_insert n s,
        unseen-lt n s g.nodes h.0 new,
      ))
]

pub unseen_none : (ns : List (ℕ × Node)) → unseen [] ns ≡ length ns
unseen_none [] = refl
unseen_none ((n, nd) ∷ ns) = omega (arith, unseen_none ns)

pub member-reverse : (x : ℕ) (s : List ℕ) → member x (reverse s) ≡ member x s
member-reverse x [] = refl
member-reverse x (y ∷ s) =
    ground (arith, reverse-cons y s, member-append x (reverse s) (y ∷ []), member-reverse x s)

pub length-reverse : (s : List ℕ) → length (reverse s) ≡ length s
length-reverse [] = refl
length-reverse (y ∷ s) =
    ground (arith, reverse-cons y s, length-append (reverse s) (y ∷ []), length-reverse s)

pub lookup-remove_if :
    (n : ℕ) (r : List ℕ) (ns : List (ℕ × Node))
    → lookup n (remove_if (λ (m, d). not (member m r)) ns)
      ≡ (if member n r then lookup n ns else none)
lookup-remove_if n r [] = ground arith
lookup-remove_if n r ((m, d) ∷ ns) = ground (arith, lookup-remove_if n r ns)

pub member-roots :
    (g : Graph) (rs : List ℕ) (n : ℕ)
    → roots g ≡ some rs
    → (member n rs ≡ true) ↔ (LinksTo g n g.values ⊎ LinksTo g n g.formals ⊎ LinksTo g n g.returns)
unfolding roots
member-roots g rs n e = elim (Option-cases (targets g g.values)) [
  | inl lost ↦ absurd (ground arith)
  | inr (vs, ev) ↦ elim (Option-cases (targets g g.formals)) [
    | inl lost ↦ absurd (ground arith)
    | inr (fs, ef) ↦ elim (Option-cases (targets g g.returns)) [
      | inl lost ↦ absurd (ground arith)
      | inr (us, eu) ↦ ground (
        arith,
        member-append n (vs ++ fs) us,
        member-append n vs fs,
        member-targets g g.values vs n ev,
        member-targets g g.formals fs n ef,
        member-targets g g.returns us n eu,
      )
    ]
  ]
]
