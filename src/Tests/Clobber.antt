-- ===== src/Tests/Clobber.antt =====
-- A run of the optimiser of memory uses, and its theorems at concrete inputs.
use sea_dsa.Common.{
  ℕ, ◌+◌, ◌<◌, ◌≡◌, ◌⊎◌, refl, arith, inl, inr, ==→≡, true, false, Bool-cases, Option, none, some,
  List, [], ◌∷◌, ◌==◌, lookup, member, subst, unseen, if◌then◌else◌,
}
use sea_dsa.Graph.{cell, Graph}
use sea_dsa.Graph.Query.{Place}
use sea_dsa.ShadowMem.Fields.{ShadowMemInstOp, Point, Pseudo}
use sea_dsa.ShadowMem.Sites.{
  Pointer, Pointers, MaybeAllocSites, Cache, through, origin, get_all_alloc_sites,
}
use sea_dsa.ShadowMem.Sites.Origins.{Traced, IsTraced}
use sea_dsa.ShadowMem.Sites.Ends.{pushed, IsClosed, get_all_alloc_sites_ends}
use sea_dsa.ShadowMem.Clobber.{MemOp, NoAlias, start_of, find_def, solve_uses}
use sea_dsa.ShadowMem.Clobber.Skipped.{Skips}
use sea_dsa.ShadowMem.Clobber.Ends.{IsChain, find_def_ends}
use sea_dsa.Tests.Toy.{toy, garden, root}

-- The allocas 10 and 11, and 12, which is computed from 10.
abbrev kinds : ℕ → Pointer
kinds v =
    if v == 12
    then Pointer.gep 10
    else if v == 10
    then Pointer.root
    else if v == 11
    then Pointer.root
    else Pointer.other

abbrev pointers : Pointers
pointers = record { strip = λ v. v; pointer = kinds }

-- All of them have cells at the beginning of one node.
abbrev shared_node : Graph
shared_node = record garden { values = (10, cell 0 0) ∷ (11, cell 0 0) ∷ (12, cell 0 0) ∷ [] }

abbrev listed : List ℕ
listed = 10 ∷ 11 ∷ 12 ∷ []

listed-IsClosed : IsClosed pointers shared_node listed
unfolding origin
listed-IsClosed p u us m o n = elim (Bool-cases (p == 12)) [
  | inl e ↦
      let at : p ≡ 12 = ==→≡ p 12 e in
      let is : origin pointers shared_node 12 ≡ through us = cc (at, o) in
      let same : 10 ∷ [] ≡ us = cc is in
      let n' : member u (10 ∷ []) ≡ true = cc (same, n) in ground arith
  | inr e ↦ absurd (ground arith)
]

few : 1 + unseen (pushed pointers shared_node listed) [] listed < 8
unfolding origin
few = omega arith

nothing-IsTraced : IsTraced pointers shared_node []
nothing-IsTraced p r h = absurd (ground arith)

get_all_alloc_sites_ends_example :
    (r : MaybeAllocSites) × (cache' : Cache) × (get_all_alloc_sites pointers shared_node 8 12 []
      ≡ some (r, cache'))
    × Traced pointers shared_node 12 r
    × IsTraced pointers shared_node cache'
get_all_alloc_sites_ends_example =
    get_all_alloc_sites_ends pointers shared_node listed 8 12 [] listed-IsClosed few refl
      nothing-IsTraced

abbrev access : ShadowMemInstOp → ℕ → Pseudo
access op v = record {
  op = op;
  point = Point.before 0;
  id = 0;
  shadow = (0, 0);
  idx = none;
  scalar = none;
  bytes = some 4;
  pointer = some v;
  inst = none;
}

-- 1 begins the shadow variable, 2 stores through 11, and 3 loads through 12.
abbrev ops : List (ℕ × MemOp)
ops =
    (1, record { call = access ShadowMemInstOp.init 11; used = none })
    ∷ (2, record { call = access ShadowMemInstOp.store 11; used = some 1 })
    ∷ (3, record { call = access ShadowMemInstOp.load 12; used = some 2 })
    ∷ []

abbrev never : NoAlias
never u ui ub d di db = false

abbrev numbers : List (ℕ × MemOp) → List (ℕ × Option ℕ)
numbers [] = []
numbers ((i, o) ∷ rest) = (i, o.used) ∷ numbers rest

abbrev uses : Option (List (ℕ × MemOp)) → Option (List (ℕ × Option ℕ))
uses none = none
uses (some os) = some (numbers os)

-- The load does not depend on the store.
run_ends :
    uses (solve_uses toy pointers shared_node never 8 9 (1 ∷ 2 ∷ 3 ∷ []) ops [])
    ≡ some ((1, none) ∷ (2, some 1) ∷ (3, some 1) ∷ [])
unfolding solve_uses
run_ends = refl

abbrev user : Pseudo
user = access ShadowMemInstOp.load 12

abbrev from_11 : ShadowMemInstOp → Pseudo
from_11 op = access op 11

abbrev spot : Place
spot = record { address = 0; node = root; raw = 0 }

-- The pointer of each of the three.
pointer_of :
    (d dp : ℕ) (o : MemOp)
    → lookup d ops ≡ some o
    → o.call.pointer ≡ some dp
    → (11 ≡ dp) ⊎ (12 ≡ dp)
pointer_of d dp o at e = elim (Bool-cases (d == 1)) [
  | inl x ↦ inl (ground arith)
  | inr x ↦ elim (Bool-cases (d == 2)) [ inl y ↦ inl (ground arith) | inr y ↦ inr (ground arith) ]
]

starts : (v : ℕ) → (11 ≡ v) ⊎ (12 ≡ v) → start_of toy shared_node v ≡ some spot
unfolding start_of
starts v (inl e) = subst (λ x. start_of toy shared_node x ≡ some spot) e refl
starts v (inr e) = subst (λ x. start_of toy shared_node x ≡ some spot) e refl

are_listed : (v : ℕ) → (11 ≡ v) ⊎ (12 ≡ v) → member v listed ≡ true
are_listed v (inl e) = subst (λ x. member x listed ≡ true) e refl
are_listed v (inr e) = subst (λ x. member x listed ≡ true) e refl

ops-IsChain : IsChain toy pointers shared_node never 8 listed listed-IsClosed few (λ n. n) ops user
ops-IsChain = record {
  ready = λ d o at up dp eu ed.
      let a = pointer_of d dp o at ed in
      let b : (11 ≡ up) ⊎ (12 ≡ up) = inr (ground arith) in
      record {
        u = spot;
        d = spot;
        user_starts = starts up b;
        defn_starts = starts dp a;
        one_node = refl;
        user_listed = are_listed up b;
        defn_listed = are_listed dp a;
      };
  earlier = λ d o at. elim (Bool-cases (d == 1)) [
    | inl x ↦ inl (ground arith)
    | inr x ↦ elim (Bool-cases (d == 2)) [
      | inl y ↦ inr (
        1,
        record { call = from_11 ShadowMemInstOp.init; used = none },
        ground arith,
        refl,
        ground arith,
      )
      | inr y ↦ inr (
        2,
        record { call = from_11 ShadowMemInstOp.store; used = some 1 },
        ground arith,
        refl,
        ground arith,
      )
    ]
  ];
}

find_def_ends_example :
    (r : Option ℕ) × (cache' : Cache) × (find_def toy pointers shared_node never 8 4 ops user
        (some 2)
        none
        []
      ≡ some (r, cache'))
    × IsTraced pointers shared_node cache'
    × Skips toy pointers shared_node never 8 ops user (some 2) none r
find_def_ends_example =
    find_def_ends toy pointers shared_node never 8 listed listed-IsClosed few (λ n. n) ops user 4 2
      (record { call = from_11 ShadowMemInstOp.store; used = some 1 }) none [] ops-IsChain refl
      (omega arith) nothing-IsTraced
