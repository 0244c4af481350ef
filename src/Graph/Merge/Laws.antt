-- ===== src/Graph/Merge/Laws.antt =====
-- Node::mergeUniqueScalar and Node::mergeAllocSites of lib/seadsa/Graph.cc: what they change and report.
use sea_dsa.Common.{
  ℕ, Bool, true, false, not, ◌||◌, Option, none, List, [], ◌∷◌, ◌≡◌, ◌≢◌, arith, member, set_union,
  includes, member-set_union, ◌⊎◌,
}
use sea_dsa.Graph.{Node}
use sea_dsa.Graph.Merge.{Changed, changed, merge_unique_scalars, merge_alloc_sites}

includes-member :
    (s t : List ℕ) (a : ℕ) → includes s t ≡ true → member a t ≡ true → member a s ≡ true
includes-member s [] a h m = ground arith
includes-member s (x ∷ xs) a h m = ground (arith, includes-member s xs a)

-- Both nodes end with the sites of both, and the result says exactly whose set has grown.
pub record IsMerged (s t : List ℕ) (r : List ℕ × List ℕ × Changed) : Type 0 where
  pub first : (a : ℕ) → member a r.0 ≡ (member a s || member a t)
  pub second : (a : ℕ) → member a r.1 ≡ (member a s || member a t)
  pub this_changed : r.2.this ≡ not (includes s t)
  pub other_changed : r.2.other ≡ not (includes t s)
  pub this_kept : (r.2.this ≡ true) ⊎ (r.0 ≡ s)
  pub other_kept : (r.2.other ≡ true) ⊎ (r.1 ≡ t)

module _ (s t : List ℕ) where
  -- Merging the allocation sites of two nodes leaves both with the union of their sites; each of
  -- the two results says whether the node lacked a site, and if it did not its set is as before.
  pub merge_alloc_sites-IsMerged : IsMerged s t (merge_alloc_sites s t)
  unfolding merge_alloc_sites
  merge_alloc_sites-IsMerged = record {
    first = λ a. ground (arith, member-set_union a s t, includes-member s t a);
    second = λ a. ground (
      arith,
      member-set_union a s t,
      member-set_union a t s,
      member-set_union a t (set_union s t),
      includes-member t s a,
    );
    this_changed = ground arith;
    other_changed = ground arith;
    this_kept = ground arith;
    other_kept = ground arith;
  }

-- A node keeps its unique scalar, or drops one that the other node did not share.
abbrev pub Kept : Option ℕ → Node → Node → Bool → Type 0
Kept other a r changed =
    ((changed ≡ false) × (r ≡ a))
    ⊎ (changed ≡ true) × (r.unique_scalar ≡ none) × (a.unique_scalar ≢ other)

-- No two different unique scalars survive, and the result says exactly whose scalar was dropped.
pub record IsAgreed (a b : Node) (r : Node × Node × Changed) : Type 0 where
  pub agree : r.0.unique_scalar ≡ r.1.unique_scalar
  pub different : (a.unique_scalar ≡ b.unique_scalar) ⊎ (r.0.unique_scalar ≡ none)
  pub this : Kept b.unique_scalar a r.0 r.2.this
  pub other : Kept a.unique_scalar b r.1 r.2.other

-- Merging the unique scalars of two nodes leaves them with the same one, none if they differed. For
-- each node the result says whether it dropped a scalar that the other did not share; if not, the
-- node is as before.
pub merge_unique_scalars-IsAgreed : (a b : Node) → IsAgreed a b (merge_unique_scalars a b)
unfolding merge_unique_scalars
merge_unique_scalars-IsAgreed a b = record {
  agree = ground arith;
  different = ground arith;
  this = ground arith;
  other = ground arith;
}
