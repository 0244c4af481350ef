-- ===== src/Mapper/Injective.antt =====
-- SimulationMapper::isInjective of lib/seadsa/Mapper.cc: whether two nodes are simulated by one node
-- at one offset.
pub mod Laws
use sea_dsa.Common.{
  ℕ, Bool, true, false, not, ◌&&◌, ◌||◌, Option, none, some, List, [], ◌∷◌, ◌++◌, ◌==◌, lookup,
}
use sea_dsa.FieldType.{Field}
use sea_dsa.Graph.{Node, Graph}
use sea_dsa.Mapper.{Sim}

-- The cells that isInjective inserts into its set, in the order of the two loops.
unfoldable pub targets_of : List (ℕ × Field) → List (ℕ × ℕ)
targets_of [] = []
targets_of ((n, f) ∷ s) = (n, f.offset) ∷ targets_of s

unfoldable pub inverse : Sim → List (ℕ × ℕ)
unfolding targets_of
inverse [] = []
inverse ((n, s) ∷ m) = targets_of s ++ inverse m

abbrev pub same : ℕ × ℕ → ℕ × ℕ → Bool
same (n, o) (m, p) = (n == m) && (o == p)

abbrev pub has_target : ℕ × ℕ → List (ℕ × ℕ) → Bool
has_target c [] = false
has_target c (d ∷ ds) = same d c || has_target c ds

module _ (to : Graph) (only_modified : Bool) where
  -- Whether a repetition of this cell counts; `none` is a dangling pointer.
  unfoldable pub counts : ℕ → Option Bool
  counts n = elim (lookup n to.nodes) [
    | none ↦ none
    | some nd ↦ some (not only_modified || nd.flags.modified)
  ]

  unfoldable pub injective_loop : (inv_sim cells : List (ℕ × ℕ)) → Option Bool
  unfolding counts
  injective_loop inv_sim [] = some true
  injective_loop inv_sim ((n, o) ∷ cs) =
      let rest = injective_loop ((n, o) ∷ inv_sim) cs in
      elim (counts n) [
        | none ↦ none
        | some false ↦ rest
        | some true ↦ elim (has_target (n, o) inv_sim) [ true ↦ some false | false ↦ rest ]
      ]

  unfoldable pub is_injective : Sim → Option Bool
  unfolding injective_loop inverse
  is_injective m = injective_loop [] (inverse m)
