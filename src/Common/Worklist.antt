-- ===== src/Common/Worklist.antt =====
-- A measure for loops over a worklist with a set of what is seen: what the members of a list that
-- are not seen yet cost.
use Prim.Native.Nat.{ℕ, suc, ◌+◌, ◌≤◌}
use mathlib.Core.Path.{◌≡◌, sym}
use mathlib.Core.Logic.{inl, inr}
use mathlib.Core.Bool.{true, false}
use mathlib.Core.List.{List, [], ◌∷◌}
use native.Mathlib.Omega.{arith}
use sea_dsa.Common.Tests.{◌==◌, if◌then◌else◌, Bool-cases, ==→≡, ==_refl}
use sea_dsa.Common.Sets.{member}

module _ (cost : ℕ → ℕ) where
  abbrev pub unseen : (seen all : List ℕ) → ℕ
  unseen seen [] = 0
  unseen seen (x ∷ xs) = (if member x seen then 0 else suc (cost x)) + unseen seen xs

  pub unseen-le : (v : ℕ) (seen all : List ℕ) → unseen (v ∷ seen) all ≤ unseen seen all
  unseen-le v seen [] = omega arith
  unseen-le v seen (x ∷ xs) = ground (arith, unseen-le v seen xs)

  -- Seeing a member of the list costs at least what it costs.
  pub unseen-visit :
      (v : ℕ) (seen all : List ℕ)
      → member v all ≡ true
      → member v seen ≡ false
      → suc (cost v) + unseen (v ∷ seen) all ≤ unseen seen all
  unseen-visit v seen [] m n = absurd (ground arith)
  unseen-visit v seen (x ∷ xs) m n = elim (Bool-cases (x == v)) [
    | inl e ↦
        let e' : x ≡ v = ==→≡ x v e in
        let new : member x seen ≡ false = cc (e', n) in
        let same : suc (cost v) ≡ suc (cost x) = cc e' in
        ground (arith, unseen-le v seen xs, ==_refl v, new, same, sym e)
    | inr e ↦ ground (arith, unseen-visit v seen xs)
  ]
