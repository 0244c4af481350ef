-- ===== src/Graph/Unify/Decision.antt =====
-- Node::unifyAt of lib/seadsa/Graph.cc: what it decides before it embeds one node in another.
use native.Mathlib.Nat.{mod-mod_of_dvd, dvd_of_mod-eq-zero}
use sea_dsa.Common.{ℕ, ◌%◌, ◌<◌, ◌≤◌, true, false, ◌≡◌, ◌⊎◌, inl, inr, arith, Bool-cases}
use sea_dsa.Common.Words.{add32}
use sea_dsa.NodeType.Laws.{IsConsistent}
use sea_dsa.Graph.{Node}
use sea_dsa.Graph.Offset.{adjust}
use sea_dsa.Graph.Unify.{swap, embed_here, plan}

pub mod_of_multiple : (x m n : ℕ) → m % n ≡ 0 → (x % m) % n ≡ x % n
mod_of_multiple x m n e = mod-mod_of_dvd n x (dvd_of_mod-eq-zero n e)

-- Node `b` may be embedded in node `a` at offset `o`.
pub record Fits (a b : Node) (o : ℕ) : Type 0 where
  -- a collapsed node goes into a collapsed one
  pub collapsed : (b.flags.offset_collapsed ≡ false) ⊎ (a.flags.offset_collapsed ≡ true)
  -- an array goes to the beginning of an array or of a collapsed node, and its offsets stay
  -- consistent: it does not matter whether one is adjusted to it first
  pub array :
      (b.flags.array ≡ false)
      ⊎ ((a.flags.array ≡ true) ⊎ (a.flags.offset_collapsed ≡ true))
        × (adjust a o ≡ 0)
        × ((x : ℕ) → adjust a (adjust b x) ≡ adjust a x)
  -- any other node goes to the beginning of an array, or does not reach beyond it
  pub inside :
      (a.flags.array ≡ false)
      ⊎ (b.flags.array ≡ true)
      ⊎ (adjust a o ≡ 0)
      ⊎ (add32 (adjust a o) b.size ≤ a.size)

module _ (a b : Node) (o : ℕ) (ca : IsConsistent a.flags) (cb : IsConsistent b.flags) where
  -- For nodes with consistent marks, the second one not empty: when the plan is to exchange them,
  -- the plan of the exchanged call at offset 0 is to embed at once.
  pub plan_swap : plan a b o ≡ swap → 0 < b.size → plan b a 0 ≡ embed_here
  unfolding plan
  plan_swap h k = ground arith

  -- For nodes with consistent marks: the plan for a collapsed node is to embed any other at once.
  pub plan_collapsed : a.flags.offset_collapsed ≡ true → plan a b o ≡ embed_here
  unfolding plan
  plan_collapsed h = ground arith

  divides :
      plan a b o ≡ embed_here
      → b.flags.array ≡ true
      → (a.flags.offset_collapsed ≡ true) ⊎ (a.flags.array ≡ true) × (b.size % a.size ≡ 0)
  unfolding plan
  divides h p = ground arith

  adjust-adjust :
      (x : ℕ)
      → b.flags.array ≡ true
      → (a.flags.offset_collapsed ≡ true) ⊎ (a.flags.array ≡ true) × (b.size % a.size ≡ 0)
      → adjust a (adjust b x) ≡ adjust a x
  adjust-adjust x p (inl q) = ground arith
  adjust-adjust x p (inr (q, e)) = ground (arith, mod_of_multiple x b.size a.size e)

  -- For nodes with consistent marks, what the plan is to embed at once fits.
  pub plan-Fits : plan a b o ≡ embed_here → Fits a b o
  unfolding plan
  plan-Fits h = record {
    collapsed = ground arith;
    array = elim (Bool-cases b.flags.array) [
      | inl p ↦ inr (ground arith, ground arith, λ x. adjust-adjust x p (divides h p))
      | inr p ↦ inl p
    ];
    inside = ground arith;
  }
