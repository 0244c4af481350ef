-- ===== src/Mapper/Embedding.antt =====
-- SimulationMapper::insert of lib/seadsa/Mapper.cc: the conditions on the sizes and marks of two nodes.
use native.Mathlib.Nat.{mod-mod, mod-le, mod-eq_of_lt}
use sea_dsa.Common.{ℕ, ◌+◌, ◌%◌, ◌^◌, ◌<◌, ◌≤◌, true, false, ◌≡◌, ◌⊎◌, inl, inr, arith, Bool-cases}
use sea_dsa.Common.Words.{add32}
use sea_dsa.NodeType.Laws.{IsConsistent}
use sea_dsa.Graph.{Node}
use sea_dsa.Graph.Offset.{adjust}
use sea_dsa.Graph.Unify.Decision.{Fits, mod_of_multiple}
use sea_dsa.Mapper.{embeds}

add32_small : (x y : ℕ) → x + y < 2 ^ 32 → add32 x y ≡ x + y
add32_small x y h = mod-eq_of_lt h

module _ (a b : Node) (o : ℕ) (ca : IsConsistent a.flags) (cb : IsConsistent b.flags) where
  divides :
      embeds a b o ≡ true
      → a.flags.array ≡ true
      → (b.flags.offset_collapsed ≡ true)
        ⊎ (b.flags.array ≡ true) × ((a.size ≡ b.size) ⊎ (a.size % b.size ≡ 0))
  unfolding embeds
  divides h p = ground arith

  adjust-adjust :
      (x : ℕ)
      → a.flags.array ≡ true
      → (b.flags.offset_collapsed ≡ true)
        ⊎ (b.flags.array ≡ true) × ((a.size ≡ b.size) ⊎ (a.size % b.size ≡ 0))
      → adjust b (adjust a x) ≡ adjust b x
  adjust-adjust x p (inl q) = ground arith
  adjust-adjust x p (inr (q, inr e)) = ground (arith, mod_of_multiple x a.size b.size e)
  adjust-adjust x p (inr (q, inl e)) = ground (arith, mod-mod x b.size)

  inside_lem :
      a.size + o < 2 ^ 32
      → embeds a b o ≡ true
      → (b.flags.array ≡ false)
        ⊎ (a.flags.array ≡ true)
        ⊎ (adjust b o ≡ 0)
        ⊎ (add32 (adjust b o) a.size ≤ b.size)
  unfolding embeds
  inside_lem small h =
      let down : adjust b o ≤ o = ground (arith, mod-le o b.size) in
      let sum : add32 a.size o ≡ a.size + o = add32_small a.size o small in
      let sum' : add32 (adjust b o) a.size ≡ adjust b o + a.size =
        add32_small (adjust b o) a.size (omega arith) in
      ground arith

  -- For nodes with consistent marks whose size and offset do not wrap around: where a simulation may
  -- take node `b` at offset `o` for node `a`, node `a` fits into `b` there, in the sense of unifyAt.
  pub embeds-Fits : a.size + o < 2 ^ 32 → embeds a b o ≡ true → Fits b a o
  unfolding embeds
  embeds-Fits small h = record {
    collapsed = ground arith;
    array = elim (Bool-cases a.flags.array) [
      | inl p ↦ inr (ground arith, ground arith, λ x. adjust-adjust x p (divides h p))
      | inr p ↦ inl p
    ];
    inside = inside_lem small h;
  }
