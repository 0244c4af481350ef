-- ===== src/AllocWrap/Flow.antt =====
-- What AllocWrapInfo::flowsFrom of lib/seadsa/AllocWrapInfo.cc decides, and when it ends.
use sea_dsa.Common.{ℕ, Bool, true, false, Option, some, List, [], ◌∷◌, ◌≡◌, ◌↔◌, member}
use sea_dsa.AllocWrap.{Inst, ret, phi, bitcast, null, Module}

-- The values that an instruction may hand on.
abbrev pub sources : Inst → List ℕ
sources (ret v) = v ∷ []
sources (phi header vs) = vs
sources (bitcast v) = v ∷ []
sources _ = []

module _ (m : Module) (src : ℕ) where
  -- Every path back from the value through returns, casts and the phi nodes that are in no loop
  -- header ends at `src` or at a null pointer.
  pub data Flows : ℕ → Type 0 where
    itself : Flows src
    nothing : {v : ℕ} → m.inst v ≡ null → Flows v
    returned : {v : ℕ} (u : ℕ) → m.inst v ≡ ret u → Flows u → Flows v
    cast : {v : ℕ} (u : ℕ) → m.inst v ≡ bitcast u → Flows u → Flows v
    joined :
        {v : ℕ} (vs : List ℕ)
        → m.has_loops ≡ true
        → m.inst v ≡ phi false vs
        → ((u : ℕ) → member u vs ≡ true → Flows u)
        → Flows v

  abbrev AllFlow : List ℕ → Type 0
  AllFlow vs = (u : ℕ) → member u vs ≡ true → Flows u

  abbrev Answers : Option Bool → Type 0 → Type 0
  Answers r P = (b : Bool) × (r ≡ some b) × ((b ≡ true) ↔ P)

  -- One step back from a value other than the source.
  abbrev Step : ℕ → Inst → Type 0
  Step v (ret u) = Flows u
  Step v (bitcast u) = Flows u
  Step v (phi header vs) = (m.has_loops ≡ true) × (header ≡ false) × AllFlow vs
  Step v null = Unit
  Step v _ = ⊥
