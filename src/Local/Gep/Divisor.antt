-- ===== src/Local/Gep/Divisor.antt =====
-- gcd of lib/seadsa/DsaLocal.cc, in terms of the numbers that divide its arguments.
use native.Mathlib.Nat.{div-add-mod', mul_assoc, add-mul, mul-sub, mul_comm}
use mathlib.Core.WellFounded.{Acc}
use sea_dsa.Common.{ℕ, zero, suc, ◌+◌, ◌-◌, ◌*◌, ◌/◌, ◌%◌, ◌<◌, ◌≡◌, arith}
use sea_dsa.Local.Gep.{gcd_loop, gcd, Acc-below, mod-lt_suc}

abbrev pub Divides : ℕ → ℕ → Type 0
Divides d n = (k : ℕ) × (n ≡ k * d)

quotient_multiple :
    (a s q r d x y : ℕ) → q * s + r ≡ a → s ≡ x * d → r ≡ y * d → a ≡ (q * x + y) * d
quotient_multiple a s q r d x y e es er = grind (arith, mul_assoc q x d, add-mul (q * x) y d)

remainder_multiple :
    (a s q r e x y : ℕ) → q * s + r ≡ a → a ≡ x * e → s ≡ y * e → r ≡ (x - q * y) * e
remainder_multiple a s q r e x y h ea es = grind (
  arith,
  mul_assoc q y e,
  mul-sub e x (q * y),
  mul_comm e x,
  mul_comm e (q * y),
  mul_comm e (x - q * y),
)

gcd_loop-Divides :
    (a b : ℕ) (w : Acc ◌<◌ b) → Divides (gcd_loop a b w) a × Divides (gcd_loop a b w) b
unfolding gcd_loop
gcd_loop-Divides a zero w = ((1, omega arith), (0, omega arith))
gcd_loop-Divides a (suc b) (Acc.intro _ smaller) =
    let r = a % suc b in
    let ((x, p), (y, q)) = gcd_loop-Divides (suc b) r (smaller r (mod-lt_suc a b)) in
    (
      (
        a / suc b * x + y,
        quotient_multiple a (suc b) (a / suc b) r _ x y (div-add-mod' a (suc b)) p q,
      ),
      (x, p),
    )

gcd_loop_greatest :
    (e a b : ℕ) (w : Acc ◌<◌ b) → Divides e a → Divides e b → Divides e (gcd_loop a b w)
unfolding gcd_loop
gcd_loop_greatest e a zero w da db = da
gcd_loop_greatest e a (suc b) (Acc.intro _ smaller) (x, p) (y, q) =
    let r = a % suc b in
    gcd_loop_greatest e (suc b) r (smaller r (mod-lt_suc a b)) (y, q)
      (
        x - a / suc b * y,
        remainder_multiple a (suc b) (a / suc b) r e x y (div-add-mod' a (suc b)) p q,
      )

-- The result of gcd divides both of its arguments, and each number that divides both of them
-- divides the result.
pub gcd-Divides :
    (a b : ℕ)
    → Divides (gcd a b) a
      × Divides (gcd a b) b
      × ((e : ℕ) → Divides e a → Divides e b → Divides e (gcd a b))
unfolding gcd
gcd-Divides a b =
    let w = Acc-below (suc b) b (omega arith) in
    let (p, q) = gcd_loop-Divides a b w in (p, q, (λ e da db. gcd_loop_greatest e a b w da db))
