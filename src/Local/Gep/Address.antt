-- ===== src/Local/Gep/Address.antt =====
-- computeGepOffset of lib/seadsa/DsaLocal.cc against what the instruction means: the number of bytes
-- that it adds to an address, by LLVM's rules, where an element takes the place of its allocation.
use native.Mathlib.Nat.{mul_assoc, add-mul}
use sea_dsa.Common.{
  ℕ, ◌+◌, ◌*◌, ◌%◌, ◌^◌, ◌≡◌, true, false, Option, none, some, List, [], ◌∷◌, ◌==◌, if◌then◌else◌,
  arith, inl, inr, Bool-cases, Option-cases, ==→≡,
}
use sea_dsa.Common.Words.{u32, u64}
use sea_dsa.Llvm.{Llvm}
use sea_dsa.Local.{ConstantInt}
use sea_dsa.Local.Values.{is_pointer_type}
use sea_dsa.Local.Gep.{gcd, element_type, field_type_at, is_struct, gep_loop, compute_gep_offset}
use sea_dsa.Local.Gep.Divisor.{Divides, gcd-Divides}

module _ (l : Llvm) (constant_int : ℕ → Option ConstantInt) where
  -- The value of an index as a 64-bit word; `env` gives those that are no constants.
  index_value : (env : ℕ → ℕ) → ℕ → ℕ
  index_value env i = elim (constant_int i) [ none ↦ env i | some c ↦ c.sext ]

  -- The bytes that the indices add to an address, modulo 2 ^ 64. An index that LLVM refuses adds
  -- nothing.
  unfoldable pub address_delta : (env : ℕ → ℕ) → (t : ℕ) → List ℕ → ℕ
  unfolding index_value
  address_delta env t [] = 0
  address_delta env t (i ∷ is) = elim (is_struct l t) [
    | true ↦ elim (constant_int i) [
      | none ↦ 0
      | some c ↦ elim (field_type_at l t (u32 c.zext)) [
        | none ↦ 0
        | some e ↦ l.element_offset t (u32 c.zext) + address_delta env e is
      ]
    ]
    | false ↦
        index_value env i * l.alloc_size (element_type l t)
        + address_delta env (element_type l t) is
  ]

-- The divisor after an index that varies, and the size of the elements, as multiples of it.
next_divisor : ℕ → ℕ → ℕ
unfolding gcd
next_divisor d sz = if d == 0 then sz else gcd d sz

next_divisor-Divides : (d sz : ℕ) → Divides (next_divisor d sz) d × Divides (next_divisor d sz) sz
unfolding next_divisor
next_divisor-Divides d sz =
    let (p, q, _) = gcd-Divides d sz in
    elim (Bool-cases (d == 0)) [
      | inl e ↦ let e' : d ≡ 0 = ==→≡ d 0 e in ((0, ground arith), (1, ground arith))
      | inr e ↦ ((p.0, ground arith), (q.0, ground arith))
    ]

-- A multiple of two numbers is one of a number that divides both.
common_multiple :
    (d sz d' x v a b : ℕ) → d ≡ a * d' → sz ≡ b * d' → x * d + v * sz ≡ (x * a + v * b) * d'
common_multiple d sz d' x v a b p q =
    grind (arith, mul_assoc x a d', mul_assoc v b d', add-mul (x * a) (v * b) d')

abbrev Reaches : (w noffset divisor : ℕ) → Type 0
Reaches w o d = (k : ℕ) × (w % 2 ^ 64 ≡ (o + k * d) % 2 ^ 64)

module _ (l : Llvm) (constant_int : ℕ → Option ConstantInt) (env : ℕ → ℕ) where
  gep_loop-address_delta :
      ((t : ℕ) → l.store_size t ≡ l.alloc_size t)
      → (is : List ℕ) (t o d o' d' w : ℕ) → gep_loop l constant_int t o d is ≡ some (o', d')
      → Reaches w o d
      → Reaches (w + address_delta l constant_int env t is) o' d'
  unfolding gep_loop address_delta index_value next_divisor
  gep_loop-address_delta sizes [] t o d o' d' w h (x, r) = (x, ground arith)
  gep_loop-address_delta sizes (i ∷ is) t o d o' d' w h (x, r) = elim (Bool-cases (is_struct l t)) [
    | inl s ↦ elim (Option-cases (constant_int i)) [
      | inl e0 ↦ absurd (ground arith)
      | inr (c, ec) ↦ elim (Option-cases (field_type_at l t (u32 c.zext))) [
        | inl e0 ↦ absurd (ground arith)
        | inr (e, ee) ↦
            let at = l.element_offset t (u32 c.zext) in
            let h' : gep_loop l constant_int e (u64 (o + at)) d is ≡ some (o', d') = ground arith in
            let (k, q) =
              gep_loop-address_delta sizes is e (u64 (o + at)) d o' d' (w + at) h'
                (x, omega arith) in
            (k, ground arith)
      ]
    ]
    | inr s ↦
        let e = element_type l t in
        let sz = l.store_size e in
        elim (Option-cases (constant_int i)) [
          | inl e0 ↦
              let d2 = next_divisor d sz in
              let h' : gep_loop l constant_int e o d2 is ≡ some (o', d') = ground arith in
              let ((a, p), (b, q)) = next_divisor-Divides d sz in
              let m = common_multiple d sz d2 x (env i) a b p q in
              let (k, q) =
                gep_loop-address_delta sizes is e o d2 o' d' (w + env i * sz) h'
                  (x * a + env i * b, omega (arith, m, r)) in
              (k, ground (arith, sizes e))
          | inr (c, ec) ↦
              let at = c.sext * sz in
              let h' : gep_loop l constant_int e (u64 (o + at)) d is ≡ some (o', d') =
                ground arith in
              let (k, q) =
                gep_loop-address_delta sizes is e (u64 (o + at)) d o' d' (w + at) h'
                  (x, omega arith) in
              (k, ground (arith, sizes e))
        ]
  ]

  -- Where a type takes as much room in an array as it takes to store, the bytes that a gep adds to
  -- an address, whatever its variable indices are, are the fixed offset of computeGepOffset and a
  -- multiple of its divisor, modulo 2 ^ 64.
  pub compute_gep_offset-address_delta :
      ((t : ℕ) → l.store_size t ≡ l.alloc_size t)
      → (t : ℕ) (is : List ℕ) (o d : ℕ) → compute_gep_offset l constant_int t is ≡ some (o, d)
      → (k : ℕ) × (address_delta l constant_int env t is % 2 ^ 64 ≡ (o + k * d) % 2 ^ 64)
  unfolding compute_gep_offset
  compute_gep_offset-address_delta sizes t is o d h =
      let ran : gep_loop l constant_int t 0 0 is ≡ some (o, d) =
        elim (Bool-cases (is_pointer_type l t)) [
          | inl p ↦ ground arith
          | inr p ↦ absurd (ground arith)
        ] in
      let (k, q) = gep_loop-address_delta sizes is t 0 0 o d 0 ran (0, omega arith) in
      (k, omega arith)
