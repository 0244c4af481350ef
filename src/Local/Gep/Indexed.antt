-- ===== src/Local/Gep/Indexed.antt =====
-- computeIndexedOffset of lib/seadsa/DsaLocal.cc, which extractvalue and insertvalue use, against
-- computeGepOffset on the same indices as constants.
use sea_dsa.Common.{
  ℕ, ◌+◌, ◌*◌, ◌^◌, ◌≡◌, refl, true, Option, none, some, List, [], ◌∷◌, arith, inl, inr, Bool-cases,
  Option-cases, all_of, ltb, ltb→lt,
}
use sea_dsa.Common.Words.{u32, u64}
use sea_dsa.Llvm.{Llvm, Shape}
use sea_dsa.Local.Values.{is_pointer_type}
use sea_dsa.Local.{ConstantInt}
use sea_dsa.Local.Gep.{
  element_type, field_type_at, is_struct, gep_loop, compute_gep_offset, indexed_loop,
  compute_indexed_offset,
}

-- A number as a constant of itself.
abbrev pub literal : ℕ → Option ConstantInt
literal i = some (record { zext = i; sext = i })

abbrev pub fixed : Option ℕ → Option (ℕ × ℕ)
fixed none = none
fixed (some o) = some (o, 0)

module _ (l : Llvm) where
  gep_loop-indexed_loop :
      ((t : ℕ) → l.store_size t ≡ l.alloc_size t)
      → (is : List ℕ) (t o : ℕ) → all_of (λ i. ltb i (2 ^ 32)) is ≡ true
      → gep_loop l literal t o 0 is ≡ fixed (indexed_loop l t o is)
  unfolding gep_loop indexed_loop
  gep_loop-indexed_loop sizes [] t o small = refl
  gep_loop-indexed_loop sizes (i ∷ is) t o small =
      let here : ltb i (2 ^ 32) ≡ true = ground arith in
      let rest : all_of (λ j. ltb j (2 ^ 32)) is ≡ true = ground arith in
      let below : u32 i ≡ i = omega (arith, ltb→lt i (2 ^ 32) here) in
      let et = element_type l t in
      elim (Bool-cases (is_struct l t)) [
        | inl s ↦ elim (Option-cases (field_type_at l t i)) [
          | inl e0 ↦ ground (arith, below)
          | inr (e, ee) ↦
              ground (
                arith,
                below,
                gep_loop-indexed_loop sizes is e (u64 (o + l.element_offset t i)) rest,
              )
        ]
        | inr s ↦ ground (
          arith,
          sizes et,
          gep_loop-indexed_loop sizes is et (u64 (o + i * l.alloc_size et)) rest,
        )
      ]

  first_index :
      (p t space : ℕ) (is : List ℕ)
      → l.shape p ≡ Shape.pointer t space
      → gep_loop l literal p 0 0 (0 ∷ is) ≡ gep_loop l literal t 0 0 is
  unfolding gep_loop element_type is_struct
  first_index p t space is e =
      let offset : u64 (0 + 0 * l.store_size t) ≡ 0 = omega arith in ground (arith, offset)

  -- Where a type takes as much room in an array as it takes to store, computeIndexedOffset answers
  -- for a type and a list of 32-bit indices what computeGepOffset answers for a pointer to the type,
  -- the index 0 and then the same indices, all as constants, with no divisor, and fails where that
  -- fails.
  pub compute_gep_offset-compute_indexed_offset :
      ((t : ℕ) → l.store_size t ≡ l.alloc_size t)
      → (p t space : ℕ) (is : List ℕ) → l.shape p ≡ Shape.pointer t space
      → all_of (λ i. ltb i (2 ^ 32)) is ≡ true
      → compute_gep_offset l literal p (0 ∷ is) ≡ fixed (compute_indexed_offset l t is)
  unfolding compute_gep_offset compute_indexed_offset is_pointer_type
  compute_gep_offset-compute_indexed_offset sizes p t space is e small =
      let pointer : is_pointer_type l p ≡ true = ground arith in
      ground (arith, pointer, first_index p t space is e, gep_loop-indexed_loop sizes is t 0 small)
