-- ===== src/FieldType/Order.antt =====
-- The comparisons of fields of include/seadsa/FieldType.hh and include/seadsa/Graph.hh, as keys of a map.
use sea_dsa.Common.{◌≡◌, true, false, arith, ◌||◌, ◌&&◌, not}
use sea_dsa.Llvm.{Llvm}
use sea_dsa.FieldType.{FieldType, Field, type_eq, type_lt, field_eq, field_lt}

module _ (l : Llvm) where
  pub type_eq_refl : (t : FieldType) → type_eq l t t ≡ true
  unfolding type_eq
  type_eq_refl t = ground arith

  type_lt_irrefl : (t : FieldType) → type_lt l t t ≡ false
  unfolding type_lt
  type_lt_irrefl t = ground arith

  type_lt_trans :
      (s t u : FieldType) → type_lt l s t ≡ true → type_lt l t u ≡ true → type_lt l s u ≡ true
  unfolding type_lt
  type_lt_trans s t u h k = ground arith

  type_lt_tie : (s t : FieldType) → type_eq l s t ≡ not (type_lt l s t || type_lt l t s)
  unfolding type_lt type_eq
  type_lt_tie s t = ground arith

  type_eq_trans :
      (s t u : FieldType) → type_eq l s t ≡ true → type_eq l t u ≡ true → type_eq l s u ≡ true
  unfolding type_eq
  type_eq_trans s t u h k = ground arith

  pub type_eq_sym : (s t : FieldType) → type_eq l s t ≡ type_eq l t s
  unfolding type_eq
  type_eq_sym s t = ground arith

  pub field_eq_refl : (f : Field) → field_eq l f f ≡ true
  unfolding field_eq
  field_eq_refl f = ground (arith, type_eq_refl f.type)

  pub field_eq_sym : (f g : Field) → field_eq l f g ≡ field_eq l g f
  unfolding field_eq
  field_eq_sym f g = ground (arith, type_eq_sym f.type g.type)

  pub field_eq_trans :
      (f g h : Field) → field_eq l f g ≡ true → field_eq l g h ≡ true → field_eq l f h ≡ true
  unfolding field_eq
  field_eq_trans f g h p q = ground (arith, type_eq_trans f.type g.type h.type)

  -- What the order of the keys of a map must satisfy, with `==` for its ties.
  pub record IsStrictOrder (f g h : Field) : Type 0 where
    pub irrefl : field_lt l f f ≡ false
    pub trans : (field_lt l f g && field_lt l g h && not (field_lt l f h)) ≡ false
    pub tie : field_eq l f g ≡ not (field_lt l f g || field_lt l g f)

  -- Fields are strictly ordered by `<`, in the type-aware mode and without it, and two fields are
  -- `==` exactly if neither is below the other.
  pub field_lt_order : (f g h : Field) → IsStrictOrder f g h
  unfolding field_lt field_eq
  field_lt_order f g h = record {
    irrefl = ground (arith, type_lt_irrefl f.type);
    trans = ground (arith, type_lt_trans f.type g.type h.type);
    tie = ground (arith, type_lt_tie f.type g.type);
  }
