-- ===== src/FieldType.antt =====
-- include/seadsa/FieldType.hh, lib/seadsa/FieldType.cc and the class Field of
-- include/seadsa/Graph.hh: types of fields, their comparison, and the keys of the links.
pub mod Order
use sea_dsa.Common.{
  ℕ, Bool, true, false, not, ◌&&◌, ◌||◌, Option, none, some, List, [], ◌∷◌, ltb, ◌==◌,
  if◌then◌else◌, is_some,
}
use sea_dsa.Common.Words.{add32, sub32}
use sea_dsa.Llvm.{Llvm}

-- `ty` is a null pointer in the unknown type, and in the omni type that `mkOmniType` makes. The
-- text `m_whereNotImpl` is read by the printer only.
pub record FieldType : Type 0 where
  pub ty : Option ℕ
  pub is_omni : Bool
  pub not_implemented : Bool

abbrev pub mk_unknown : FieldType
mk_unknown = record { ty = none; is_omni = false; not_implemented = false }

abbrev pub mk_not_implemented : FieldType
mk_not_implemented = record { ty = none; is_omni = false; not_implemented = true }

abbrev pub mk_omni_type : FieldType
mk_omni_type = record { ty = none; is_omni = true; not_implemented = false }

unfoldable pub is_unknown : FieldType → Bool
is_unknown t = not t.is_omni && not (is_some t.ty)

-- Addresses, null below all others.
unfoldable pub addr_lt : Option ℕ → Option ℕ → Bool
addr_lt none none = false
addr_lt none (some b) = true
addr_lt (some a) none = false
addr_lt (some a) (some b) = ltb a b

unfoldable pub addr_eq : Option ℕ → Option ℕ → Bool
addr_eq none none = true
addr_eq none (some b) = false
addr_eq (some a) none = false
addr_eq (some a) (some b) = a == b

unfoldable pub bool_lt : Bool → Bool → Bool
bool_lt a b = not a && b

unfoldable pub bool_eq : Bool → Bool → Bool
bool_eq true b = b
bool_eq false b = not b

-- std::tuple's order and equality on (m_ty, m_NOT_IMPLEMENTED)
unfoldable pub tuple_lt : FieldType → FieldType → Bool
unfolding addr_lt bool_lt
tuple_lt s t =
    addr_lt s.ty t.ty || (not (addr_lt t.ty s.ty) && bool_lt s.not_implemented t.not_implemented)

unfoldable pub tuple_eq : FieldType → FieldType → Bool
unfolding addr_eq bool_eq
tuple_eq s t = addr_eq s.ty t.ty && bool_eq s.not_implemented t.not_implemented

module _ (l : Llvm) where
  -- operator==. The test for one and the same object is left out: `type_eq_refl` shows that the
  -- other tests give the same answer for it.
  unfoldable pub type_eq : FieldType → FieldType → Bool
  unfolding is_unknown bool_eq tuple_eq
  type_eq s t =
      if not l.type_aware
      then true
      else if is_unknown s || is_unknown t
      then bool_eq (is_unknown s) (is_unknown t)
      else if s.is_omni || t.is_omni
      then bool_eq s.is_omni t.is_omni
      else tuple_eq s t

  -- operator<
  unfoldable pub type_lt : FieldType → FieldType → Bool
  unfolding is_unknown bool_lt tuple_lt
  type_lt s t =
      if not l.type_aware
      then false
      else if is_unknown s || is_unknown t
      then bool_lt (is_unknown s) (is_unknown t)
      else if s.is_omni || t.is_omni
      then bool_lt s.is_omni t.is_omni
      else tuple_lt s t

pub record Field : Type 0 where
  pub offset : ℕ
  pub type : FieldType

unfoldable pub mk_field : ℕ → FieldType → Field
mk_field o t = record { offset = o; type = t }

unfoldable pub add_offset : Field → ℕ → Field
add_offset f o = record f { offset = add32 f.offset o }

unfoldable pub sub_offset : Field → ℕ → Field
sub_offset f o = record f { offset = sub32 f.offset o }

unfoldable pub mk_omni_field : Field → Field
mk_omni_field f = record { offset = f.offset; type = mk_omni_type }

module _ (l : Llvm) where
  -- operator< and operator== of Field, those of the pair (m_offset, m_type)
  unfoldable pub field_lt : Field → Field → Bool
  field_lt f g = ltb f.offset g.offset || (not (ltb g.offset f.offset) && type_lt l f.type g.type)

  unfoldable pub field_eq : Field → Field → Bool
  field_eq f g = (f.offset == g.offset) && type_eq l f.type g.type
