-- ===== src/Local/Gep.antt =====
-- gcd, computeGepOffset, computeIndexedOffset and visitGep of lib/seadsa/DsaLocal.cc: where an
-- address computation ends in the node of its base.
pub mod Divisor
pub mod Address
pub mod Indexed
use sea_dsa.Common.{
  ℕ, zero, suc, ◌+◌, ◌-◌, ◌*◌, ◌%◌, ◌^◌, ◌<◌, Bool, true, false, not, ◌&&◌, ◌||◌, Option, none,
  some, List, [], ◌∷◌, ◌==◌, ltb, if◌then◌else◌, arith, get_elem?,
}
use mathlib.Core.WellFounded.{Acc, WellFounded}
use sea_dsa.Common.Words.{u32, add32, u64, neg64, is_negative}
use sea_dsa.Llvm.{Llvm, Shape}
use sea_dsa.Graph.{
  Cell, cell, M, pure, skip, fail, assert, ok, ◌>>=◌, ◌>>◌, load, is_null, deref, mk_node,
}
use sea_dsa.Graph.Resolve.{resolve_cell}
use sea_dsa.Graph.Offset.{get_offset}
use sea_dsa.Graph.Unify.{operations}
use sea_dsa.Graph.Table.{mk_cell, has_cell}
use sea_dsa.Local.{Value, ConstantInt, Ir}
use sea_dsa.Local.Values.{is_null_constant, is_pointer_type, is_const_expr}
use sea_dsa.Local.Cells.{answer, set_array_size, cell_at}

pub Acc-below : (k n : ℕ) → n < k → Acc ◌<◌ n
Acc-below zero n h = elim h [ ]
Acc-below (suc k) n h = Acc.intro n (λ m hm. Acc-below k m (omega arith))

pub mod-lt_suc : (a b : ℕ) → a % suc b < suc b
mod-lt_suc a b = omega arith

-- gcd: `c = a % b; a = b; b = c` as long as `b` is not 0, which ends as `b` gets smaller
pub gcd_loop : (a b : ℕ) → Acc ◌<◌ b → ℕ
gcd_loop a zero w = a
gcd_loop a (suc b) (Acc.intro _ smaller) =
    gcd_loop (suc b) (a % suc b) (smaller (a % suc b) (mod-lt_suc a b))

unfoldable pub gcd : ℕ → ℕ → ℕ
unfolding gcd_loop Acc-below
gcd a b = gcd_loop a b (Acc-below (suc b) b (omega arith))

module _ (l : Llvm) where
  -- The type of the elements of a pointer, an array or a vector; any other type stays as it is.
  unfoldable pub element_type : ℕ → ℕ
  element_type t = elim (l.shape t) [
    | Shape.pointer e s ↦ e
    | Shape.array len e ↦ e
    | Shape.vector len e ↦ e
    | _ ↦ t
  ]

  -- Type::getStructElementType; `none` is no struct, or no such field
  unfoldable pub field_type_at : ℕ → ℕ → Option ℕ
  field_type_at t i = elim (l.shape t) [ Shape.struct es ↦ get_elem? es i | _ ↦ none ]

  unfoldable pub is_struct : ℕ → Bool
  is_struct t = elim (l.shape t) [ Shape.struct es ↦ true | _ ↦ false ]

  module _ (constant_int : ℕ → Option ConstantInt) where
    -- The loop of computeGepOffset from the type `t`, with the numeric offset and the divisor. The
    -- struct that the type iterator is at is `t` itself. `none` is an index into a struct that is
    -- no constant or no field.
    unfoldable pub gep_loop : (t noffset divisor : ℕ) → List ℕ → Option (ℕ × ℕ)
    unfolding gcd element_type field_type_at is_struct
    gep_loop t noffset divisor [] = some (noffset, divisor)
    gep_loop t noffset divisor (i ∷ is) = elim (is_struct t) [
      | true ↦ elim (constant_int i) [
        | none ↦ none
        | some c ↦ elim (field_type_at t (u32 c.zext)) [
          | none ↦ none
          | some e ↦ gep_loop e (u64 (noffset + l.element_offset t (u32 c.zext))) divisor is
        ]
      ]
      | false ↦ elim (constant_int i) [
        | some c ↦
            gep_loop (element_type t) (u64 (noffset + c.sext * l.store_size (element_type t)))
              divisor is
        | none ↦
            gep_loop (element_type t) noffset
              (if divisor == 0
                then l.store_size (element_type t)
                else gcd divisor (l.store_size (element_type t)))
              is
      ]
    ]

    -- computeGepOffset: the fixed offset as a 64-bit word, and the divisor of what varies. A type
    -- that is no pointer fails the assertion.
    unfoldable pub compute_gep_offset : ℕ → List ℕ → Option (ℕ × ℕ)
    unfolding gep_loop is_pointer_type
    compute_gep_offset t is = if is_pointer_type l t then gep_loop t 0 0 is else none

  -- computeIndexedOffset
  unfoldable pub indexed_loop : (t offset : ℕ) → List ℕ → Option ℕ
  unfolding element_type field_type_at is_struct
  indexed_loop t offset [] = some offset
  indexed_loop t offset (i ∷ is) = elim (is_struct t) [
    | true ↦ elim (field_type_at t i) [
      | none ↦ none
      | some e ↦ indexed_loop e (u64 (offset + l.element_offset t i)) is
    ]
    | false ↦ indexed_loop (element_type t) (u64 (offset + i * l.alloc_size (element_type t))) is
  ]

  unfoldable pub compute_indexed_offset : ℕ → List ℕ → Option ℕ
  unfolding indexed_loop
  compute_indexed_offset t is = indexed_loop t 0 is

  module _ (ir : Ir) (fuel : ℕ) where
    -- Whether an operand is a load from null or a gep from null.
    from_null : ℕ → Option Bool
    unfolding is_null_constant
    from_null v = elim (ir.value v) [
      | Value.load p ↦ is_null_constant l ir fuel p
      | Value.gep p is ↦ is_null_constant l ir fuel p
      | _ ↦ some false
    ]

    -- The end of visitGep for a negative offset, a 64-bit word.
    negative_gep : (gep : ℕ) → Cell → (node offset : ℕ) → M (Unit {0})
    unfolding get_offset mk_node mk_cell operations
    negative_gep gep base n off = do
      o ← get_offset base
      let sum = u64 (o + off)
      if not (is_negative sum) then (do mk_cell l gep (cell n (u32 sum)); skip) else do
        m ← mk_node l
        mk_cell l gep (cell m 0)
        (operations l fuel).unify_at m n (u32 (neg64 sum))

    -- The end of visitGep for any other offset: with a divisor the base is unified with an array.
    positive_gep : (gep : ℕ) → Cell → (node offset divisor : ℕ) → M (Unit {0})
    unfolding mk_node mk_cell operations set_array_size
    positive_gep gep base n off d =
        if d == 0 then (do mk_cell l gep (cell_at base (u32 off)); skip) else do
          m ← mk_node l
          set_array_size m (u32 d)
          mk_cell l gep (cell m (u32 (off + base.offset)))
          (operations l fuel).unify_at m n 0

    -- visitGep, with valueCell as an argument
    unfoldable pub visit_gep : (ℕ → M Cell) → (gep ptr : ℕ) → List ℕ → M (Unit {0})
    unfolding is_null_constant answer from_null has_cell is_const_expr mk_cell compute_gep_offset
        resolve_cell deref negative_gep positive_gep
    visit_gep value_cell gep ptr is = do
      null ← answer (is_null_constant l ir fuel ptr)
      through_null ← answer (from_null ptr)
      if null || through_null || (l.strip gep == ptr) then skip else λ g.
          if has_cell l g gep
          then assert (not (l.strip gep == gep) || is_const_expr l ir gep) g
          else (do
            c ← value_cell ptr
            assert (not (is_null c))
            λ h. assert (not (has_cell l h gep)) h
            base ← resolve_cell c
            n ← deref base
            nd ← load n
            if nd.flags.offset_collapsed
                then (do mk_cell l gep (cell n 0); skip)
                else elim (compute_gep_offset ir.constant_int (ir.type_of ptr) is) [
                  | none ↦ fail
                  | some (off, d) ↦
                      if is_negative off
                      then negative_gep gep base n off
                      else positive_gep gep base n off d
                ])
              g
