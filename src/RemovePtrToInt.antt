-- ===== src/RemovePtrToInt.antt =====
-- PointerPromoter of lib/seadsa/RemovePtrToInt.cc, which makes pointer expressions of the integer
-- expressions that inttoptr instructions turn into pointers.
pub mod Values
pub mod Ends
use sea_dsa.Common.{
  ℕ, zero, suc, Bool, true, false, not, Option, none, some, List, [], ◌∷◌, ◌==◌, member, set_insert,
  if◌then◌else◌,
}

-- An integer instruction; a constant or an argument is none.
pub data Inst : Type 0 where
  ptr_to_int : (pointer : ℕ) → Inst
  phi : (incoming : List ℕ) → Inst
  add : (left right : ℕ) → Inst
  sub : (left right : ℕ) → Inst
  load : (pointer : ℕ) → Inst
  other : Inst
  none_at_all : Inst

-- A user of a value: a store of it, a store of something else to it, an inttoptr, or another one.
pub data User : Type 0 where
  store_of : (store : ℕ) → User
  store_to : User
  int_to_ptr : User
  other : User

-- What is read of LLVM, for 64-bit pointers: instructions, users, integer constants, types, and how
-- many bits a value has.
pub record Code : Type 0 where
  pub inst : ℕ → Inst
  pub users : ℕ → List User
  pub constant : ℕ → Option ℕ
  pub type : ℕ → ℕ
  pub width : ℕ → ℕ

-- The new pointer expressions: `phi` and `load` name the instruction that they stand for.
mutual
  pub data Promoted : Type 0 where
    pointer : ℕ → Promoted
    cast : Promoted → Promoted
    phi : (instead_of : ℕ) → Incoming → Promoted
    gep : Promoted → (index : ℕ) → Promoted
    gep_back : Promoted → (width bytes : ℕ) → Promoted
    load : (instead_of : ℕ) → Promoted

  pub data Incoming : Type 0 where
    end : Incoming
    also : Promoted → Incoming → Incoming

-- m_toRemove, the keys of m_toReplace, m_visited, and the stores that are made again with the loaded
-- pointer
pub record Work : Type 0 where
  pub to_remove : List ℕ
  pub to_replace : List ℕ
  pub visited : List ℕ
  pub stored_again : List (ℕ × ℕ)

abbrev pub remove : ℕ → Work → Work
remove v w = record w { to_remove = set_insert v w.to_remove }

-- The users of a load that is promoted.
unfoldable pub visit_users : (load : ℕ) → List User → Work → Work
visit_users v [] w = w
visit_users v (store_of s ∷ us) w =
    visit_users v us (remove s (record w { stored_again = (s, v) ∷ w.stored_again }))
visit_users v (store_to ∷ us) w = visit_users v us w
visit_users v (int_to_ptr ∷ us) w = visit_users v us w
visit_users v (other ∷ us) w =
    visit_users v us (record w { to_replace = set_insert v w.to_replace })

-- The pointer arithmetic of visitSub, for a constant `n` of `width` bits.
unfoldable pub step_back : (width n : ℕ) → Promoted → Promoted
step_back width n p = if n == 0 then p else cast (gep_back (cast p) width n)

module _ (c : Code) where
  -- isa<Instruction>
  unfoldable pub is_instruction : ℕ → Bool
  is_instruction v = elim (c.inst v) [ none_at_all ↦ false | _ ↦ true ]

  -- The loop of visitPHINode over the incoming values, which `rec` visits.
  unfoldable pub visit_incoming :
      (ℕ → Work → Option (Option Promoted × Work)) → List ℕ → Work → Option (Option Incoming × Work)
  unfolding is_instruction
  visit_incoming rec [] w = some (some end, w)
  visit_incoming rec (v ∷ vs) w = elim (is_instruction v) [
    | false ↦ some (none, w)
    | true ↦ elim (rec v w) [
      | none ↦ none
      | some (none, w1) ↦ some (none, w1)
      | some (some p, w1) ↦ elim (visit_incoming rec vs w1) [
        | none ↦ none
        | some (none, w2) ↦ some (none, w2)
        | some (some ps, w2) ↦ some (some (also p ps), w2)
      ]
    ]
  ]

  -- The left operand of an addition or a subtraction.
  unfoldable pub visit_left :
      (ℕ → Work → Option (Option Promoted × Work))
      → (v left : ℕ) → (Promoted → Promoted)
      → Work
      → Option (Option Promoted × Work)
  unfolding is_instruction
  visit_left rec v a make w = elim (is_instruction a) [
    | false ↦ some (none, w)
    | true ↦ elim (rec a w) [
      | none ↦ none
      | some (none, w1) ↦ some (none, w1)
      | some (some p, w1) ↦ some (some (make p), remove v w1)
    ]
  ]

  -- The visitor, with the type m_ty; `none` is out of fuel, and `some (none, w)` a null pointer.
  unfoldable pub visit : (ty : ℕ) → ℕ → ℕ → Work → Option (Option Promoted × Work)
  unfolding visit_incoming visit_left visit_users step_back
  visit ty zero v w = none
  visit ty (suc k) v w = elim (c.inst v) [
    | ptr_to_int p ↦
        some (some (if c.type p == ty then pointer p else cast (pointer p)), remove v w)
    | phi vs ↦ elim (member v w.visited) [
      | true ↦ some (none, w)
      | false ↦ elim (visit_incoming (visit ty k) vs (record w { visited = v ∷ w.visited })) [
        | none ↦ none
        | some (none, w1) ↦ some (none, w1)
        | some (some ps, w1) ↦ some (some (phi v ps), remove v w1)
      ]
    ]
    | add a b ↦ visit_left (visit ty k) v a (λ p. cast (gep (cast p) b)) w
    | sub a b ↦ elim (c.constant b) [
      | none ↦ some (none, w)
      | some n ↦ visit_left (visit ty k) v a (step_back (c.width b) n) w
    ]
    | load p ↦ some (some (load v), visit_users v (c.users v) w)
    | other ↦ some (none, w)
    | none_at_all ↦ some (none, w)
  ]

  -- visitIntToPtrInst: what all uses of the instruction are replaced by, if anything
  unfoldable pub visit_int_to_ptr : ℕ → (i operand : ℕ) → Work → Option (Option Promoted × Work)
  unfolding is_instruction visit
  visit_int_to_ptr fuel i v w = elim (is_instruction v) [
    | false ↦ some (none, w)
    | true ↦ elim (visit (c.type i) fuel v w) [
      | none ↦ none
      | some (none, w1) ↦ some (none, w1)
      | some (some p, w1) ↦ some (some p, remove i w1)
    ]
  ]
