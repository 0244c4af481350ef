-- ===== src/TypeUtils.antt =====
-- class AggregateIterator of lib/seadsa/TypeUtils.cc, and GetFirstPrimitiveTy, IsOmnipotentChar and
-- IsOmnipotentPtr of lib/seadsa/FieldType.cc.
use sea_dsa.Common.{
  ℕ, zero, suc, Bool, false, not, ◌&&◌, ◌||◌, Option, none, some, List, [], ◌∷◌, ◌++◌, lookup, ◌==◌,
  if◌then◌else◌, is_some, member, replicate,
}
use sea_dsa.Common.Words.{add32, u32}
use sea_dsa.Llvm.{Llvm, Shape}
use sea_dsa.FieldType.{FieldType}

-- SubTypeDesc; `none` is the null type, at the end of the walk
pub record SubTypeDesc : Type 0 where
  pub ty : Option ℕ
  pub bytes : ℕ
  pub offset : ℕ

-- The head of the worklist is its back.
pub record AggregateIterator : Type 0 where
  pub worklist : List ℕ
  pub current : SubTypeDesc

-- s_cachedInnermostTypes, which lives on between calls, and the set of the types seen.
pub record Memo : Type 0 where
  pub cache : List (ℕ × ℕ)
  pub seen : List ℕ

-- insert into the cache, which keeps an entry that is there
unfoldable pub remember : ℕ → ℕ → Memo → Memo
remember t r m =
    if is_some (lookup t m.cache) then m else record m { cache = m.cache ++ (t, r) ∷ [] }

-- What the loop of GetInnermostTypeImpl does at a type that is not seen yet: stop at it, go on
-- to the type of the first part, or descend behind a pointer. `none` is out of fuel.
pub data Turn : Type 0 where
  stop : Turn
  go_on : ℕ → Turn
  behind : (elem space : ℕ) → Turn

module _ (l : Llvm) where
  -- What is pushed for an aggregate, last pushed first; `none` for any other type.
  unfoldable pub sub_types : ℕ → Option (List ℕ)
  sub_types t = elim (l.shape t) [
    | Shape.array len e ↦ some (replicate len e)
    | Shape.vector len e ↦ some (replicate len e)
    | Shape.struct es ↦ some es
    | _ ↦ none
  ]

  -- The end of a step: the type found, or the null type. `sized` says whether there is a data layout.
  unfoldable pub arrive : Bool → Option ℕ → SubTypeDesc → SubTypeDesc
  arrive sized none c = record { ty = none; bytes = 0; offset = add32 c.offset c.bytes }
  arrive sized (some t) c = record {
    ty = some t;
    bytes = if sized then u32 (l.store_size t) else 0;
    offset = add32 c.offset c.bytes;
  }

  -- The loop of doStep. Where the worklist runs dry inside the loop, as for an aggregate with no
  -- element, `current` stays as it is. `none` is out of fuel.
  unfoldable pub expand : ℕ → Bool → List ℕ → SubTypeDesc → Option AggregateIterator
  unfolding arrive sub_types
  expand k sized [] c = some (record { worklist = []; current = c })
  expand zero sized (t ∷ ws) c = none
  expand (suc k) sized (t ∷ ws) c = elim (sub_types t) [
    | none ↦ some (record { worklist = ws; current = arrive sized (some t) c })
    | some ts ↦ expand k sized (ts ++ ws) c
  ]

  unfoldable pub do_step : ℕ → Bool → AggregateIterator → Option AggregateIterator
  unfolding expand arrive
  do_step k sized it = elim it.worklist [
    | [] ↦ some (record { worklist = []; current = arrive sized none it.current })
    | t ∷ ws ↦ expand k sized (t ∷ ws) it.current
  ]

  -- mkBegin
  unfoldable pub mk_begin : ℕ → Bool → ℕ → Option AggregateIterator
  unfolding do_step
  mk_begin k sized t =
      do_step k sized
        (record { worklist = t ∷ []; current = record { ty = none; bytes = 0; offset = 0 } })

  first_part : ℕ → ℕ → Option (Option ℕ)
  unfolding mk_begin
  first_part k t = elim (mk_begin k false t) [ none ↦ none | some it ↦ some it.current.ty ]

  is_pointer_to : ℕ → ℕ → Bool
  is_pointer_to t u = elim (l.shape t) [ Shape.pointer e s ↦ e == u | _ ↦ false ]

  turn : ℕ → ℕ → Option Turn
  unfolding first_part is_pointer_to
  turn k t = elim (l.shape t) [
    | Shape.pointer e s ↦ some (behind e s)
    | _ ↦ elim (first_part k t) [
      | none ↦ none
      | some none ↦ some stop
      | some (some u) ↦ some (if is_pointer_to u t || (u == t) then stop else go_on u)
    ]
  ]

  -- The loop of GetInnermostTypeImpl from the type `t`; `rec` is the call behind a pointer.
  innermost_loop : ℕ → (Memo → ℕ → Option (ℕ × Memo)) → Memo → ℕ → Option (ℕ × Memo)
  unfolding turn
  innermost_loop zero rec m t = none
  innermost_loop (suc k) rec m t =
      if member t m.seen
      then some (t, m)
      else let m' : Memo = record m { seen = t ∷ m.seen } in
        elim (turn k t) [
          | none ↦ none
          | some stop ↦ some (t, m')
          | some (go_on u) ↦ innermost_loop k rec m' u
          | some (behind e s) ↦ elim (rec m' e) [
            | none ↦ none
            | some (r, m'') ↦ some (l.pointer_to r s, m'')
          ]
        ]

  -- GetInnermostTypeImpl
  unfoldable pub innermost : ℕ → Memo → ℕ → Option (ℕ × Memo)
  unfolding innermost_loop remember
  innermost zero m t = none
  innermost (suc k) m t = elim (lookup t m.cache) [
    | some r ↦ some (r, m)
    | none ↦ elim (innermost_loop (suc k) (innermost k) m t) [
      | none ↦ none
      | some (r, m') ↦ some (r, remember t r m')
    ]
  ]

  -- GetFirstPrimitiveTy, with the cache before and after the call
  unfoldable pub get_first_primitive_ty : ℕ → List (ℕ × ℕ) → ℕ → Option (ℕ × List (ℕ × ℕ))
  unfolding innermost
  get_first_primitive_ty k cache t = elim (innermost k (record { cache = cache; seen = [] }) t) [
    | none ↦ none
    | some (r, m) ↦ some (r, m.cache)
  ]

  -- IsOmnipotentChar, which looks through arrays of no element, nested `k` deep at most
  unfoldable pub is_omnipotent_char : ℕ → ℕ → Option Bool
  is_omnipotent_char zero t = none
  is_omnipotent_char (suc k) t = elim (l.shape t) [
    | Shape.integer w ↦ some (w == 8)
    | Shape.array len e ↦ if len == 0 then is_omnipotent_char k e else some false
    | _ ↦ some false
  ]

  -- IsOmnipotentPtr
  unfoldable pub is_omnipotent_ptr : ℕ → ℕ → Option Bool
  unfolding is_omnipotent_char
  is_omnipotent_ptr k t = elim (l.shape t) [
    | Shape.pointer e s ↦ is_omnipotent_char k e
    | _ ↦ some false
  ]

  -- FieldType::FieldType(Type *), with the cache before and after the call
  unfoldable pub mk_field_type : ℕ → List (ℕ × ℕ) → ℕ → Option (FieldType × List (ℕ × ℕ))
  unfolding get_first_primitive_ty is_omnipotent_ptr
  mk_field_type k cache t =
      if not l.type_aware
      then some (record { ty = none; is_omni = false; not_implemented = false }, cache)
      else elim (get_first_primitive_ty k cache t) [
        | none ↦ none
        | some (r, cache') ↦ elim (is_omnipotent_ptr k r) [
          | none ↦ none
          | some b ↦ some (
            record { ty = some r; is_omni = l.omnipotent_char && b; not_implemented = false },
            cache',
          )
        ]
      ]
