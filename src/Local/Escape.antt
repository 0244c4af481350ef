-- ===== src/Local/Escape.antt =====
-- isEscapingPtrToInt and visitPtrToIntInst of lib/seadsa/DsaLocal.cc:
-- whether a pointer that was made an integer flows on to memory.
pub mod Paths
pub mod Correct
pub mod Exact
pub mod Ends
use Prim.Native.String.{String}
use text.Mathlib.Text.{starts_with}
use text.Mathlib.Text
use sea_dsa.Common.{
  ℕ, zero, suc, Bool, true, false, not, ◌&&◌, ◌||◌, Option, none, some, List, [], ◌∷◌, ◌++◌, ◌==◌,
  if◌then◌else◌, member, reverse,
}
use sea_dsa.Llvm.{Llvm}
use sea_dsa.Graph.{
  Cell, null_cell, cell, M, pure, skip, assert, when, ok, ◌>>=◌, ◌>>◌, load, deref, is_null,
}
use sea_dsa.Graph.Resolve.{resolve_cell}
use sea_dsa.Graph.Table.{has_cell}
use sea_dsa.Local.{Value, Ir}
use sea_dsa.Local.Values.{is_null_constant}
use sea_dsa.Local.Cells.{answer, cell_mark, set_ptr_to_int}
use sea_dsa.Local.Source.{value_cell}

-- What becomes of a value at one of its users.
pub data Flow : Type 0 where
  ignored : Flow
  escapes : Flow
  flows_on : Flow

module _ (ir : Ir) where
  is_ptr_to_int : ℕ → Bool
  is_ptr_to_int v = elim (ir.value v) [ Value.ptr_to_int u ↦ true | _ ↦ false ]

  -- The calls that only assume something of an integer.
  unfoldable pub is_assumption : ℕ → Bool
  is_assumption i = elim (ir.direct_callee i) [
    | none ↦ false
    | some f ↦
        starts_with (ir.name f) "__sea_set_extptr_slot"
        || Text.◌==◌ (ir.name f) "verifier.assume"
        || Text.◌==◌ (ir.name f) "llvm.assume"
  ]

  -- The users that the inner loop passes over, for a user `u` of `v`.
  unfoldable pub is_ignored : (v u : ℕ) → Bool
  unfolding is_ptr_to_int is_assumption
  is_ignored v u = elim (ir.value u) [
    | Value.branch ↦ true
    | Value.cmp ↦ true
    | Value.select c a b ↦ c == v
    | Value.sub a b ↦ is_ptr_to_int a && is_ptr_to_int b
    | Value.call ↦ not (ir.is_invoke u) && is_assumption u
    | Value.mem_set d ↦ is_assumption u
    | Value.mem_transfer d s len ↦ is_assumption u
    | _ ↦ false
  ]

  -- The users that make the value escape.
  unfoldable pub is_sink : ℕ → Bool
  is_sink u = elim (ir.value u) [
    | Value.load p ↦ true
    | Value.store p x ↦ true
    | Value.call ↦ not (ir.is_invoke u)
    | Value.mem_set d ↦ true
    | Value.mem_transfer d s len ↦ true
    | Value.int_to_ptr x ↦ true
    | _ ↦ false
  ]

  unfoldable pub flow : (v u : ℕ) → Flow
  unfolding is_ignored is_sink
  flow v u = if is_ignored v u then ignored else if is_sink u then escapes else flows_on

  -- One pass of the inner loop: the worklist with the users to follow, or `none` if `v` escapes.
  unfoldable pub follow : (seen : List ℕ) → (v : ℕ) → (users worklist : List ℕ) → Option (List ℕ)
  unfolding flow
  follow seen v [] ws = some ws
  follow seen v (u ∷ us) ws = elim (member u seen) [
    | true ↦ follow seen v us ws
    | false ↦ elim (flow v u) [
      | ignored ↦ follow seen v us ws
      | escapes ↦ none
      | flows_on ↦ follow seen v us (u ∷ ws)
    ]
  ]

  -- The loop of isEscapingPtrToInt. The head of the worklist is its back; `none` is out of fuel.
  unfoldable pub escape_loop : ℕ → (seen worklist : List ℕ) → Option Bool
  unfolding follow
  escape_loop zero seen ws = none
  escape_loop (suc k) seen [] = some false
  escape_loop (suc k) seen (v ∷ ws) = elim (member v seen) [
    | true ↦ escape_loop k seen ws
    | false ↦ elim (follow (v ∷ seen) v (ir.users v) ws) [
      | none ↦ some true
      | some ws' ↦ escape_loop k (v ∷ seen) ws'
    ]
  ]

  unfoldable pub is_escaping_ptr_to_int : ℕ → ℕ → Option Bool
  unfolding escape_loop
  is_escaping_ptr_to_int k v = escape_loop k [] (v ∷ [])

-- visitPtrToIntInst
module _ (l : Llvm) (ir : Ir) (fuel : ℕ) where
  unfoldable pub visit_ptr_to_int : (i operand : ℕ) → M (Unit {0})
  unfolding is_escaping_ptr_to_int answer is_null_constant has_cell value_cell cell_mark
  visit_ptr_to_int i u = do
    escaping ← answer (is_escaping_ptr_to_int ir fuel i)
    if not escaping then skip else do
      null ← answer (is_null_constant l ir fuel u)
      λ g.
          if null || not (has_cell l g u)
          then ok tt g
          else (do
            c ← value_cell l ir fuel u
            if is_null c then skip else do cell_mark c set_ptr_to_int; skip)
              g
