-- ===== src/ShadowMem/Visit.antt =====
-- The visitors of lib/seadsa/ShadowMem.cc, for the instructions of a function, and for the globals at
-- the entry of main.
use Prim.Native.String.{String}
use text.Mathlib.Text
use text.Mathlib.Text.{starts_with}
use sea_dsa.Common.{
  ℕ, Bool, not, ◌&&◌, ◌||◌, Option, none, some, List, [], ◌∷◌, ◌==◌, if◌then◌else◌, is_some,
}
use sea_dsa.Llvm.{Llvm}
use sea_dsa.Graph.{is_null, Graph, ok, fault, out_of_fuel}
use sea_dsa.Graph.Query.{Place, place, place_offset}
use sea_dsa.Graph.Table.{has_cell, get_cell}
use sea_dsa.ShadowMem.Fields.{ShadowMemInstOp, entry, State, Target, mk_access, mk_global_init}
use sea_dsa.ShadowMem.CallSite.{Effects, visit_dsa_call_site}

-- A call, as CallBase and AllocSiteInfo show it: the function that is called and its name, whether
-- it has no body and whether there is a graph for it, the size of the allocation if the call is an
-- allocation site, the arguments, and the size of the type of a value.
pub record CallInfo : Type 0 where
  pub instruction : ℕ
  pub is_indirect : Bool
  pub callee : Option ℕ
  pub name : String
  pub no_body : Bool
  pub callee_graph : Option Graph
  pub is_alloc_site : Bool
  pub alloc_size : Option ℕ
  pub argument : ℕ → ℕ
  pub type_bytes : ℕ → ℕ

-- An instruction that is visited, with its pointers and the bytes that it accesses.
pub data Inst : Type 0 where
  alloca : (inst : ℕ) → (bytes : Option ℕ) → Inst
  load : (inst source bytes : ℕ) → Inst
  store : (inst destination bytes : ℕ) → Inst
  mem_set : (inst destination : ℕ) → (length : Option ℕ) → Inst
  mem_transfer : (inst destination source : ℕ) → (length : Option ℕ) → Inst
  call : CallInfo → Inst
  other : Inst

-- The names of pseudo-functions that visitCallBase looks for.
pub data Special : Type 0 where
  ignored calloc memhavoc is_modified reset_modified set_shadowmem get_shadowmem is_read reset_read
        is_alloc free none_of_these :
      Special

unfoldable pub special_of : String → Special
special_of n =
    if (starts_with n "seahorn." || starts_with n "verifier.")
      && not (starts_with n "seahorn.bounce")
    then ignored
    else if Text.◌==◌ n "calloc"
    then calloc
    else if Text.◌==◌ n "memhavoc"
    then memhavoc
    else if Text.◌==◌ n "sea.is_modified"
    then is_modified
    else if Text.◌==◌ n "sea.reset_modified"
    then reset_modified
    else if Text.◌==◌ n "sea.set_shadowmem"
    then set_shadowmem
    else if Text.◌==◌ n "sea.get_shadowmem"
    then get_shadowmem
    else if Text.◌==◌ n "sea.is_read"
    then is_read
    else if Text.◌==◌ n "sea.reset_read"
    then reset_read
    else if Text.◌==◌ n "sea.is_alloc"
    then is_alloc
    else if Text.◌==◌ n "sea.free"
    then free
    else none_of_these

module _ (l : Llvm) (t : Target) (alloc_is_def : Bool) (fx : Effects) (fuel : ℕ) where
  -- The place of the cell of a value, if it has one that is not null, after getCell.
  unfoldable pub with_cell : ℕ → (Place → State → Option State) → State → Option State
  unfolding has_cell get_cell place
  with_cell v k s = if not (has_cell l s.graph v) then some s else elim (get_cell l v s.graph) [
    | fault ↦ none
    | out_of_fuel ↦ none
    | ok c g ↦
        let s' = record s { graph = g } in
        if is_null c then some s' else elim (place g c) [ none ↦ none | some p ↦ k p s' ]
  ]

  -- One access to what a pointer points to.
  unfoldable pub access : ShadowMemInstOp → (inst pointer : ℕ) → Option ℕ → State → Option State
  unfolding with_cell mk_access
  access op i v bytes = with_cell v (λ p. mk_access t op p bytes v i)

  -- What visitAllocaInst and visitAllocationFn have in common.
  allocation : (inst : ℕ) → Option ℕ → State → Option State
  unfolding access
  allocation i bytes =
      access (if alloc_is_def then ShadowMemInstOp.store else ShadowMemInstOp.load) i i bytes

  -- visitAllocationFn
  visit_allocation : CallInfo → State → Option State
  unfolding allocation
  visit_allocation ci = allocation ci.instruction ci.alloc_size

  -- visitMemTransferInst, which looks for a null cell only at the destination
  unfoldable pub visit_mem_transfer :
      (inst destination source : ℕ) → Option ℕ → State → Option State
  unfolding has_cell get_cell mk_access place
  visit_mem_transfer i d v len s =
      if not (has_cell l s.graph d && has_cell l s.graph v)
      then some s
      else elim (get_cell l d s.graph) [
        | fault ↦ none
        | out_of_fuel ↦ none
        | ok c g ↦ elim (get_cell l v g) [
          | fault ↦ none
          | out_of_fuel ↦ none
          | ok c' g' ↦
              let s' = record s { graph = g' } in
              if is_null c then some s' else elim (place g' c) [
                | none ↦ none
                | some p ↦ elim (place g' c') [
                  | none ↦ none
                  | some q ↦ elim (mk_access t ShadowMemInstOp.trsfr_load q len v i s') [
                    | none ↦ none
                    | some s2 ↦ mk_access t ShadowMemInstOp.store p len d i s2
                  ]
                ]
              ]
        ]
      ]

  -- visitCalloc, which passes over cells at other offsets than 0
  unfoldable pub visit_calloc : CallInfo → State → Option State
  unfolding with_cell mk_access
  visit_calloc ci = with_cell ci.instruction (λ p s.
      if place_offset p == 0
      then mk_access t ShadowMemInstOp.store p ci.alloc_size ci.instruction ci.instruction s
      else some s)

  -- visitMemhavoc, visitIsModified and those like them: one access through an argument
  through : CallInfo → ShadowMemInstOp → (idx bytes : ℕ) → State → Option State
  unfolding access
  through ci op idx bytes = access op ci.instruction (ci.argument idx) (some bytes)

  visit_memhavoc : CallInfo → State → Option State
  unfolding through
  visit_memhavoc ci = through ci ShadowMemInstOp.load 0 (ci.type_bytes (ci.argument 0))

  visit_is_modified : CallInfo → State → Option State
  unfolding through
  visit_is_modified ci = through ci ShadowMemInstOp.load 0 1

  visit_reset_modified : CallInfo → State → Option State
  unfolding through
  visit_reset_modified ci = through ci ShadowMemInstOp.store 0 1

  visit_set_shadow_mem : CallInfo → State → Option State
  unfolding through
  visit_set_shadow_mem ci = through ci ShadowMemInstOp.store 1 1

  visit_get_shadow_mem : CallInfo → State → Option State
  unfolding through
  visit_get_shadow_mem ci = through ci ShadowMemInstOp.load 1 1

  visit_is_read : CallInfo → State → Option State
  unfolding through
  visit_is_read ci = through ci ShadowMemInstOp.load 0 1

  visit_reset_read : CallInfo → State → Option State
  unfolding through
  visit_reset_read ci = through ci ShadowMemInstOp.store 0 1

  visit_is_alloc : CallInfo → State → Option State
  unfolding through
  visit_is_alloc ci = through ci ShadowMemInstOp.load 0 1

  visit_free : CallInfo → State → Option State
  unfolding through
  visit_free ci = through ci ShadowMemInstOp.store 0 1

  -- What visitCallBase does for a name.
  unfoldable pub visit_special : CallInfo → Special → State → Option State
  unfolding visit_calloc visit_allocation visit_dsa_call_site visit_memhavoc visit_is_modified
      visit_reset_modified visit_set_shadow_mem visit_get_shadow_mem visit_is_read visit_reset_read
      visit_is_alloc visit_free
  visit_special ci ignored s = some s
  visit_special ci calloc s = visit_calloc ci s
  visit_special ci memhavoc s = visit_memhavoc ci s
  visit_special ci is_modified s = visit_is_modified ci s
  visit_special ci reset_modified s = visit_reset_modified ci s
  visit_special ci set_shadowmem s = visit_set_shadow_mem ci s
  visit_special ci get_shadowmem s = visit_get_shadow_mem ci s
  visit_special ci is_read s = visit_is_read ci s
  visit_special ci reset_read s = visit_reset_read ci s
  visit_special ci is_alloc s = visit_is_alloc ci s
  visit_special ci free s = visit_free ci s
  visit_special ci none_of_these s =
      if ci.is_alloc_site && ci.no_body then visit_allocation ci s else elim ci.callee [
        | none ↦ some s
        | some f ↦ elim ci.callee_graph [
          | none ↦ some s
          | some from ↦ visit_dsa_call_site l t fx fuel ci.instruction f from s
        ]
      ]

  -- visitCallBase
  unfoldable pub visit_call : CallInfo → State → Option State
  unfolding visit_special special_of
  visit_call ci s =
      if ci.is_indirect || not (is_some ci.callee)
      then some s
      else visit_special ci (special_of ci.name) s

  visit_alloca : (inst : ℕ) → Option ℕ → State → Option State
  unfolding allocation
  visit_alloca i bytes = allocation i bytes

  visit_load : (inst source bytes : ℕ) → State → Option State
  unfolding access
  visit_load i v bytes = access ShadowMemInstOp.load i v (some bytes)

  visit_store : (inst destination bytes : ℕ) → State → Option State
  unfolding access
  visit_store i v bytes = access ShadowMemInstOp.store i v (some bytes)

  visit_mem_set : (inst destination : ℕ) → Option ℕ → State → Option State
  unfolding access
  visit_mem_set i v len = access ShadowMemInstOp.store i v len

  -- The visitor of an instruction.
  unfoldable pub visit : Inst → State → Option State
  unfolding visit_alloca visit_load visit_store visit_mem_set visit_mem_transfer visit_call
  visit (alloca i bytes) s = visit_alloca i bytes s
  visit (load i v bytes) s = visit_load i v bytes s
  visit (store i v bytes) s = visit_store i v bytes s
  visit (mem_set i v len) s = visit_mem_set i v len s
  visit (mem_transfer i d v len) s = visit_mem_transfer i d v len s
  visit (call ci) s = visit_call ci s
  visit other s = some s

  unfoldable pub visit_all : List Inst → State → Option State
  unfolding visit
  visit_all [] s = some s
  visit_all (i ∷ is) s = elim (visit i s) [ none ↦ none | some s' ↦ visit_all is s' ]

  -- visitMainFunction, for the globals that LLVM does not use itself, in their order
  unfoldable pub visit_globals : List (ℕ × ℕ) → State → Option State
  unfolding has_cell get_cell place mk_global_init
  visit_globals [] s = some s
  visit_globals ((v, bytes) ∷ vs) s =
      if not (has_cell l s.graph v) then visit_globals vs s else elim (get_cell l v s.graph) [
        | fault ↦ none
        | out_of_fuel ↦ none
        | ok c g ↦ elim (place g c) [
          | none ↦ none
          | some p ↦ elim (mk_global_init t entry p v (some bytes) (record s { graph = g })) [
            | none ↦ none
            | some s' ↦ visit_globals vs s'
          ]
        ]
      ]
