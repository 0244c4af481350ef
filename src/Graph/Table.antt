-- ===== src/Graph/Table.antt =====
-- The maps of a graph from values, arguments, functions and call instructions to cells and sites:
-- mkCell, mkRetCell, getRetCell, getCell, hasCell, mkAllocSite, mkCallSite of lib/seadsa/Graph.cc,
-- and the class DsaCallSite of lib/seadsa/DsaCallSite.cc.
pub mod Laws
use sea_dsa.Common.{
  ℕ, Bool, true, false, not, ◌&&◌, ◌||◌, Option, none, some, List, [], ◌∷◌, ◌++◌, lookup, put, ◌==◌,
  if◌then◌else◌, is_some, set_insert,
}
use sea_dsa.Llvm.{Llvm, Kind, is_global, is_argument, is_function, is_alias, is_constant}
use sea_dsa.Graph.{
  Cell, null_cell, cell, Node, CallSite, Graph, M, pure, skip, fail, assert, when, ◌>>=◌, ◌>>◌, ok,
  fault, load, modify, is_null, mk_node,
}
use sea_dsa.Graph.Resolve.{resolve_cell}
use sea_dsa.Graph.Unify.{set_unique_scalar}

-- Graph::getAllocSite, hasAllocSiteForValue; Graph::mkAllocSite; Node::addAllocSite
unfoldable pub has_alloc_site : Graph → ℕ → Bool
has_alloc_site g v = is_some (lookup v g.alloc_sites)

unfoldable pub mk_alloc_site : ℕ → M (Unit {0})
unfolding has_alloc_site
mk_alloc_site v g =
    if has_alloc_site g v
    then ok tt g
    else ok tt (record g { alloc_sites = g.alloc_sites ++ (v, []) ∷ [] })

unfoldable pub add_alloc_site : ℕ → ℕ → M (Unit {0})
add_alloc_site n v = modify n (λ d. record d { alloca_sites = set_insert v d.alloca_sites })

-- The marks that a new entry for `v` at offset `o` leaves on a node.
abbrev marked : ℕ → ℕ → Node → Node
marked v o d =
    if o == 0
    then set_unique_scalar (if d.has_once_unique_scalar then none else some v) d
    else if d.has_once_unique_scalar
    then set_unique_scalar none d
    else d

module _ (l : Llvm) where
  -- The entry of a stripped value, in the map of the formals or in that of the scalars.
  unfoldable pub entry : Graph → ℕ → Option Cell
  unfolding is_argument
  entry g v = if is_argument l v then lookup v g.formals else lookup v g.values

  unfoldable pub put_entry : ℕ → Cell → M (Unit {0})
  unfolding is_argument
  put_entry v c g =
      if is_argument l v
      then ok tt (record g { formals = put v c g.formals })
      else ok tt (record g { values = put v c g.values })

  -- The unique scalar of the node of a new entry.
  mark_scalar : ℕ → Cell → M (Unit {0})
  mark_scalar v c = elim c.node [ none ↦ skip | some n ↦ modify n (marked v c.offset) ]

  -- Graph::mkCell behind the case of an absent global
  unfoldable pub mk_entry : ℕ → Cell → M Cell
  unfolding entry put_entry mark_scalar
  mk_entry v c g = elim (entry g v) [
    | some old ↦ ok old g
    | none ↦ (do r ← resolve_cell c; put_entry v r; mark_scalar v r; pure r) g
  ]

  -- Graph::mkCell
  unfoldable pub mk_cell : ℕ → Cell → M Cell
  unfolding is_global mk_alloc_site add_alloc_site mk_entry
  mk_cell u c =
      let v = l.strip u in
      if is_global l v && is_null c
      then (do n ← mk_node l; mk_alloc_site v; add_alloc_site n v; mk_entry (l.strip v) (cell n 0))
      else mk_entry v c

  -- Graph::getCell
  unfoldable pub get_cell : ℕ → M Cell
  unfolding is_argument is_global mk_cell
  get_cell u =
      let v = l.strip u in
      if is_argument l v
      then (λ g. elim (lookup v g.formals) [ none ↦ fault | some c ↦ ok c g ])
      else if is_global l v
      then mk_cell v null_cell
      else (λ g. elim (lookup v g.values) [ none ↦ fault | some c ↦ ok c g ])

  -- Graph::hasCell
  unfoldable pub has_cell : Graph → ℕ → Bool
  unfolding is_argument is_global
  has_cell g u =
      let v = l.strip u in
      is_global l v
      || is_some (lookup v g.values)
      || (is_argument l v && is_some (lookup v g.formals))

-- Graph::hasScalarCell, hasRetCell, mkRetCell and getRetCell
unfoldable pub has_scalar_cell : Graph → ℕ → Bool
has_scalar_cell g v = is_some (lookup v g.values)

unfoldable pub has_ret_cell : Graph → ℕ → Bool
has_ret_cell g fn = is_some (lookup fn g.returns)

unfoldable pub mk_ret_cell : ℕ → Cell → M Cell
mk_ret_cell fn c g = elim (lookup fn g.returns) [
  | some old ↦ ok old g
  | none ↦ ok c (record g { returns = put fn c g.returns })
]

unfoldable pub get_ret_cell : ℕ → M Cell
get_ret_cell fn g = elim (lookup fn g.returns) [ none ↦ fault | some c ↦ ok c g ]

module _ (l : Llvm) where
  -- getCalledFunctionThroughAliasesAndCasts
  unfoldable pub called_function : ℕ → Option ℕ
  unfolding is_function is_alias
  called_function i =
      let v = l.strip (l.called_operand i) in
      if is_function l v
      then some v
      else if is_alias l v && is_function l (l.strip (l.aliasee v))
      then some (l.strip (l.aliasee v))
      else none

  -- DsaCallSite::DsaCallSite(const CallBase &), (const Instruction &, Cell) and
  -- (const Instruction &, const Function &)
  unfoldable pub direct_call_site : ℕ → CallSite
  unfolding called_function
  direct_call_site i = record {
    instruction = i;
    cell = none;
    cloned = false;
    callee = called_function i;
  }

  unfoldable pub cell_call_site : ℕ → Cell → M CallSite
  unfolding called_function
  cell_call_site i c = do
    r ← resolve_cell c
    pure (record { instruction = i; cell = some r; cloned = false; callee = called_function i })

  -- DsaCallSite::isIndirectCall, with the answer of isInlineAsm
  unfoldable pub is_indirect_call : Bool → CallSite → Bool
  unfolding is_constant
  is_indirect_call inline_asm cs =
      not (is_constant l (l.called_operand cs.instruction)) && not inline_asm

  callee_call_site : Bool → ℕ → ℕ → M CallSite
  unfolding is_indirect_call called_function
  callee_call_site inline_asm i fn =
      let cs : CallSite = record {
        instruction = i;
        cell = none;
        cloned = false;
        callee = some fn;
      } in
      do
        assert (
            is_indirect_call inline_asm cs
            || elim (called_function i) [ none ↦ false | some f ↦ f == fn ])
        pure cs

  -- The pointer arguments of a call, and the pointer parameters of its callee.
  pointers : List ℕ → List ℕ
  pointers [] = []
  pointers (v ∷ vs) = if l.is_pointer_value v then v ∷ pointers vs else pointers vs

  unfoldable pub actuals : CallSite → List ℕ
  unfolding pointers
  actuals cs = pointers (l.arguments cs.instruction)

  unfoldable pub formals_of : ℕ → List ℕ
  unfolding pointers
  formals_of fn = pointers (l.params fn)

  -- Graph::mkCallSite
  unfoldable pub mk_call_site : ℕ → Cell → M CallSite
  unfolding cell_call_site
  mk_call_site i c g = elim (lookup i g.call_sites) [
    | some cs ↦ ok cs g
    | none ↦
        (do
          cs ← cell_call_site i c
          λ h. ok cs (record h { call_sites = h.call_sites ++ (i, cs) ∷ [] }))
          g
  ]

-- Graph::getCallSite and clearCallSites
unfoldable pub get_call_site : Graph → ℕ → Option CallSite
get_call_site g i = lookup i g.call_sites

unfoldable pub clear_call_sites : Graph → Graph
clear_call_sites g = record g { call_sites = [] }
