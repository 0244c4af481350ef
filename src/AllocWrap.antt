-- ===== src/AllocWrap.antt =====
-- lib/seadsa/AllocWrapInfo.cc: the functions that hand on freshly allocated memory.
pub mod Stores
pub mod Flow
use sea_dsa.Common.{
  ℕ, zero, suc, Bool, true, false, not, ◌&&◌, ◌||◌, Option, none, some, List, [], ◌∷◌, member,
  set_insert, ◌==◌, if◌then◌else◌, is_some,
}

-- What the analysis reads of an instruction or a constant.
pub data Inst : Type 0 where
  ret : (value : ℕ) → Inst
  phi : (header : Bool) → (incoming : List ℕ) → Inst
  bitcast : (operand : ℕ) → Inst
  null : Inst
  store : Inst
  icmp : Inst
  call : Inst
  other : Inst

-- A function of the module. `returns` holds the return instructions that end its blocks.
pub record Function : Type 0 where
  pub users : List ℕ
  pub does_not_return : Bool
  pub returns_pointer : Bool
  pub returns : List ℕ

-- LLVM's answers: instructions by address, the users of a value, the function of an instruction,
-- and M.getFunction for names (numbered like everything else).
pub record Module : Type 0 where
  pub inst : ℕ → Inst
  pub users : ℕ → List ℕ
  pub parent : ℕ → ℕ
  pub function : ℕ → Option Function
  -- whether there is loop information (a null `LI` makes every phi node opaque)
  pub has_loops : Bool

module _ (m : Module) where
  -- The values that flow into a phi node, all of them.
  unfoldable pub all_flow : (ℕ → Option Bool) → List ℕ → Option Bool
  all_flow flows [] = some true
  all_flow flows (v ∷ vs) =
      let rest = all_flow flows vs in
      elim (flows v) [ none ↦ none | some false ↦ some false | some true ↦ rest ]

  -- flowsFrom; `none` is out of fuel
  unfoldable pub flows_from : ℕ → ℕ → ℕ → Option Bool
  unfolding all_flow
  flows_from zero dst src = none
  flows_from (suc k) dst src = if dst == src then some true else elim (m.inst dst) [
    | Inst.ret v ↦ flows_from k v src
    | Inst.phi header vs ↦
        if not m.has_loops || header then some false else all_flow (λ v. flows_from k v src) vs
    | Inst.bitcast v ↦ flows_from k v src
    | Inst.null ↦ some true
    | _ ↦ some false
  ]

  -- One user of a value that must not be stored; `rec` is the call for a cast or a phi node.
  unfoldable pub user_is_harmless : (ℕ → Option Bool) → ℕ → Option Bool
  user_is_harmless rec u = elim (m.inst u) [
    | Inst.store ↦ some false
    | Inst.icmp ↦ some true
    | Inst.ret v ↦ some true
    | Inst.bitcast v ↦ rec u
    | Inst.phi header vs ↦ rec u
    | _ ↦ some false
  ]

  unfoldable pub all_harmless : (ℕ → Option Bool) → List ℕ → Option Bool
  unfolding user_is_harmless
  all_harmless rec [] = some true
  all_harmless rec (u ∷ us) =
      let rest = all_harmless rec us in
      elim (user_is_harmless rec u) [ none ↦ none | some false ↦ some false | some true ↦ rest ]

  -- isNotStored; `none` is out of fuel
  unfoldable pub is_not_stored : ℕ → ℕ → Option Bool
  unfolding all_harmless
  is_not_stored zero v = none
  is_not_stored (suc k) v = all_harmless (is_not_stored k) (m.users v)

  -- Every return of the function hands on the result of the call.
  all_returns_flow : ℕ → ℕ → List ℕ → Option Bool
  unfolding flows_from
  all_returns_flow k ci [] = some true
  all_returns_flow k ci (r ∷ rs) =
      let rest = all_returns_flow k ci rs in
      elim (flows_from k r ci) [ none ↦ none | some false ↦ some false | some true ↦ rest ]

  -- The checks on one user of an allocation function: the name of the wrapper found, if any.
  unfoldable pub wrapper_of : ℕ → List ℕ → ℕ → Option (Option ℕ)
  unfolding all_returns_flow is_not_stored
  wrapper_of k names u = elim (m.inst u) [
    | Inst.call ↦
        let parent = m.parent u in
        if member parent names then some none else elim (m.function parent) [
          | none ↦ some none
          | some fn ↦
              if fn.does_not_return || not fn.returns_pointer
              then some none
              else elim (all_returns_flow k u fn.returns) [
                | none ↦ none
                | some false ↦ some none
                | some true ↦ elim (is_not_stored k u) [
                  | none ↦ none
                  | some b ↦ some (if b then some parent else none)
                ]
              ]
        ]
    | _ ↦ some none
  ]

  -- The loop over the users of one function. The flag is `changed`.
  pub scan_users : ℕ → List ℕ → (List ℕ × Bool) → Option (List ℕ × Bool)
  unfolding wrapper_of
  scan_users k [] s = some s
  scan_users k (u ∷ us) (names, changed) = elim (wrapper_of k names u) [
    | none ↦ none
    | some none ↦ scan_users k us (names, changed)
    | some (some fn) ↦ scan_users k us (set_insert fn names, true)
  ]

  pub scan_functions : ℕ → List ℕ → (List ℕ × Bool) → Option (List ℕ × Bool)
  unfolding scan_users
  scan_functions k [] s = some s
  scan_functions k (f ∷ fs) s = elim (m.function f) [
    | none ↦ scan_functions k fs s
    | some fn ↦ elim (scan_users k fn.users s) [ none ↦ none | some s' ↦ scan_functions k fs s' ]
  ]

  -- findWrappers: one round over a copy of the names
  pub find_wrappers : ℕ → List ℕ → Option (List ℕ × Bool)
  unfolding scan_functions
  find_wrappers k names = scan_functions k names (names, false)

  -- while (findWrappers(M, P, names)) ;
  pub find_all_wrappers : ℕ → ℕ → List ℕ → Option (List ℕ)
  unfolding find_wrappers
  find_all_wrappers zero k names = none
  find_all_wrappers (suc rounds) k names = elim (find_wrappers k names) [
    | none ↦ none
    | some (names', changed) ↦
        let again = find_all_wrappers rounds k names' in if changed then again else some names'
  ]
