-- ===== src/CompleteCallGraph.antt =====
-- CompleteCallGraphAnalysis of lib/seadsa/DsaCompleteCallGraph.cc: indirect calls are resolved by
-- bottom-up passes that carry call sites from callees to callers. LLVM's call graph is not part of the
-- repository: its operations are an argument, with what the analysis relies on as laws.
pub mod Edges
pub mod Inline
pub mod Loop
pub mod Prune
use sea_dsa.Common.{
  ℕ, ◌≡◌, Bool, true, false, Option, none, some, List, [], ◌∷◌, ◌++◌, lookup, ◌==◌, if◌then◌else◌,
  length,
}
use sea_dsa.Graph.{Graph}

-- A CallRecord: the call, if it has one, and the function of the node that is called; the external
-- node has none.
pub record CallRecord : Type 0 where
  pub has_call : Bool
  pub site : ℕ
  pub callee : Option ℕ

-- The operations of llvm::CallGraph on the node of a function.
pub record CallGraphOps (Cg : Type 0) : Type 0 where
  pub records : Cg → ℕ → List CallRecord
  pub add_called_function : Cg → (caller site callee : ℕ) → Cg
  pub remove_call_edge_for : Cg → (caller site : ℕ) → Cg
  -- the edge at a position
  pub remove_call_edge : Cg → (caller position : ℕ) → Cg

-- The last one of some elements, and those before it.
abbrev pub last_and_init {ℓ} : {A : Type ℓ} → A → List A → A × List A
last_and_init x [] = (x, [])
last_and_init x (y ∷ ys) = let (z, zs) = last_and_init y ys in (z, x ∷ zs)

-- The last element of a list comes first.
abbrev pub last_first {ℓ} : {A : Type ℓ} → List A → List A
last_first [] = []
last_first (x ∷ xs) = let (z, zs) = last_and_init x xs in z ∷ zs

-- What LLVM documents: an edge is added at the end, and removing one puts the last edge in its place.
pub record HasLaws (Cg : Type 0) (ops : CallGraphOps Cg) : Type 0 where
  pub records_add :
      (g : Cg) (f s c h : ℕ)
      → ops.records (ops.add_called_function g f s c) h ≡ (
          if f == h
          then ops.records g h ++ record { has_call = true; site = s; callee = some c } ∷ []
          else ops.records g h)
  pub records_remove :
      (g : Cg) (f : ℕ) (before : List CallRecord) (r : CallRecord) (after : List CallRecord)
      → ops.records g f ≡ before ++ (r ∷ after)
      → ops.records (ops.remove_call_edge g f (length before)) f ≡ before ++ last_first after
  pub records_remove_other :
      (g : Cg) (f i h : ℕ)
      → (f == h) ≡ false
      → ops.records (ops.remove_call_edge g f i) h ≡ ops.records g h

-- What else is read of LLVM.
pub record Program : Type 0 where
  -- whether a function has a body, and whether it is named main
  pub has_body : ℕ → Bool
  pub is_main : ℕ → Bool
  -- the order of functions by name
  pub name_lt : ℕ → ℕ → Bool
  -- the value that the returns of a function hand on
  pub unique_return : ℕ → Option ℕ
  -- CB.isIndirectCall()
  pub is_indirect_call : ℕ → Bool
  -- isLegalToPromote(CB, F)
  pub is_legal_to_promote : (site fn : ℕ) → Bool
  -- V.stripPointerCastsAndAliases()
  pub strip_aliases : ℕ → ℕ

-- The graphs of functions: functions of one component share one.
pub record Graphs : Type 0 where
  pub owner : List (ℕ × ℕ)
  pub store : List (ℕ × Graph)

unfoldable pub graph_of : Graphs → ℕ → Option (ℕ × Graph)
graph_of gs f = elim (lookup f gs.owner) [
  | none ↦ none
  | some i ↦ elim (lookup i gs.store) [ none ↦ none | some g ↦ some (i, g) ]
]
