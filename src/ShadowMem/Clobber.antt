-- ===== src/ShadowMem/Clobber.antt =====
-- mayClobber and solveUses of lib/seadsa/ShadowMem.cc: each use of memory gets the last definition
-- that may clobber it. A pseudo-instruction is named by a number.
pub mod Skipped
pub mod Ends
use sea_dsa.Common.{
  ℕ, zero, suc, Bool, true, false, not, ◌||◌, Option, none, some, List, [], ◌∷◌, ◌==◌, leb, lookup,
  put, member, any_of, if◌then◌else◌,
}
use sea_dsa.Common.Words.{add32}
use sea_dsa.Llvm.{Llvm}
use sea_dsa.Graph.{Graph}
use sea_dsa.Graph.Table.{entry}
use sea_dsa.Graph.Query.{Place, place, place_offset}
use sea_dsa.ShadowMem.Fields.{ShadowMemInstOp, Pseudo}
use sea_dsa.ShadowMem.Sites.{Pointers, Cache, get_all_alloc_sites}

-- A pseudo-instruction with the second value of getShadowMemVars, if this is a call.
pub record MemOp : Type 0 where
  pub call : Pseudo
  pub used : Option ℕ

-- isMemInit
unfoldable pub is_mem_init : ShadowMemInstOp → Bool
is_mem_init o = elim o [
  | ShadowMemInstOp.init ↦ true
  | ShadowMemInstOp.global_init ↦ true
  | ShadowMemInstOp.arg_init ↦ true
  | _ ↦ false
]

-- The pseudo-instructions that have m_memUseTag.
unfoldable pub is_mem_use : ShadowMemInstOp → Bool
is_mem_use o = elim o [
  | ShadowMemInstOp.load ↦ true
  | ShadowMemInstOp.trsfr_load ↦ true
  | ShadowMemInstOp.arg_ref ↦ true
  | ShadowMemInstOp.fun_in ↦ true
  | ShadowMemInstOp.fun_out ↦ true
  | _ ↦ false
]

-- The test on offsets, in `unsigned`.
unfoldable pub offsets_apart : (user defn : ℕ) → (used_bytes defd_bytes : Option ℕ) → Bool
offsets_apart u d ub db =
    (elim db [ none ↦ false | some n ↦ leb (add32 d n) u ])
    || (elim ub [ none ↦ false | some n ↦ leb (add32 u n) d ])

-- isNoAlias of LocalAAResultsWrapper, which asks the alias analyses of LLVM
abbrev pub NoAlias : Type 0
NoAlias =
    (user : ℕ)
    → (user_inst used_bytes : Option ℕ) → (defn : ℕ) → (defn_inst defd_bytes : Option ℕ) → Bool

-- getCell of a pointer that has a cell.
unfoldable pub start_of : Llvm → Graph → ℕ → Option Place
unfolding entry place
start_of l g v = elim (entry l g (l.strip v)) [ none ↦ none | some c ↦ place g c ]

-- The end of mayClobber: whether the pointers have an allocation site in common, or one that is
-- not known.
unfoldable pub share_sites :
    Pointers → Graph → (fuel : ℕ) → (user defn : ℕ) → Cache → Option (Bool × Cache)
unfolding get_all_alloc_sites
share_sites ps g fuel u d cache = elim (get_all_alloc_sites ps g fuel u cache) [
  | none ↦ none
  | some (none, cache1) ↦ some (true, cache1)
  | some (some us, cache1) ↦ elim (get_all_alloc_sites ps g fuel d cache1) [
    | none ↦ none
    | some (none, cache2) ↦ some (true, cache2)
    | some (some ds, cache2) ↦ some (any_of (λ a. member a ds) us, cache2)
  ]
]

module _ (l : Llvm) (ps : Pointers) (g : Graph) (no_alias : NoAlias) (fuel : ℕ) where
  -- mayClobber; `none` is a failed assertion or out of fuel.
  unfoldable pub may_clobber : (defn user : Pseudo) → Cache → Option (Bool × Cache)
  unfolding is_mem_init start_of offsets_apart share_sites
  may_clobber defn user cache = elim (is_mem_init defn.op) [
    | true ↦ some (true, cache)
    | false ↦ elim user.pointer [
      | none ↦ some (true, cache)
      | some up ↦ elim defn.pointer [
        | none ↦ some (true, cache)
        | some dp ↦ elim (start_of l g (ps.strip up)) [
          | none ↦ none
          | some u ↦ elim (start_of l g (ps.strip dp)) [
            | none ↦ none
            | some d ↦ elim (u.address == d.address) [
              | false ↦ none
              | true ↦
                  elim (offsets_apart (place_offset u) (place_offset d) user.bytes defn.bytes
                    || no_alias (ps.strip up) user.inst user.bytes (ps.strip dp) defn.inst
                        defn.bytes) [
                          | true ↦ some (false, cache)
                          | false ↦ share_sites ps g fuel (ps.strip up) (ps.strip dp) cache
                        ]
            ]
          ]
        ]
      ]
    ]
  ]

  -- The loop of solveUses over the definitions before a use, with `def` and `prevDef`.
  unfoldable pub find_def :
      ℕ
      → List (ℕ × MemOp)
      → (user : Pseudo) → (defn prev : Option ℕ) → Cache
      → Option (Option ℕ × Cache)
  unfolding may_clobber
  find_def zero ops user defnn prev cache = none
  find_def (suc k) ops user none prev cache = some (prev, cache)
  find_def (suc k) ops user (some d) prev cache = elim (lookup d ops) [
    | none ↦ none
    | some o ↦ elim (may_clobber o.call user cache) [
      | none ↦ none
      | some (true, cache') ↦ some (some d, cache')
      | some (false, cache') ↦ find_def k ops user o.used (some d) cache'
    ]
  ]

  -- solveUses, for the pseudo-instructions in the order of the function
  unfoldable pub solve_uses : ℕ → List ℕ → List (ℕ × MemOp) → Cache → Option (List (ℕ × MemOp))
  unfolding find_def is_mem_use
  solve_uses k [] ops cache = some ops
  solve_uses k (i ∷ is) ops cache = elim (lookup i ops) [
    | none ↦ none
    | some o ↦
        if not (is_mem_use o.call.op)
        then solve_uses k is ops cache
        else elim (find_def k ops o.call o.used none cache) [
          | none ↦ none
          | some (none, cache') ↦ solve_uses k is ops cache'
          | some (some d, cache') ↦ solve_uses k is (put i (record o { used = some d }) ops) cache'
        ]
  ]
