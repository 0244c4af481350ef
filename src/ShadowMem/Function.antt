-- ===== src/ShadowMem/Function.antt =====
-- runOnFunction of lib/seadsa/ShadowMem.cc, up to the promotion of the shadow variables to registers,
-- which LLVM does.
use sea_dsa.Common.{
  ℕ, Bool, not, ◌&&◌, ◌||◌, Option, none, some, List, [], ◌∷◌, lookup, member, if◌then◌else◌,
}
use sea_dsa.Common.Words.{add32}
use sea_dsa.Llvm.{Llvm}
use sea_dsa.Graph.{cell, Node}
use sea_dsa.Graph.Query.{Place, place}
use sea_dsa.ShadowMem.Fields.{
  ShadowMemInstOp, exit, State, Target, insert_shadow, mk_indexed, mk_alloc_init,
}
use sea_dsa.ShadowMem.Reach.{arg_reachable_nodes}
use sea_dsa.ShadowMem.CallSite.{Effects, slices}
use sea_dsa.ShadowMem.Visit.{Inst, visit_all, visit_globals}

-- A function with a body: its instructions in the order in which they are visited, whether it
-- returns, and, for main, the globals with the sizes of their types.
pub record Body : Type 0 where
  pub fn : ℕ
  pub instructions : List Inst
  pub returns : Bool
  pub globals : Option (List (ℕ × ℕ))

module _ (l : Llvm) (t : Target) (alloc_is_def : Bool) (fx : Effects) (fuel : ℕ) where
  -- Does something at each slice of a node; the result has the next index.
  unfoldable pub each_slice :
      (Place → (idx : ℕ) → State → Option State)
      → (n : ℕ) → List ℕ
      → (idx : ℕ) → State
      → Option (ℕ × State)
  unfolding place
  each_slice k n [] idx s = some (idx, s)
  each_slice k n (o ∷ os) idx s = elim (place s.graph (cell n o)) [
    | none ↦ none
    | some p ↦ elim (k p idx s) [ none ↦ none | some s' ↦ each_slice k n os (add32 idx 1) s' ]
  ]

  -- The loops over the nodes that escape, for those that the function reads or modifies.
  unfoldable pub each_escaping :
      (fn : ℕ)
      → ((n : ℕ) → Node → Place → (idx : ℕ) → State → Option State)
      → List ℕ
      → (idx : ℕ) → State
      → Option State
  unfolding each_slice slices
  each_escaping f k [] idx s = some s
  each_escaping f k (n ∷ ns) idx s = elim (lookup n s.graph.nodes) [
    | none ↦ none
    | some nd ↦
        if not (fx.is_read f n nd) && not (fx.is_modified f n nd)
        then each_escaping f k ns idx s
        else elim (each_slice (k n nd) n (slices t nd) idx s) [
          | none ↦ none
          | some (idx', s') ↦ each_escaping f k ns idx' s'
        ]
  ]

  -- The initial values of the shadow variables.
  unfoldable pub alloc_inits : (reach : List ℕ) → List (ℕ × ℕ) → State → Option State
  unfolding place mk_alloc_init
  alloc_inits reach [] s = some s
  alloc_inits reach ((n, o) ∷ vs) s = elim (place s.graph (cell n o)) [
    | none ↦ none
    | some p ↦
        elim (mk_alloc_init t
          (if member n reach then ShadowMemInstOp.arg_init else ShadowMemInstOp.init) p s) [
            | none ↦ none
            | some s' ↦ alloc_inits reach vs s'
          ]
  ]

  -- markInOut
  unfoldable pub mark_in_out :
      (fn : ℕ) → (ret : List ℕ) → (n : ℕ) → Node → Place → (idx : ℕ) → State → Option State
  unfolding mk_indexed
  mark_in_out f ret n nd p idx s =
      let in' =
        if (fx.is_read f n nd || fx.is_modified f n nd) && not (member n ret)
        then mk_indexed t ShadowMemInstOp.fun_in exit p idx s
        else some s in
      elim in' [
        | none ↦ none
        | some s' ↦
            if fx.is_modified f n nd
            then mk_indexed t ShadowMemInstOp.fun_out exit p idx s'
            else some s'
      ]

  -- runOnFunction of a function that has a graph, with m_shadows cleared
  unfoldable pub run_on_function : Body → State → Option State
  unfolding visit_globals visit_all arg_reachable_nodes each_escaping alloc_inits mark_in_out
  run_on_function b s0 =
      let s1 = record s0 { shadows = [] } in
      let visited : Option State = elim b.globals [
        | none ↦ some s1
        | some vs ↦ visit_globals l t alloc_is_def fx fuel vs s1
      ] in
      elim visited [
        | none ↦ none
        | some s2 ↦ elim (visit_all l t alloc_is_def fx fuel b.instructions s2) [
          | none ↦ none
          | some s3 ↦ elim (arg_reachable_nodes l s3.graph b.fn) [
            | none ↦ none
            | some (reach, ret) ↦
                elim (each_escaping b.fn
                  (λ n nd p idx s. some (record s { shadows = insert_shadow (n, p.raw) s.shadows }))
                  reach 0 s3) [
                    | none ↦ none
                    | some s4 ↦ elim (alloc_inits reach s4.shadows s4) [
                      | none ↦ none
                      | some s5 ↦
                          if b.returns
                          then each_escaping b.fn (mark_in_out b.fn ret) reach 0 s5
                          else some s5
                    ]
                  ]
          ]
        ]
      ]
