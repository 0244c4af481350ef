-- ===== src/ShadowMem/CallSite.antt =====
-- visitDsaCallSite of lib/seadsa/ShadowMem.cc: pseudo-instructions at a call, for the nodes of the
-- callee that the caller shares.
use sea_dsa.Common.{
  ℕ, Bool, false, not, ◌&&◌, ◌||◌, Option, none, some, List, [], ◌∷◌, lookup, member, map,
  if◌then◌else◌,
}
use sea_dsa.Common.Words.{add32}
use sea_dsa.Llvm.{Llvm}
use sea_dsa.Graph.{Node, CallSite, Graph, ok, fault, out_of_fuel}
use sea_dsa.Graph.Query.{Place, place}
use sea_dsa.Mapper.{Sim, get_simulator}
use sea_dsa.Global.Mapping.{compute_callee_caller_mapping}
use sea_dsa.ShadowMem.Fields.{
  ShadowMemInstOp, before, State, Target, get_offset, get_field_id, get_shadow, mk_indexed,
}
use sea_dsa.ShadowMem.Reach.{arg_reachable_nodes}

-- isRead and isModified of nodes, in a function: the marks of the node, or the sets of doReadMod.
pub record Effects : Type 0 where
  pub is_read : (fn node : ℕ) → Node → Bool
  pub is_modified : (fn node : ℕ) → Node → Bool

-- The offsets of a node that have shadow variables of their own. SplitFields is taken to be the
-- option that Target.split stands for.
unfoldable pub slices : Target → Node → List ℕ
slices t nd =
    if not t.split || nd.flags.offset_collapsed
    then 0 ∷ []
    else map (λ (o, ty). o) nd.accessed_types

module _ (l : Llvm) (t : Target) (fx : Effects) (fuel : ℕ) where
  -- markModRef, for the node `cn` of the callee and its cell in the caller
  unfoldable pub mark_mod_ref :
      (inst callee : ℕ)
      → (ret : List ℕ) → (cn : ℕ) → Node
      → Place
      → (idx : ℕ) → State
      → Option State
  unfolding get_shadow get_field_id mk_indexed
  mark_mod_ref i f ret cn nd p idx s =
      let s1 = get_shadow t p s in
      elim (get_field_id (t.pointer p.address) p.node.size (get_offset t p) s1.node_ids s1.max_id) [
        | none ↦ none
        | some (id, ids, max_id) ↦
            let s2 = record s1 { node_ids = ids; max_id = max_id } in
            if fx.is_read f cn nd && not (fx.is_modified f cn nd) && not (member cn ret)
            then mk_indexed t ShadowMemInstOp.arg_ref (before i) p idx s2
            else if fx.is_modified f cn nd
            then mk_indexed t
                (if member cn ret then ShadowMemInstOp.arg_new else ShadowMemInstOp.arg_mod)
                (before i) p idx s2
            else some s2
      ]

  -- The slices of one node; the result has the next index.
  mark_slices :
      (inst callee : ℕ)
      → (ret : List ℕ) → Sim
      → (cn : ℕ) → Node
      → List ℕ
      → (idx : ℕ) → State
      → Option (ℕ × State)
  unfolding get_simulator place mark_mod_ref
  mark_slices i f ret m cn nd [] idx s = some (idx, s)
  mark_slices i f ret m cn nd (o ∷ os) idx s =
      let c = get_simulator m cn in
      elim (place s.graph (record c { offset = add32 c.offset o })) [
        | none ↦ none
        | some p ↦ elim (mark_mod_ref i f ret cn nd p idx s) [
          | none ↦ none
          | some s' ↦ mark_slices i f ret m cn nd os (add32 idx 1) s'
        ]
      ]

  unfoldable pub mark_nodes :
      (inst callee : ℕ) → (ret : List ℕ) → Sim → Graph → List ℕ → (idx : ℕ) → State → Option State
  unfolding slices mark_slices
  mark_nodes i f ret m from [] idx s = some s
  mark_nodes i f ret m from (cn ∷ cns) idx s = elim (lookup cn from.nodes) [
    | none ↦ none
    | some nd ↦
        if not (fx.is_read f cn nd) && not (fx.is_modified f cn nd)
        then mark_nodes i f ret m from cns idx s
        else elim (mark_slices i f ret m cn nd (slices t nd) idx s) [
          | none ↦ none
          | some (idx', s') ↦ mark_nodes i f ret m from cns idx' s'
        ]
  ]

  -- visitDsaCallSite. A mapping that fails is cleared.
  unfoldable pub visit_dsa_call_site : (inst callee : ℕ) → Graph → State → Option State
  unfolding arg_reachable_nodes compute_callee_caller_mapping mark_nodes
  visit_dsa_call_site i f from s =
      let cs : CallSite = record {
        instruction = i;
        cell = none;
        cloned = false;
        callee = some f;
      } in
      elim (arg_reachable_nodes l from f) [
        | none ↦ none
        | some (reach, ret) ↦ elim (compute_callee_caller_mapping l fuel cs f from s.graph) [
          | fault ↦ none
          | out_of_fuel ↦ none
          | ok r g ↦
              let m : Sim = elim r [ none ↦ [] | some m' ↦ m' ] in
              mark_nodes i f ret m from reach 0 (record s { graph = g })
        ]
      ]
