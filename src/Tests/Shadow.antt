-- ===== src/Tests/Shadow.antt =====
-- Runs of the shadow memory pass, and its theorems at concrete inputs.
use sea_dsa.Common.{
  ℕ, ◌≡◌, ◌⊎◌, ◌↔◌, refl, arith, inl, inr, subst, true, false, Bool-cases, Option, none, some, List,
  [], ◌∷◌, ◌==◌, lookup, member, map,
}
use sea_dsa.Graph.{cell, Node, Graph, mk_node, modify}
use sea_dsa.Graph.Dead.{targets}
use sea_dsa.Graph.Dead.Walk.{roots, IsResolved}
use sea_dsa.Graph.Dead.Reach.{AllPresent}
use sea_dsa.Graph.Dead.Round.{IsCompressed}
use sea_dsa.ShadowMem.Fields.{ShadowMemInstOp, State, Target, get_field_id}
use sea_dsa.ShadowMem.Fields.Apart.{IsApart, IsAssigned, get_field_id-IsAssigned}
use sea_dsa.ShadowMem.Reach.Starts.{Given, Returned}
use sea_dsa.ShadowMem.Reach.{arg_reachable_nodes}
use sea_dsa.ShadowMem.Reach.Exact.{Leads, arg_reachable_nodes-Leads}
use sea_dsa.ShadowMem.CallSite.{Effects}
use sea_dsa.ShadowMem.Visit.{Inst}
use sea_dsa.ShadowMem.Function.{Body, run_on_function}
use sea_dsa.Tests.Toy.{toy, plain, root, garden}

-- The global 1 leads to nodes 0 and 1; function 9 returns a pointer to node 2, and value 5 is local.
abbrev yard : Graph
yard = record garden {
  values = (1, cell 0 0) ∷ (5, cell 1 0) ∷ (6, cell 2 0) ∷ [];
  returns = (9, cell 2 0) ∷ [];
}

abbrev Links : Node → Type 0
Links nd = (ts : List ℕ) × (targets yard nd.links ≡ some ts) × AllPresent yard ts

yard-Links : (n : ℕ) (nd : Node) → lookup n yard.nodes ≡ some nd → Links nd
unfolding targets
yard-Links n nd h = elim (Bool-cases (n == 0)) [
  | inl first ↦ let e : root ≡ nd = ground arith in subst Links e (1 ∷ [], refl, (refl, tt))
  | inr rest ↦ let e : plain ≡ nd = ground arith in subst Links e ([], refl, tt)
]

yard-IsResolved : IsResolved yard
yard-IsResolved n nd h = ground arith

yard-IsCompressed : IsCompressed yard
unfolding roots targets
yard-IsCompressed = record {
  resolved = yard-IsResolved;
  root_list = 0 ∷ 1 ∷ 2 ∷ 2 ∷ [];
  roots_end = refl;
  roots_present = (refl, (refl, (refl, (refl, tt))));
  links_end = yard-Links;
}

arg_reachable_nodes-Leads_example :
    (reach new : List ℕ) × (arg_reachable_nodes toy yard 9 ≡ some (reach, new))
    × ((x : ℕ)
        → (member x reach ≡ true)
          ↔ (Leads yard (Given toy yard 9) x ⊎ Leads yard (Returned yard 9) x))
    × ((x : ℕ)
        → (member x new ≡ true)
          ↔ (Leads yard (Returned yard 9) x × (Leads yard (Given toy yard 9) x → ⊥)))
arg_reachable_nodes-Leads_example = arg_reachable_nodes-Leads toy yard 9 yard-IsCompressed

-- Node 3 has four numbers from 2 on.
abbrev sizes : ℕ → ℕ
sizes n = 4

abbrev numbers : List (ℕ × ℕ)
numbers = (3, 2) ∷ []

numbers-IsApart : IsApart sizes numbers 6
numbers-IsApart = record {
  below = λ n i h. elim (Bool-cases (n == 3)) [ inl e ↦ ground arith | inr e ↦ ground arith ];
  apart = λ n m i j h h' ne. elim (Bool-cases (n == 3)) [
    | inl e ↦ elim (Bool-cases (m == 3)) [ inl f ↦ ground arith | inr f ↦ ground arith ]
    | inr e ↦ ground arith
  ];
}

get_field_id-IsAssigned_example :
    (id : ℕ) × (ids' : List (ℕ × ℕ)) × (max_id' : ℕ) × (get_field_id 7 4 1 numbers 6
      ≡ some (id, ids', max_id'))
    × IsAssigned sizes 7 1 numbers id ids' max_id'
get_field_id-IsAssigned_example =
    get_field_id-IsAssigned sizes 7 1 numbers 6 numbers-IsApart (omega arith) (omega arith)

abbrev target : Target
target = record { is_scalar_global = λ v. false; split = false; pointer = λ n. n }

-- Node 0 is modified and node 2 is read.
abbrev marks : Effects
marks = record { is_read = λ f n nd. n == 2; is_modified = λ f n nd. n == 0 }

abbrev start : State
start = record { graph = yard; node_ids = []; max_id = 0; shadows = []; made = [] }

abbrev body : Body
body = record {
  fn = 9;
  instructions = Inst.store 20 1 4 ∷ Inst.load 21 6 4 ∷ Inst.other ∷ [];
  returns = true;
  globals = none;
}

abbrev made : Option State → Option (List (ShadowMemInstOp × ℕ))
made none = none
made (some s) = some (map (λ p. (p.op, p.id)) s.made)

-- Node 2 is only returned, so that it has no value on entry.
run_ends :
    made (run_on_function toy target true marks 9 body start)
    ≡ some (
        (ShadowMemInstOp.store, 0)
        ∷ (ShadowMemInstOp.load, 4)
        ∷ (ShadowMemInstOp.arg_init, 0)
        ∷ (ShadowMemInstOp.arg_init, 4)
        ∷ (ShadowMemInstOp.fun_in, 0)
        ∷ (ShadowMemInstOp.fun_out, 0)
        ∷ [])
unfolding run_on_function mk_node modify
run_ends = refl
