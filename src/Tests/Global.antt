-- ===== src/Tests/Global.antt =====
-- Runs of worklists, the propagation loop and the injectivity test, and the theorems on them at
-- concrete inputs.
use sea_dsa.Common.{
  not, ℕ, zero, suc, ◌≤◌, ◌<◌, ◌≡◌, refl, arith, true, false, Option, none, some, List, [], ◌∷◌,
  ◌++◌, ◌==◌, ◌||◌, ◌⊎◌, if◌then◌else◌, member, length,
}
use sea_dsa.FieldType.{mk_field, mk_unknown}
use sea_dsa.Graph.{Graph, empty_graph}
use sea_dsa.Mapper.{Sim}
use sea_dsa.Mapper.Injective.{is_injective}
use sea_dsa.Mapper.Injective.Laws.{Counts, simulations, is_injective-times_in}
use sea_dsa.Global.Worklist.{WorkList, enqueue, dequeue}
use sea_dsa.Global.Worklist.Laws.{IsValid, enqueue-IsValid, dequeue-IsValid}
use sea_dsa.Global.Propagation.{PropagationKind, down, none_needed, Calls, done, propagation_loop}
use sea_dsa.Global.Propagation.Revisit.{IsSettled, visits, propagation_loop-IsSettled}
use sea_dsa.Global.Dependencies.{CallGraph, build_uses, build_defs}
use sea_dsa.Global.Dependencies.Complete.{Holds, build_uses-build_defs}
use sea_dsa.Tests.Toy.{plain}

abbrev two : WorkList
two = record { queue = 7 ∷ 3 ∷ []; set = 3 ∷ 7 ∷ [] }

two-IsValid : IsValid two
two-IsValid = ((λ e. ground arith), refl)

enqueue-IsValid_example :
    IsValid (enqueue two 5)
    × ((b : ℕ) → member b (enqueue two 5).queue ≡ ((5 == b) || member b two.queue))
    × ((rest : List ℕ) × ((enqueue two 5).queue ≡ two.queue ++ rest) × (length rest ≤ 1))
enqueue-IsValid_example = enqueue-IsValid two 5 two-IsValid

dequeue-IsValid_example :
    ((dequeue two ≡ none) × (two.queue ≡ []))
    ⊎ ((e : ℕ) × (w' : WorkList) × (dequeue two ≡ some (e, w'))
        × (two.queue ≡ e ∷ w'.queue)
        × IsValid w')
dequeue-IsValid_example = dequeue-IsValid two two-IsValid

-- Call sites 3 and 7 call function 0 from function 1. The state counts the propagations to come.
abbrev calls : Calls
calls = record {
  callee_has_body = λ e. true;
  caller = λ e. 1;
  callee = λ e. 0;
  uses = λ f. if f == 0 then 3 ∷ 7 ∷ [] else [];
  defs = λ f. if f == 0 then [] else 3 ∷ 7 ∷ [];
}

abbrev propagate : ℕ → ℕ → Option (PropagationKind × ℕ)
propagate e zero = some (none_needed, zero)
propagate e (suc s) = some (down, s)

loop_run :
    propagation_loop calls propagate 9 two 1
    ≡ done 0 ((7, down) ∷ (3, none_needed) ∷ (7, none_needed) ∷ [])
unfolding propagation_loop
loop_run = refl

propagation_loop-IsSettled_example :
    IsSettled calls ((7, down) ∷ (3, none_needed) ∷ (7, none_needed) ∷ [])
    × ((e : ℕ)
        → member e two.queue ≡ true
        → visits e ((7, down) ∷ (3, none_needed) ∷ (7, none_needed) ∷ []) ≡ true)
propagation_loop-IsSettled_example =
    propagation_loop-IsSettled calls propagate 9 two 1 0
      ((7, down) ∷ (3, none_needed) ∷ (7, none_needed) ∷ []) two-IsValid loop_run

-- Nodes 4 and 5 are simulated by node 0 at 0, which is modified.
abbrev simulation : Sim
simulation = (4, (0, mk_field 0 mk_unknown) ∷ []) ∷ (5, (0, mk_field 0 mk_unknown) ∷ []) ∷ []

abbrev modified_graph : Graph
modified_graph = record (empty_graph false) {
  nodes = (0, record plain { flags = record plain.flags { modified = true } }) ∷ [];
  next = 1;
}

injective_run : is_injective modified_graph true simulation ≡ some false
unfolding is_injective mk_field
injective_run = refl

is_injective-times_in_example :
    (false ≡ true → (n o : ℕ) → Counts modified_graph true n → simulations n o simulation ≤ 1)
    × (false ≡ false
        → (n : ℕ) × (o : ℕ) × Counts modified_graph true n × (1 < simulations n o simulation))
is_injective-times_in_example =
    is_injective-times_in modified_graph true simulation false injective_run

-- Function 1 calls function 2 at 3 and itself at 7; function 2 calls function 4, with no body, at 9.
abbrev program : CallGraph
program = record {
  has_body = λ f. not (f == 4);
  sites = λ f. if f == 1 then 3 ∷ 7 ∷ [] else if f == 2 then 9 ∷ [] else [];
  callee = λ e. if e == 3 then 2 else if e == 7 then 1 else 4;
}

dependencies_run :
    (build_uses program ((4 ∷ []) ∷ (2 ∷ []) ∷ (1 ∷ []) ∷ []) ≡ (2, 3 ∷ []) ∷ (1, 7 ∷ []) ∷ [])
    × (build_defs program ((4 ∷ []) ∷ (2 ∷ []) ∷ (1 ∷ []) ∷ [])
        ≡ (2, 9 ∷ []) ∷ (1, 3 ∷ 7 ∷ []) ∷ [])
unfolding build_uses build_defs
dependencies_run = (refl, refl)

build_uses-build_defs_example :
    Holds program (build_defs program ((4 ∷ []) ∷ (2 ∷ []) ∷ (1 ∷ []) ∷ [])) 1 3
    × Holds program (build_uses program ((4 ∷ []) ∷ (2 ∷ []) ∷ (1 ∷ []) ∷ [])) 2 3
build_uses-build_defs_example =
    build_uses-build_defs program ((4 ∷ []) ∷ (2 ∷ []) ∷ (1 ∷ []) ∷ []) 3 1 refl refl refl refl refl
