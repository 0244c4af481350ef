-- ===== src/Tests/Closure.antt =====
-- A run of the closure over call sites, and the theorems on it at concrete inputs.
use sea_dsa.Common.{
  ℕ, ◌≡◌, refl, arith, true, false, Option, none, some, [], ◌∷◌, ◌==◌, ◌⊎◌, if◌then◌else◌,
}
use sea_dsa.NodeType.{reset}
use sea_dsa.FieldType.{mk_field, field_eq, type_eq}
use sea_dsa.Graph.{mk_node, modify, cell, CallSite, Graph, empty_graph}
use sea_dsa.Graph.Merge.{changed, merge_unique_scalars}
use sea_dsa.Graph.Merge.Walk.{Walk, merge_from}
use sea_dsa.Graph.Merge.Walk.Report.{step_of, merge_from-step_of}
use sea_dsa.Global.Worklist.{no_work}
use sea_dsa.Global.Worklist.Laws.{IsValid}
use sea_dsa.Global.Propagation.{Calls}
use sea_dsa.Global.Closure.{State, run_on_call_site, exec_callsite}
use sea_dsa.Global.Closure.Awake.{Wakes, run_on_call_site-Wakes}
use sea_dsa.Global.Closure.Callee.{WakesCallee, exec_callsite-WakesCallee}
use sea_dsa.Tests.Toy.{toy, plain, root}

-- Two nodes with a link from the first to the second, to which the global variable 1 points.
abbrev linked : Option ℕ → Option ℕ → Graph
linked s t = record (empty_graph false) {
  nodes = (0, record root { unique_scalar = s }) ∷ (1, record plain { unique_scalar = t }) ∷ [];
  values = (1, cell 0 0) ∷ [];
  next = 2;
}

-- The same without the scalar of the second node, which remembers that it had one.
abbrev dropped : Graph
dropped = record (linked (some 5) none) {
  nodes =
      (0, record root { unique_scalar = some 5 })
      ∷ (1, record plain { has_once_unique_scalar = true })
      ∷ [];
}

abbrev both : Walk
both = record { result = changed true true; seen = 1 ∷ 0 ∷ []; this = dropped; other = dropped }

-- The second nodes have different scalars, which are both dropped.
merge_run :
    merge_from toy (step_of true) 3 0 0 (linked (some 5) (some 6)) (linked (some 5) (some 7))
    ≡ some both
unfolding merge_from mk_field merge_unique_scalars field_eq type_eq
merge_run = refl

merge_from-step_of_example :
    ((both.result.this ≡ true) ⊎ (both.this ≡ linked (some 5) (some 6)))
    × ((both.result.other ≡ true) ⊎ (both.other ≡ linked (some 5) (some 7)))
merge_from-step_of_example =
    merge_from-step_of toy true 3 0 0 (linked (some 5) (some 6)) (linked (some 5) (some 7)) both
      merge_run

-- Call sites 3 and 7 call function 0 from function 2.
abbrev calls : Calls
calls = record {
  callee_has_body = λ e. true;
  caller = λ e. 2;
  callee = λ e. 0;
  uses = λ f. if f == 0 then 3 ∷ 7 ∷ [] else [];
  defs = λ f. if f == 2 then 3 ∷ 7 ∷ [] else [];
}

abbrev site : CallSite
site = record { instruction = 9; cell = none; cloned = false; callee = some 0 }

abbrev before : State
before = record {
  callee_graph = linked (some 5) (some 6);
  caller_graph = linked (some 5) (some 7);
  work = no_work;
}

abbrev after : State
after = record {
  callee_graph = dropped;
  caller_graph = dropped;
  work = record { queue = 3 ∷ 7 ∷ []; set = 3 ∷ 7 ∷ [] };
}

no_work-IsValid : IsValid no_work
no_work-IsValid = ((λ e. ground arith), refl)

site_run : run_on_call_site toy 3 (step_of true) calls 3 (cell 0 0) (cell 0 0) before ≡ some after
unfolding run_on_call_site mk_field merge_unique_scalars field_eq type_eq
site_run = refl

run_on_call_site-Wakes_example : Wakes calls 3 before after
run_on_call_site-Wakes_example =
    run_on_call_site-Wakes calls toy 3 true 3 (cell 0 0) (cell 0 0) before after no_work-IsValid
      site_run

-- Reading the global's cell leaves a node in the caller's graph that nothing leads to.
abbrev after_globals : State
after_globals = record after {
  caller_graph = record dropped {
    nodes =
        (0, record root { unique_scalar = some 5 })
        ∷ (1, record plain { has_once_unique_scalar = true })
        ∷ (
          2,
          record plain {
            flags = record reset { type_collapsed = true };
            size = 0;
            alloca_sites = 1 ∷ [];
          },
        )
        ∷ [];
    alloc_sites = (1, []) ∷ [];
    next = 3;
  };
}

callsite_run : exec_callsite toy 3 (step_of true) calls 3 site 0 before ≡ some after_globals
unfolding exec_callsite mk_node modify mk_field merge_unique_scalars field_eq type_eq
callsite_run = refl

exec_callsite-WakesCallee_example : WakesCallee calls 3 before after_globals
exec_callsite-WakesCallee_example =
    exec_callsite-WakesCallee calls toy 3 true 3 site before after_globals no_work-IsValid
      callsite_run
