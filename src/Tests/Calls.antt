-- ===== src/Tests/Calls.antt =====
-- A run of the resolution of indirect calls, and the theorems on it at concrete inputs. A call graph
-- is a function here.
use sea_dsa.Common.{
  ℕ, zero, suc, ◌≡◌, refl, ap, true, false, ◌||◌, ◌⊎◌, none, some, List, [], ◌∷◌, ◌++◌, ◌==◌,
  ==_refl, member, length, count_if, if◌then◌else◌,
}
use sea_dsa.Llvm.{Llvm, Kind}
use sea_dsa.Graph.{load, modify, cell, Graph, M, ok, empty_graph}
use sea_dsa.Cloner.{Options}
use sea_dsa.CompleteCallGraph.{CallRecord, CallGraphOps, HasLaws, Program, Graphs, last_first}
use sea_dsa.CompleteCallGraph.Edges.{State, has_edge, add_edges}
use sea_dsa.CompleteCallGraph.Edges.Exact.{asks, settles, in_graphs}
use sea_dsa.CompleteCallGraph.Edges.Whole.{add_edges-Adds}
use sea_dsa.CompleteCallGraph.Loop.{change_loop}
use sea_dsa.CompleteCallGraph.Loop.Fixpoint.{IsClosed, change_loop-IsClosed}
use sea_dsa.CompleteCallGraph.Prune.{prune_function}
use sea_dsa.CompleteCallGraph.Prune.Exact.{stays, count_if-prune_function}
use sea_dsa.Tests.Toy.{toy, plain}

abbrev Records : Type 0
Records = ℕ → List CallRecord

abbrev remove_at : ℕ → List CallRecord → List CallRecord
remove_at i [] = []
remove_at zero (r ∷ rs) = last_first rs
remove_at (suc i) (r ∷ rs) = r ∷ remove_at i rs

abbrev ops : CallGraphOps Records
ops = record {
  records = λ g f. g f;
  add_called_function = λ g f s c h.
      if f == h then g h ++ record { has_call = true; site = s; callee = some c } ∷ [] else g h;
  remove_call_edge_for = λ g f s. g;
  remove_call_edge = λ g f i h. if f == h then remove_at i (g h) else g h;
}

remove_at-length :
    (before : List CallRecord) (r : CallRecord) (after : List CallRecord)
    → remove_at (length before) (before ++ (r ∷ after)) ≡ before ++ last_first after
remove_at-length [] r after = refl
remove_at-length (x ∷ before) r after = ap (λ xs. x ∷ xs) (remove_at-length before r after)

ops-HasLaws : HasLaws Records ops
ops-HasLaws = record {
  records_add = λ g f s c h. refl;
  records_remove = λ g f before r after is. rw (==_refl f, is) (remove_at-length before r after);
  records_remove_other = λ g f i h e. rw e;
}

-- Value 20 is a function, and every instruction is in function 2, which is main.
abbrev llvm : Llvm
llvm = record toy {
  kind = λ v. if v == 20 then Kind.function else Kind.instruction;
  parent_function = λ v. 2;
}

abbrev program : Program
program = record {
  has_body = λ f. f == 2;
  is_main = λ f. f == 2;
  name_lt = λ f g. false;
  unique_return = λ f. none;
  is_indirect_call = λ i. i == 9;
  is_legal_to_promote = λ i f. true;
  strip_aliases = λ v. v;
}

-- Call 9 goes through a pointer to function 20.
abbrev caller : Graph
caller = record (empty_graph false) {
  nodes = (0, record plain { alloca_sites = 20 ∷ [] }) ∷ [];
  call_sites =
      (9, record { instruction = 9; cell = some (cell 0 0); cloned = false; callee = none }) ∷ [];
  next = 1;
}

abbrev graphs : Graphs
graphs = record { owner = (2, 2) ∷ []; store = (2, caller) ∷ [] }

abbrev external : CallRecord
external = record { has_call = true; site = 9; callee = none }

abbrev start : State Records
start = record {
  cg = λ f. if f == 2 then external ∷ [] else [];
  callees = [];
  resolved = [];
  change = true;
}

abbrev with_edge : State Records
with_edge = record {
  cg = ops.add_called_function start.cg 2 9 20;
  callees = (9, 20 ∷ []) ∷ [];
  resolved = 9 ∷ [];
  change = true;
}

edges_run : add_edges llvm program Records ops graphs start ≡ some with_edge
unfolding add_edges
edges_run = refl

add_edges-Adds_example :
    ((h d t : ℕ)
      → has_edge ops with_edge.cg h d t ≡ (
          has_edge ops start.cg h d t
          || in_graphs graphs (λ fn g cs. asks llvm program fn g h d t cs) graphs.owner))
    × ((t : ℕ)
        → member t with_edge.resolved ≡ (
            member t start.resolved
            || in_graphs graphs (λ fn g cs. settles llvm program fn g t cs) graphs.owner))
    × ((with_edge.change ≡ true) ⊎ (with_edge.cg ≡ start.cg))
add_edges-Adds_example =
    add_edges-Adds llvm program Records ops ops-HasLaws graphs start with_edge edges_run

abbrev options : Options
options = record {
  strip_allocas = false;
  no_single_as = false;
  same_graph = false;
  tracked = λ v. false;
  is_constant_no_ptr = λ v. false;
  uninitialised = false;
}

abbrev local : ℕ → M (Unit {0})
local f g = ok tt caller

abbrev empty : Graphs
empty = record { owner = (2, 2) ∷ []; store = (2, empty_graph false) ∷ [] }

abbrev final : State Records
final = record with_edge { change = false }

-- The first pass adds the edge, and the second one finds nothing more.
loop_run :
    change_loop llvm program 5 options false local Records ops
      (λ g. (2 ∷ []) ∷ [])
      3
      true
      (empty, start)
    ≡ some (graphs, final)
unfolding change_loop load modify
loop_run = refl

change_loop-IsClosed_example :
    IsClosed llvm program 5 options false local Records ops ops-HasLaws
      (λ g. (2 ∷ []) ∷ [])
      start.cg
      graphs
      final
change_loop-IsClosed_example =
    change_loop-IsClosed llvm program 5 options false local Records ops ops-HasLaws
      (λ g. (2 ∷ []) ∷ []) 3 true empty graphs start final loop_run

-- The edge to the external node goes, and the new one stays.
prune_run :
    prune_function program Records ops (9 ∷ []) 2 final.cg 2
    ≡ record { has_call = true; site = 9; callee = some 20 } ∷ []
unfolding prune_function
prune_run = refl

count_if-prune_function_example :
    (count_if
        (λ (r : CallRecord). r.site == 9)
        (ops.records (prune_function program Records ops (9 ∷ []) 2 final.cg) 2)
      ≡ count_if (stays program Records ops ops-HasLaws (9 ∷ []) 2 (λ r. r.site == 9)) (final.cg 2))
    × ((h : ℕ)
        → (2 == h) ≡ false
        → ops.records (prune_function program Records ops (9 ∷ []) 2 final.cg) h ≡ final.cg h)
count_if-prune_function_example =
    count_if-prune_function program Records ops ops-HasLaws (9 ∷ []) 2 (λ r. r.site == 9) final.cg
