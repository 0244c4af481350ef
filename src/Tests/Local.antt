-- ===== src/Tests/Local.antt =====
-- Runs of the local analysis, and the theorems on it at concrete inputs.
use sea_dsa.Common.{
  ℕ, ◌+◌, ◌*◌, ◌%◌, ◌^◌, ◌≡◌, refl, arith, Bool, true, false, Option, none, some, List, [], ◌∷◌,
  ◌==◌, if◌then◌else◌, member, is_some, not,
}
use sea_dsa.Llvm.{Llvm, Shape, Kind}
use sea_dsa.Graph.{Node, Run, ok, fault, out_of_fuel, empty_graph, load, modify}
use sea_dsa.Local.{Value, ConstantInt, Ir, Setup}
use sea_dsa.Local.Values.{components, has_pointer_ty, has_no_pointer_ty}
use sea_dsa.Local.Values.Pointers.{HasPointer, has_pointer_ty-HasPointer}
use sea_dsa.Local.Values.Nested.{has_pointer_ty-has_no_pointer_ty}
use sea_dsa.Local.Values.Ends.{has_pointer_ty_ends}
use sea_dsa.Local.Gep.{compute_gep_offset, compute_indexed_offset}
use sea_dsa.Local.Gep.Address.{address_delta, compute_gep_offset-address_delta}
use sea_dsa.Local.Gep.Indexed.{literal, fixed, compute_gep_offset-compute_indexed_offset}
use sea_dsa.Local.Spec.{SeadsaFn, get_sea_dsa_fn, is_sea_dsa_fn}
use sea_dsa.Local.Spec.Names.{get_sea_dsa_fn-is_sea_dsa_fn}
use sea_dsa.Local.Escape.{is_escaping_ptr_to_int}
use sea_dsa.Local.Escape.Exact.{IsEscaping, is_escaping_ptr_to_int-IsEscaping}
use sea_dsa.Local.Escape.Ends.{is_escaping_ptr_to_int_ends}
use sea_dsa.Local.Analysis.{run_on_function}
use sea_dsa.Tests.Toy.{toy}

-- Type 20 is a struct of a 4-byte integer and a pointer, type 30 an array of ten of them, type 40 a
-- pointer to that; type 50 is a pointer to a 4-byte integer.
abbrev shapes : ℕ → Shape
shapes t =
    if t == 20
    then Shape.struct (4 ∷ 50 ∷ [])
    else if t == 30
    then Shape.array 10 20
    else if t == 40
    then Shape.pointer 30 0
    else if t == 50
    then Shape.pointer 4 0
    else Shape.integer (8 * t)

abbrev machine : Llvm
machine = record toy { shape = shapes; element_offset = λ t i. 8 * i; type_aware = true }

-- Values from 100 on are the constants from 0 on.
abbrev constants : ℕ → Option ConstantInt
constants v = if v == 100 then literal 0 else if v == 101 then literal 1 else none

-- &p[0][i].pointer: the offset 8 and a multiple of the size of the struct.
gep_run : compute_gep_offset machine constants 40 (100 ∷ 7 ∷ 101 ∷ []) ≡ some (8, 20)
unfolding compute_gep_offset
gep_run = refl

compute_gep_offset-address_delta_example :
    (k : ℕ) × (address_delta machine constants (λ i. 3) 40 (100 ∷ 7 ∷ 101 ∷ []) % 2 ^ 64
      ≡ (8 + k * 20) % 2 ^ 64)
compute_gep_offset-address_delta_example =
    compute_gep_offset-address_delta machine constants (λ i. 3) (λ t. refl) 40 (100 ∷ 7 ∷ 101 ∷ [])
      8 20 gep_run

-- A type stored in 10 bytes and allocated in 16.
abbrev long_double : Llvm
long_double = record machine {
  store_size = λ t. if t == 11 then 10 else t;
  alloc_size = λ t. if t == 11 then 16 else t;
  shape = λ t. if t == 12 then Shape.pointer 11 0 else Shape.floating;
}

store_size_run :
    (compute_gep_offset long_double constants 12 (101 ∷ []) ≡ some (10, 0))
    × (address_delta long_double constants (λ i. 0) 12 (101 ∷ []) ≡ 16)
unfolding compute_gep_offset address_delta
store_size_run = (refl, refl)

compute_indexed_offset_example :
    compute_gep_offset machine literal 40 (0 ∷ 2 ∷ 1 ∷ [])
    ≡ fixed (compute_indexed_offset machine 30 (2 ∷ 1 ∷ []))
compute_indexed_offset_example =
    compute_gep_offset-compute_indexed_offset machine (λ t. refl) 40 30 0 (2 ∷ 1 ∷ []) refl refl

names_example : get_sea_dsa_fn "malloc" ≡ SeadsaFn.unknown
unfolding is_sea_dsa_fn
names_example = get_sea_dsa_fn-is_sea_dsa_fn "malloc" refl

pointer_run : has_pointer_ty machine 9 30 ≡ some true
unfolding has_pointer_ty
pointer_run = refl

no_pointer_run : has_no_pointer_ty machine 9 30 ≡ some false
unfolding has_no_pointer_ty
no_pointer_run = refl

has_pointer_ty_example :
    (true ≡ true → HasPointer machine 30) × (HasPointer machine 30 → true ≡ true)
has_pointer_ty_example = has_pointer_ty-HasPointer machine 9 30 true pointer_run

has_no_pointer_ty_example : true ≡ not false
has_no_pointer_ty_example =
    has_pointer_ty-has_no_pointer_ty machine 9 9 30 true false pointer_run no_pointer_run

abbrev types : List ℕ
types = 30 ∷ 20 ∷ 4 ∷ 50 ∷ []

types_closed :
    (t u : ℕ)
    → member t types ≡ true
    → member u (components machine t) ≡ true
    → member u types ≡ true
unfolding components
types_closed t u m n = ground arith

has_pointer_ty_ends_example : is_some (has_pointer_ty machine 10 30) ≡ true
unfolding components
has_pointer_ty_ends_example =
    has_pointer_ty_ends machine types types_closed 10 30 refl (omega arith)

-- A pointer argument 2 of the function 60, made an integer by 3, added to by 4 and stored by 5.
abbrev body : ℕ → Value
body v =
    if v == 3
    then Value.ptr_to_int 2
    else if v == 4
    then Value.add 3 101
    else if v == 5
    then Value.store 2 4
    else Value.other

abbrev code : Ir
code = record {
  value = body;
  type_of = λ v. if v == 2 then 50 else 4;
  name = λ v. "f";
  constant_int = constants;
  is_null_value = λ v. false;
  users = λ v. if v == 3 then 4 ∷ [] else if v == 4 then 5 ∷ [] else [];
  is_function_type = λ t. false;
  is_sized = λ t. true;
  type_bits = λ t. 8 * t;
  byte_pointer = 51;
  is_invoke = λ i. false;
  direct_callee = λ i. none;
  is_inline_asm = λ i. false;
  is_indirect_call = λ i. false;
  is_allocation_fn = λ i. false;
  returned_argument = λ i. none;
  is_declaration = λ f. false;
  return_does_not_alias = λ f. false;
  globals = [];
}

escape_run : is_escaping_ptr_to_int code 9 3 ≡ some true
unfolding is_escaping_ptr_to_int
escape_run = refl

is_escaping_ptr_to_int_example :
    (true ≡ true → IsEscaping code 3) × (IsEscaping code 3 → true ≡ true)
is_escaping_ptr_to_int_example = is_escaping_ptr_to_int-IsEscaping code 9 3 2 true refl escape_run

abbrev flow_values : List ℕ
flow_values = 3 ∷ 4 ∷ 5 ∷ []

flow_closed :
    (u w : ℕ)
    → member u flow_values ≡ true
    → member w (code.users u) ≡ true
    → member w flow_values ≡ true
flow_closed u w m n = ground arith

is_escaping_ptr_to_int_ends_example : is_some (is_escaping_ptr_to_int code 7 3) ≡ true
is_escaping_ptr_to_int_ends_example =
    is_escaping_ptr_to_int_ends code flow_values flow_closed 7 3 refl (omega arith)

abbrev setup : Setup
setup = record { wrappers = []; track_callsites = false; external_allocators = false }

abbrev target : Llvm
target = record machine {
  params = λ f. 2 ∷ [];
  kind = λ v. if v == 2 then Kind.argument else Kind.instruction;
}

-- Whether nodes are on the stack, modified, and escape as integers.
abbrev marks : List (ℕ × Node) → List (Bool × Bool × Bool)
marks [] = []
marks ((n, d) ∷ ns) = (d.flags.alloca, d.flags.modified, d.flags.ptrtoint) ∷ marks ns

abbrev outcome : Run (Unit {0}) → Option (List (Bool × Bool × Bool))
outcome (ok a g) = some (marks g.nodes)
outcome fault = none
outcome out_of_fuel = none

-- The argument gets a node, the store modifies it, and the conversion makes it escape.
function_run :
    outcome (run_on_function target code 12 setup 60 ((3 ∷ 4 ∷ 5 ∷ []) ∷ []) (empty_graph false))
    ≡ some ((true, true, true) ∷ [])
unfolding run_on_function load modify
function_run = refl
