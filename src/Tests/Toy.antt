-- ===== src/Tests/Toy.antt =====
-- A toy LLVM, and small graphs for the runs and the examples.
use sea_dsa.Common.{ℕ, ◌+◌, ◌*◌, ◌==◌, if◌then◌else◌, true, false, none, [], ◌∷◌}
use sea_dsa.Llvm.{Llvm, Shape, Kind}
use sea_dsa.NodeType.{reset}
use sea_dsa.FieldType.{Field, mk_unknown, mk_field}
use sea_dsa.Graph.{cell, null_cell, Node, Graph, empty_graph}

-- Type t is an integer of 8 * t bits; value 1 is a global variable, any other value an instruction.
abbrev pub toy : Llvm
toy = record {
  shape = λ t. Shape.integer (8 * t);
  pointer_to = λ t s. 100 + t;
  alloc_size = λ t. t;
  store_size = λ t. t;
  primitive_bits = λ t. 8 * t;
  element_offset = λ t i. 0;
  kind = λ v. if v == 1 then Kind.variable else Kind.instruction;
  strip = λ v. v;
  called_operand = λ v. v;
  aliasee = λ v. v;
  parent_function = λ v. 0;
  is_pointer_value = λ v. true;
  params = λ f. [];
  arguments = λ c. [];
  type_aware = false;
  omnipotent_char = true;
}

abbrev pub plain : Node
plain = record {
  flags = reset;
  unique_scalar = none;
  has_once_unique_scalar = false;
  forward = null_cell;
  accessed_types = [];
  links = [];
  size = 4;
  alloca_sites = [];
}

-- An array of `n` bytes.
abbrev pub array : ℕ → Node
array n = record plain { flags = record reset { array = true }; size = n }

-- A node that begins in node `n` at `o`.
abbrev pub forwarding : ℕ → ℕ → Node
forwarding n o = record plain { forward = cell n o; size = 0 }

abbrev pub field : ℕ → Field
field o = mk_field o mk_unknown

-- Node 0 forwards to node 1 at 2, and node 1 to node 2 at 4.
abbrev pub chain : Graph
chain = record (empty_graph false) {
  nodes = (0, forwarding 1 2) ∷ (1, forwarding 2 4) ∷ (2, plain) ∷ [];
  values = (1, cell 2 0) ∷ (5, cell 0 1) ∷ [];
  next = 3;
}

abbrev pub root : Node
root = record plain { links = (field 0, cell 1 0) ∷ [] }

-- Value 5 points to node 0, which links to node 1; nothing leads to node 2.
abbrev pub garden : Graph
garden = record (empty_graph false) {
  nodes = (0, root) ∷ (1, plain) ∷ (2, plain) ∷ [];
  values = (5, cell 0 0) ∷ [];
  next = 3;
}
