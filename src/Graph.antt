-- ===== src/Graph.antt =====
-- include/seadsa/Graph.hh and lib/seadsa/Graph.cc: the state of a graph, and commands on it.
-- A node is named by its address in `nodes`, which stands for m_nodes in the order of creation;
-- a lookup that fails is a dangling pointer. The fields left out are the allocator, the data layout
-- and the set factory (services of libraries), and a node's m_id, which only printing reads.
pub mod Resolve
pub mod Offset
pub mod Types
pub mod Link
pub mod Unify
pub mod Table
pub mod Compress
pub mod Dead
pub mod Remove
pub mod Merge
pub mod Query
use sea_dsa.Common.{
  ℕ, suc, Bool, true, false, Option, none, some, List, [], ◌∷◌, ◌++◌, lookup, put, if◌then◌else◌,
  is_some, not,
}
use sea_dsa.Llvm.{Llvm}
use sea_dsa.FieldType.{Field}
use sea_dsa.NodeType.{NodeType, reset}

-- `node` is a null pointer in the null cell
pub record Cell : Type 0 where
  pub node : Option ℕ
  pub offset : ℕ

abbrev pub null_cell : Cell
null_cell = record { node = none; offset = 0 }

abbrev pub cell : ℕ → ℕ → Cell
cell n o = record { node = some n; offset = o }

abbrev pub is_null : Cell → Bool
is_null c = not (is_some c.node)

pub record Node : Type 0 where
  pub flags : NodeType
  pub unique_scalar : Option ℕ
  pub has_once_unique_scalar : Bool
  -- where the node begins in another one, when it is forwarding
  pub forward : Cell
  pub accessed_types : List (ℕ × List ℕ)
  pub links : List (Field × Cell)
  pub size : ℕ
  pub alloca_sites : List ℕ

-- m_allocSites with m_valueToAllocSite: one site for a value, with the call paths of the site
pub data StepKind : Type 0 where
  local bottom_up top_down : StepKind

abbrev pub CallPath : Type 0
CallPath = List (StepKind × ℕ)

-- m_callSites with m_instructionToCallSite: one for an instruction
pub record CallSite : Type 0 where
  pub instruction : ℕ
  pub cell : Option Cell
  pub cloned : Bool
  pub callee : Option ℕ

pub record Graph : Type 0 where
  pub nodes : List (ℕ × Node)
  pub values : List (ℕ × Cell)
  pub formals : List (ℕ × Cell)
  pub returns : List (ℕ × Cell)
  pub alloc_sites : List (ℕ × List CallPath)
  pub call_sites : List (ℕ × CallSite)
  pub is_flat : Bool
  -- the address of the next node
  pub next : ℕ

-- Graph::Graph
abbrev pub empty_graph : Bool → Graph
empty_graph flat = record {
  nodes = [];
  values = [];
  formals = [];
  returns = [];
  alloc_sites = [];
  call_sites = [];
  is_flat = flat;
  next = 0;
}

-- `fault` is a failed assertion or a dangling pointer.
pub data Run (A : Type 0) : Type 0 where
  ok : A → Graph → Run A
  fault : Run A
  out_of_fuel : Run A

abbrev pub M : Type 0 → Type 0
M A = Graph → Run A

abbrev pub pure : {A : Type 0} → A → M A
pure = ok

abbrev pub skip : M (Unit {0})
skip = ok tt

module _ {A B : Type 0} where
  abbrev pub and_then : Run A → (A → M B) → Run B
  and_then (ok a g) k = k a g
  and_then fault k = fault
  and_then out_of_fuel k = out_of_fuel

  infixl 5 ◌>>=◌ ◌>>◌
  abbrev pub ◌>>=◌ : M A → (A → M B) → M B
  m >>= k = λ g. and_then (m g) k

  abbrev pub ◌>>◌ : M A → M B → M B
  m >> n = m >>= λ _. n

abbrev pub fail : {A : Type 0} → M A
fail g = fault

abbrev pub assert : Bool → M (Unit {0})
assert b g = if b then ok tt g else fault

abbrev pub when : Bool → M (Unit {0}) → M (Unit {0})
when b m = λ g. if b then m g else ok tt g

-- for (auto &x : xs) body(x)
abbrev pub for_each : {A : Type 0} → (A → M (Unit {0})) → List A → M (Unit {0})
for_each body [] g = ok tt g
for_each body (x ∷ xs) g = and_then (body x g) (λ _. for_each body xs)

-- *n
unfoldable pub load : ℕ → M Node
load n g = elim (lookup n g.nodes) [ none ↦ fault | some nd ↦ ok nd g ]

abbrev pub set_node : ℕ → Node → Graph → Graph
set_node n nd g = record g { nodes = put n nd g.nodes }

unfoldable pub modify : ℕ → (Node → Node) → M (Unit {0})
unfolding load
modify n f = do nd ← load n; λ g. ok tt (set_node n (f nd) g)

abbrev pub is_forwarding : Node → Bool
is_forwarding nd = not (is_null nd.forward)

-- The pointer of a cell that must not be null.
unfoldable pub deref : Cell → M ℕ
deref c g = elim c.node [ none ↦ fault | some n ↦ ok n g ]

-- Node::Node(Graph &)
unfoldable pub fresh_node : Llvm → Node
fresh_node l = record {
  flags = record reset { type_collapsed = not l.type_aware };
  unique_scalar = none;
  has_once_unique_scalar = false;
  forward = null_cell;
  accessed_types = [];
  links = [];
  size = 0;
  alloca_sites = [];
}

abbrev pub push_node : Node → M ℕ
push_node nd g = ok g.next (record g { nodes = g.nodes ++ (g.next, nd) ∷ []; next = suc g.next })

last_node : List (ℕ × Node) → Option ℕ
last_node [] = none
last_node ((n, nd) ∷ []) = some n
last_node (p ∷ q ∷ ns) = last_node (q ∷ ns)

-- Graph::mkNode, and FlatGraph::mkNode in a flat graph, which makes one node only
unfoldable pub mk_node : Llvm → M ℕ
unfolding fresh_node last_node
mk_node l g =
    if g.is_flat
    then elim (last_node g.nodes) [ none ↦ push_node (fresh_node l) g | some n ↦ ok n g ]
    else push_node (fresh_node l) g
