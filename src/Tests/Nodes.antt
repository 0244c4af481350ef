-- ===== src/Tests/Nodes.antt =====
-- The theorems on marks, fields and pairs of nodes at concrete inputs.
use sea_dsa.Common.{ℕ, ◌≡◌, ◌==◌, refl, arith, true, false, some, [], ◌∷◌, lookup}
use sea_dsa.Llvm.{Llvm}
use sea_dsa.NodeType.{NodeType, reset}
use sea_dsa.NodeType.Laws.{IsConsistent}
use sea_dsa.FieldType.{Field, mk_field, mk_omni_type, type_eq}
use sea_dsa.FieldType.Order.{IsStrictOrder, field_lt_order}
use sea_dsa.Graph.{Cell, cell, Node, Graph, empty_graph, ok}
use sea_dsa.Graph.Offset.{has_link, get_link, set_link}
use sea_dsa.Graph.Offset.Links.{SamePlace, get_link-set_link}
use sea_dsa.Graph.Unify.{plan, embed_here, swap}
use sea_dsa.Graph.Unify.Decision.{Fits, plan-Fits}
use sea_dsa.Color.{new_color}
use sea_dsa.Mapper.{embeds}
use sea_dsa.Mapper.Embedding.{embeds-Fits}
use sea_dsa.Tests.Toy.{toy, plain, array, field}

abbrev heap_array : NodeType
heap_array = record reset { heap = true; array = true }

abbrev collapsed_marks : NodeType
collapsed_marks = record reset { offset_collapsed = true; foreign = true }

abbrev collapsed : Node
collapsed = record plain { flags = collapsed_marks; size = 1 }

array-IsConsistent : IsConsistent heap_array
array-IsConsistent = record { exclusive = refl }

field_lt_order_example : IsStrictOrder toy (field 4) (mk_field 4 mk_omni_type) (field 8)
field_lt_order_example = field_lt_order toy (field 4) (mk_field 4 mk_omni_type) (field 8)

short-IsConsistent : IsConsistent (array 4).flags
short-IsConsistent = record { exclusive = refl }

long-IsConsistent : IsConsistent (array 8).flags
long-IsConsistent = record { exclusive = refl }

collapsed-IsConsistent : IsConsistent collapsed.flags
collapsed-IsConsistent = record { exclusive = refl }

-- An array of 8 bytes at offset 4 of an array of 4 bytes, that is, at 0.
fits_now : plan (array 4) (array 8) 4 ≡ embed_here
unfolding plan
fits_now = refl

plan-Fits_example : Fits (array 4) (array 8) 4
plan-Fits_example = plan-Fits (array 4) (array 8) 4 short-IsConsistent long-IsConsistent fits_now

swaps_now : plan (array 8) (array 4) 0 ≡ swap
unfolding plan
swaps_now = refl

abbrev scalar_of : ℕ → Node
scalar_of v = record plain { unique_scalar = some v }

embeds_now : embeds (array 8) (array 4) 4 ≡ true
unfolding embeds
embeds_now = refl

embeds-Fits_example : Fits (array 4) (array 8) 4
embeds-Fits_example =
    embeds-Fits (array 8) (array 4) 4 long-IsConsistent short-IsConsistent (omega arith) embeds_now

-- 0xABCDEF has the three high bits, and 0x012345 gets them.
new_color_runs : (new_color 0xABCDEF ≡ 0xABCDEF) × (new_color 0x12345 ≡ 0x81A3C5)
unfolding new_color
new_color_runs = (refl, refl)

abbrev aware : Llvm
aware = record toy { type_aware = true }

-- Node 0 is an array of 8 bytes, so 12 and 4 are one place.
abbrev board : Graph
board = record (empty_graph false) { nodes = (0, array 8) ∷ (1, plain) ∷ []; next = 2 }

abbrev stored : Field
stored = mk_field 12 mk_omni_type

get_link-set_link_example :
    (h : Graph) × (set_link aware 0 stored (cell 1 0) board ≡ ok tt h)
    × ((m : ℕ) → (0 == m) ≡ false → lookup m h.nodes ≡ lookup m board.nodes)
    × (SamePlace (array 8) 4 12
        → type_eq aware (field 4).type stored.type ≡ true
        → get_link aware 0 (field 4) h ≡ ok (cell 1 0) h)
    × (SamePlace (array 8) 4 12
        → true ≡ true
        → true ≡ true
        → (field 4).type.is_omni ≡ false
        → has_link aware 0 (field 4) board ≡ ok false board
        → get_link aware 0 (field 4) h ≡ ok (cell 1 0) h)
    × (¬ (SamePlace (array 8) 4 12)
        → (d : Cell) → get_link aware 0 (field 4) board ≡ ok d board
        → get_link aware 0 (field 4) h ≡ ok d h)
unfolding mk_field
get_link-set_link_example =
    get_link-set_link aware board 0 (array 8) stored (field 4) (cell 1 0) refl refl
      (λ a b e. absurd (omega (arith, e))) refl
