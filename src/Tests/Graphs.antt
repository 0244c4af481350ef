-- ===== src/Tests/Graphs.antt =====
-- The theorems on whole graphs at concrete inputs.
use sea_dsa.Common.{
  false, ◌-◌, ◌<◌, is_some, ℕ, ◌+◌, ◌≡◌, ◌⊎◌, refl, arith, true, none, some, [], ◌∷◌, length, ◌==◌,
  lookup, List, Bool-cases, inl, inr, subst,
}
use sea_dsa.Llvm.{is_global}
use sea_dsa.Graph.{Cell, is_null, cell, null_cell, Node, Graph, ok}
use sea_dsa.Graph.Resolve.Ordered.{resolve-IsOrdered}
use sea_dsa.Graph.Resolve.Total.{IsOrdered, resolve_cell-Root}
use sea_dsa.Graph.Resolve.{resolve_cell, find, resolve, enough}
use sea_dsa.Graph.Resolve.Compression.{Keeps, Root, resolve-find}
use sea_dsa.Graph.Compress.{resolve_values}
use sea_dsa.Graph.Compress.Values.{AllLead, Ends, resolve_values-Ends}
use sea_dsa.Graph.Dead.{targets, remove_dead}
use sea_dsa.Graph.Dead.Walk.{roots, IsResolved}
use sea_dsa.Graph.Dead.Reach.{AllPresent}
use sea_dsa.Graph.Dead.Round.{IsCompressed}
use sea_dsa.Graph.Dead.Correct.{Kept, Dropped, remove_dead-Reach}
use sea_dsa.Graph.Table.{entry, mk_cell}
use sea_dsa.Graph.Table.Laws.{mk_cell_again}
use sea_dsa.Tests.Toy.{toy, chain, garden, plain, root}

walk_ends : find 3 chain (cell 0 1) ≡ some (cell 2 7)
unfolding find
walk_ends = refl

resolve-find_example :
    (g' : Graph) × (resolve 3 (cell 0 1) chain ≡ ok (cell 2 7) g') × Keeps chain g'
resolve-find_example = resolve-find 3 chain (cell 0 1) (cell 2 7) walk_ends

abbrev chain_rank : ℕ → ℕ
chain_rank n = 2 - n

chain_falls :
    (n : ℕ) (nd : Node)
    → lookup n chain.nodes ≡ some nd
    → (is_null nd.forward ≡ true)
      ⊎ (m : ℕ) × (nd.forward.node ≡ some m)
        × (is_some (lookup m chain.nodes) ≡ true)
        × (chain_rank m < chain_rank n)
chain_falls n nd h = elim (Bool-cases (n == 0)) [
  | inl first ↦ inr (1, ground arith, refl, ground arith)
  | inr rest ↦ elim (Bool-cases (n == 1)) [
    | inl second ↦ inr (2, ground arith, refl, ground arith)
    | inr last ↦ inl (ground arith)
  ]
]

chain-IsOrdered : IsOrdered chain chain_rank
chain-IsOrdered = record { short = λ n. omega arith; falls = chain_falls }

resolve_cell-Root_example :
    (r : Cell) × (g' : Graph) × (resolve_cell (cell 0 1) chain ≡ ok r g')
    × Keeps chain g'
    × (is_null r ≡ false)
    × Root g' r
resolve_cell-Root_example =
    resolve_cell-Root chain chain_rank chain-IsOrdered 0 (cell 0 1) refl refl

resolve-IsOrdered_example :
    (g' : Graph) × (resolve 3 (cell 0 1) chain ≡ ok (cell 2 7) g')
    × Keeps chain g'
    × IsOrdered g' chain_rank
resolve-IsOrdered_example =
    resolve-IsOrdered chain_rank 3 chain (cell 0 1) (cell 2 7) chain-IsOrdered walk_ends

values_lead : AllLead chain chain.values
values_lead = (inr (2, refl, refl), (inr (0, refl, refl), tt))

resolve_values-Ends_example :
    (rs : List (ℕ × Cell)) × (g' : Graph) × (resolve_values chain.values chain ≡ ok rs g')
    × Ends chain chain.values rs
    × Keeps chain g'
    × IsOrdered g' chain_rank
resolve_values-Ends_example =
    resolve_values-Ends chain_rank chain chain.values chain-IsOrdered values_lead

garden-roots : roots garden ≡ some (0 ∷ [])
unfolding roots targets
garden-roots = refl

abbrev Links : Node → Type 0
Links nd = (ts : List ℕ) × (targets garden nd.links ≡ some ts) × AllPresent garden ts

garden-Links : (n : ℕ) (nd : Node) → lookup n garden.nodes ≡ some nd → Links nd
unfolding targets
garden-Links n nd h = elim (Bool-cases (n == 0)) [
  | inl first ↦ let e : root ≡ nd = ground arith in subst Links e (1 ∷ [], refl, (refl, tt))
  | inr rest ↦ let e : plain ≡ nd = ground arith in subst Links e ([], refl, tt)
]

garden-IsResolved : IsResolved garden
garden-IsResolved n nd h = ground arith

garden-IsCompressed : IsCompressed garden
garden-IsCompressed = record {
  resolved = garden-IsResolved;
  root_list = 0 ∷ [];
  roots_end = garden-roots;
  roots_present = (refl, tt);
  links_end = garden-Links;
}

remove_dead-Reach_example :
    (h : Graph) × (remove_dead garden ≡ ok tt h)
    × (h ≡ record garden { nodes = h.nodes })
    × ((n : ℕ) → Kept garden h n ⊎ Dropped garden h n)
remove_dead-Reach_example = remove_dead-Reach garden garden-IsCompressed

no_entry : entry toy chain 9 ≡ none
unfolding entry
no_entry = refl

walk_is_enough : find (enough chain) chain (cell 0 1) ≡ some (cell 2 7)
unfolding find
walk_is_enough = refl

global_now : is_global toy 1 ≡ true
unfolding is_global
global_now = refl

entry_now : entry toy chain 1 ≡ some (cell 2 0)
unfolding entry
entry_now = refl

mk_cell_again_example :
    (h : Graph) × (mk_cell toy 1 null_cell chain ≡ ok (cell 2 0) h)
    × (length h.nodes ≡ length chain.nodes + 1)
    × ((w : ℕ) → entry toy h w ≡ entry toy chain w)
mk_cell_again_example = mk_cell_again toy 1 (cell 2 0) chain global_now entry_now refl refl
