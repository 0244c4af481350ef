-- ===== src/Tests/Values.antt =====
-- The theorems on alias queries, call paths and allocation wrappers at concrete inputs.
use sea_dsa.Common.{
  ℕ, zero, suc, ◌<◌, ◌≡◌, ◌↔◌, refl, arith, Bool, true, false, ◌||◌, some, none, List, [], ◌∷◌, map,
  member,
}
use sea_dsa.Graph.{cell, Node, local, CallPath}
use sea_dsa.Graph.Query.{Place}
use sea_dsa.Alias.{may_alias, may_alias_places}
use sea_dsa.Alias.Laws.{Apart, may_alias_comm, may_alias_places-Apart}
use sea_dsa.AllocSite.{extend_path, import_call_paths}
use sea_dsa.AllocSite.Laws.{has_path, is_increasing, import_call_paths_lem}
use sea_dsa.AllocWrap.{Inst, bitcast, store, call, null, phi, other, Module, is_not_stored}
use sea_dsa.AllocWrap.Stores.{is_copy, Leaks, is_not_stored-Leaks}
use sea_dsa.Tests.Toy.{toy, plain, garden}

may_alias_comm_example :
    may_alias toy garden (cell 0 0) (cell 1 2) ≡ may_alias toy garden (cell 1 2) (cell 0 0)
may_alias_comm_example = may_alias_comm toy garden (cell 0 0) (cell 1 2)

-- A struct of which two bytes at 0 and two at 8 are accessed.
abbrev pair_node : Node
pair_node = record plain { size = 10; accessed_types = (0, 2 ∷ []) ∷ (8, 2 ∷ []) ∷ [] }

abbrev at : ℕ → Place
at o = record { address = 0; node = pair_node; raw = o }

no_alias : may_alias_places toy (at 8) (at 0) ≡ false
unfolding may_alias_places
no_alias = refl

may_alias_places-Apart_example : Apart toy (at 8) (at 0)
may_alias_places-Apart_example = may_alias_places-Apart toy (at 8) (at 0) no_alias

abbrev known_paths : List CallPath
known_paths = ((local, 3) ∷ []) ∷ ((local, 2) ∷ []) ∷ []

import_call_paths_example :
    (is_increasing (import_call_paths true true 1 4 known_paths known_paths) ≡ true)
    × ((r : CallPath)
        → has_path r (import_call_paths true true 1 4 known_paths known_paths)
          ≡ (has_path r known_paths || has_path r (map (extend_path true 1 4) known_paths)))
import_call_paths_example = import_call_paths_lem true 1 4 known_paths known_paths refl

-- Value n + 1 is a cast of value n + 2, and value 1 is stored by 0.
abbrev cast_or_store : ℕ → Inst
cast_or_store zero = store
cast_or_store (suc n) = bitcast (suc (suc n))

abbrev below : ℕ → List ℕ
below zero = []
below (suc n) = n ∷ []

abbrev casts : Module
casts = record {
  inst = cast_or_store;
  users = below;
  parent = λ n. 0;
  function = λ n. none;
  has_loops = true;
}

casts_fall : (v u : ℕ) → member u (casts.users v) ≡ true → is_copy (casts.inst u) ≡ true → u < v
casts_fall zero u h c = cc
casts_fall (suc v) u h c = ground arith

is_not_stored-Leaks_example :
    (b : Bool) × (is_not_stored casts 9 2 ≡ some b) × ((b ≡ false) ↔ Leaks casts 2)
is_not_stored-Leaks_example = is_not_stored-Leaks casts (λ n. n) casts_fall 9 2 (omega arith)

-- Value 3 joins value 1, a cast of the call 0, and the null pointer 2.
abbrev join_inst : ℕ → Inst
join_inst zero = call
join_inst (suc zero) = bitcast 0
join_inst (suc (suc zero)) = null
join_inst (suc (suc (suc zero))) = phi false (1 ∷ 2 ∷ [])
join_inst (suc (suc (suc (suc n)))) = other

abbrev joins : Module
joins = record casts { inst = join_inst }
