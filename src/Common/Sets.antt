-- ===== src/Common/Sets.antt =====
-- Sets of addresses as increasing lists: `flat_set`, `ImmutableSet` and `std::includes`.
use Prim.Native.Nat.{ℕ, ◌+◌}
use mathlib.Core.Path.{◌≡◌, refl}
use mathlib.Core.Bool.{Bool, true, false, ◌||◌, ◌&&◌}
use mathlib.Core.List.{List, [], ◌∷◌}
use native.Mathlib.Omega.{arith}
use sea_dsa.Common.Tests.{◌==◌, ltb, if◌then◌else◌}
use sea_dsa.Common.Lists.{length}

abbrev pub member : ℕ → List ℕ → Bool
member a [] = false
member a (x ∷ xs) = (x == a) || member a xs

abbrev pub set_insert : ℕ → List ℕ → List ℕ
set_insert a [] = a ∷ []
set_insert a (x ∷ xs) =
    if a == x then x ∷ xs else if ltb a x then a ∷ x ∷ xs else x ∷ set_insert a xs

-- insert(begin, end)
abbrev pub set_union : List ℕ → List ℕ → List ℕ
set_union s [] = s
set_union s (x ∷ xs) = set_union (set_insert x s) xs

-- `includes s t`: each element of `t` is in `s`
abbrev pub includes : List ℕ → List ℕ → Bool
includes s [] = true
includes s (x ∷ xs) = member x s && includes s xs

pub member-set_insert :
    (a b : ℕ) (s : List ℕ) → member b (set_insert a s) ≡ ((a == b) || member b s)
member-set_insert a b [] = refl
member-set_insert a b (x ∷ xs) = ground (arith, member-set_insert a b xs)

pub member-set_union :
    (b : ℕ) (s t : List ℕ) → member b (set_union s t) ≡ (member b s || member b t)
member-set_union b s [] = ground arith
member-set_union b s (x ∷ xs) =
    ground (arith, member-set_union b (set_insert x s) xs, member-set_insert x b s)

-- worklist.push_back(x) for each x; the head of the worklist is its back
abbrev pub push_all : List ℕ → List ℕ → List ℕ
push_all [] ws = ws
push_all (x ∷ xs) ws = push_all xs (x ∷ ws)

pub member-push_all :
    (a : ℕ) (xs ws : List ℕ) → member a (push_all xs ws) ≡ (member a xs || member a ws)
member-push_all a [] ws = refl
member-push_all a (x ∷ xs) ws = ground (arith, member-push_all a xs (x ∷ ws))

pub length-push_all : (xs ws : List ℕ) → length (push_all xs ws) ≡ length xs + length ws
length-push_all [] ws = omega arith
length-push_all (x ∷ xs) ws = omega (arith, length-push_all xs (x ∷ ws))
