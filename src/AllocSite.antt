-- ===== src/AllocSite.antt =====
-- DsaAllocSite::importCallPaths of lib/seadsa/DsaAllocSite.cc: how an allocation site came to a graph.
pub mod Laws
use sea_dsa.Common.{
  ℕ, Bool, true, false, not, ◌&&◌, ◌||◌, Option, none, some, List, [], ◌∷◌, ◌++◌, map, ltb, ◌==◌,
  if◌then◌else◌, is_empty,
}
use sea_dsa.Graph.{StepKind, local, bottom_up, top_down, CallPath}

-- The order of StepKind, of Step, and of CallPath (that of std::pair and of std::vector).
unfoldable pub kind_rank : StepKind → ℕ
kind_rank local = 0
kind_rank bottom_up = 1
kind_rank top_down = 2

unfoldable pub step_lt : StepKind × ℕ → StepKind × ℕ → Bool
unfolding kind_rank
step_lt (j, f) (k, g) = ltb (kind_rank j) (kind_rank k) || ((kind_rank j == kind_rank k) && ltb f g)

unfoldable pub path_lt : CallPath → CallPath → Bool
unfolding step_lt
path_lt [] [] = false
path_lt [] (t ∷ q) = true
path_lt (s ∷ p) [] = false
path_lt (s ∷ p) (t ∷ q) = step_lt s t || (not (step_lt t s) && path_lt p q)

-- std::sort followed by std::unique
unfoldable pub insert_path : CallPath → List CallPath → List CallPath
unfolding path_lt
insert_path p [] = p ∷ []
insert_path p (q ∷ qs) =
    if path_lt p q then p ∷ q ∷ qs else if path_lt q p then q ∷ insert_path p qs else q ∷ qs

unfoldable pub sort_unique : List CallPath → List CallPath
unfolding insert_path
sort_unique [] = []
sort_unique (p ∷ ps) = insert_path p (sort_unique ps)

-- The step that an import adds to a path: through a call from `caller` to `callee`.
unfoldable pub last_step : Bool → ℕ → ℕ → StepKind × ℕ
last_step bu caller callee = if bu then (bottom_up, caller) else (top_down, callee)

unfoldable pub extend_path : Bool → ℕ → ℕ → CallPath → CallPath
unfolding last_step
extend_path bu caller callee p = p ++ last_step bu caller callee ∷ []

-- `tracked` says whether the site is the one that -sea-dsa-track-alloc-site names. `other` may be
-- the site itself, so its paths are read before the list grows.
unfoldable pub import_call_paths :
    Bool → Bool → ℕ → ℕ → List CallPath → List CallPath → List CallPath
unfolding sort_unique extend_path last_step
import_call_paths tracked bu caller callee paths other =
    if not tracked
    then paths
    else if is_empty other
    then paths ++ ((local, if bu then callee else caller) ∷ last_step bu caller callee ∷ []) ∷ []
    else sort_unique (paths ++ map (extend_path bu caller callee) other)
