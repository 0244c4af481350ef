-- ===== src/AllocSite/Laws.antt =====
-- DsaAllocSite::importCallPaths of lib/seadsa/DsaAllocSite.cc: the order and the set of the paths.
use sea_dsa.Common.{
  ℕ, Bool, true, false, not, ◌&&◌, ◌||◌, List, [], ◌∷◌, ◌++◌, map, ◌≡◌, ◌∙◌, refl, arith, ◌==◌,
  is_empty,
}
use sea_dsa.Graph.{StepKind, CallPath}
use sea_dsa.AllocSite.{kind_rank, path_lt, insert_path, sort_unique, extend_path, import_call_paths}

step_eq : StepKind × ℕ → StepKind × ℕ → Bool
step_eq (j, f) (k, g) = (kind_rank j == kind_rank k) && (f == g)

pub path_eq : CallPath → CallPath → Bool
unfolding step_eq
path_eq [] [] = true
path_eq [] (t ∷ q) = false
path_eq (s ∷ p) [] = false
path_eq (s ∷ p) (t ∷ q) = step_eq s t && path_eq p q

-- `p` is one of the paths
abbrev pub has_path : CallPath → List CallPath → Bool
has_path p [] = false
has_path p (q ∷ qs) = path_eq p q || has_path p qs

-- Each path is below the next one.
abbrev pub is_increasing : List CallPath → Bool
is_increasing [] = true
is_increasing (p ∷ []) = true
is_increasing (p ∷ q ∷ qs) = path_lt p q && is_increasing (q ∷ qs)

path_lt_tie : (p q : CallPath) → path_eq p q ≡ not (path_lt p q || path_lt q p)
unfolding path_lt path_eq
path_lt_tie [] [] = refl
path_lt_tie [] (t ∷ q) = refl
path_lt_tie (s ∷ p) [] = refl
path_lt_tie ((j, f) ∷ p) ((k, g) ∷ q) = ground (arith, path_lt_tie p q)

path_eq_cong : (p q r : CallPath) → path_eq p q ≡ true → path_eq r p ≡ path_eq r q
unfolding path_eq
path_eq_cong [] [] r h = refl
path_eq_cong [] (t ∷ q) r h = cc
path_eq_cong (s ∷ p) [] r h = cc
path_eq_cong (s ∷ p) (t ∷ q) [] h = refl
path_eq_cong ((j, f) ∷ p) ((k, g) ∷ q) ((i, e) ∷ r) h = ground (arith, path_eq_cong p q r)

has_path-insert_path :
    (p r : CallPath) (qs : List CallPath)
    → has_path r (insert_path p qs) ≡ (path_eq r p || has_path r qs)
unfolding insert_path
has_path-insert_path p r [] = refl
has_path-insert_path p r (q ∷ qs) =
    ground (arith, has_path-insert_path p r qs, path_lt_tie p q, path_eq_cong p q r)

is_increasing-insert_path :
    (p : CallPath) (qs : List CallPath)
    → is_increasing qs ≡ true
    → is_increasing (insert_path p qs) ≡ true
unfolding insert_path
is_increasing-insert_path p [] h = refl
is_increasing-insert_path p (q ∷ []) h = ground arith
is_increasing-insert_path p (q ∷ r ∷ qs) h = ground (arith, is_increasing-insert_path p (r ∷ qs))

sort_unique-is_increasing : (ps : List CallPath) → is_increasing (sort_unique ps) ≡ true
unfolding sort_unique
sort_unique-is_increasing [] = refl
sort_unique-is_increasing (p ∷ ps) =
    is_increasing-insert_path p (sort_unique ps) (sort_unique-is_increasing ps)

has_path-sort_unique :
    (r : CallPath) (ps : List CallPath) → has_path r (sort_unique ps) ≡ has_path r ps
unfolding sort_unique
has_path-sort_unique r [] = refl
has_path-sort_unique r (p ∷ ps) =
    ground (arith, has_path-insert_path p r (sort_unique ps), has_path-sort_unique r ps)

has_path-append :
    (r : CallPath) (ps qs : List CallPath)
    → has_path r (ps ++ qs) ≡ (has_path r ps || has_path r qs)
has_path-append r [] qs = refl
has_path-append r (p ∷ ps) qs = ground (arith, has_path-append r ps qs)

-- For a call of a tracked function, a site that imports from a site with call paths ends with its own
-- paths and those of the other site, each extended by the call, sorted and with no path twice.
pub import_call_paths_lem :
    (bu : Bool) (caller callee : ℕ) (paths other : List CallPath)
    → is_empty other ≡ false
    → (is_increasing (import_call_paths true bu caller callee paths other) ≡ true)
      × ((r : CallPath)
          → has_path r (import_call_paths true bu caller callee paths other)
            ≡ (has_path r paths || has_path r (map (extend_path bu caller callee) other)))
unfolding import_call_paths
import_call_paths_lem bu caller callee paths other h =
    let all = paths ++ map (extend_path bu caller callee) other in
    rw h
      (sort_unique-is_increasing all, λ r. has_path-sort_unique r all ∙ has_path-append r paths _)
