-- ===== src/Global/Worklist.antt =====
-- WorkList of lib/seadsa/DsaGlobal.cc: a queue with the set of what is in it. Elements are call
-- sites, by number.
pub mod Laws
use sea_dsa.Common.{
  ℕ, Bool, true, false, Option, none, some, List, [], ◌∷◌, ◌++◌, ◌==◌, if◌then◌else◌, is_empty,
  length, remove_if, member, set_insert,
}

pub record WorkList : Type 0 where
  pub queue : List ℕ
  pub set : List ℕ

abbrev pub no_work : WorkList
no_work = record { queue = []; set = [] }

-- empty and size
unfoldable pub empty : WorkList → Bool
empty w = is_empty w.queue

unfoldable pub size : WorkList → ℕ
size w = length w.queue

unfoldable pub enqueue : WorkList → ℕ → WorkList
enqueue w e =
    if member e w.set then w else record { queue = w.queue ++ (e ∷ []); set = set_insert e w.set }

-- dequeue; `none` is an empty queue, whose front the source must not ask for
unfoldable pub dequeue : WorkList → Option (ℕ × WorkList)
dequeue w = elim w.queue [
  | [] ↦ none
  | e ∷ es ↦ some (e, record { queue = es; set = remove_if (λ x. x == e) w.set })
]

-- for (auto cs : es) w.enqueue(cs)
unfoldable pub enqueue_all : List ℕ → WorkList → WorkList
unfolding enqueue
enqueue_all [] w = w
enqueue_all (e ∷ es) w = enqueue_all es (enqueue w e)
