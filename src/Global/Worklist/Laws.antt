-- ===== src/Global/Worklist/Laws.antt =====
-- WorkList of lib/seadsa/DsaGlobal.cc: the set and the queue of a worklist.
use sea_dsa.Common.{
  ℕ, ◌+◌, ◌≤◌, ◌≡◌, refl, Bool, true, false, not, ◌&&◌, ◌||◌, none, some, List, [], ◌∷◌, ◌++◌, ◌==◌,
  arith, inl, inr, Bool-cases, length, length-append, remove_if, member, member-set_insert, ==→≡,
  ==_refl, ◌⊎◌, ap, ◌∙◌,
}
use sea_dsa.Global.Worklist.{WorkList, enqueue, dequeue, enqueue_all}

abbrev pub no_repeat : List ℕ → Bool
no_repeat [] = true
no_repeat (x ∷ xs) = not (member x xs) && no_repeat xs

-- The set holds exactly what is in the queue, and the queue holds nothing twice.
abbrev pub IsValid : WorkList → Type 0
IsValid w = ((e : ℕ) → member e w.set ≡ member e w.queue) × (no_repeat w.queue ≡ true)

pub member-append : (e : ℕ) (xs ys : List ℕ) → member e (xs ++ ys) ≡ (member e xs || member e ys)
member-append e [] ys = refl
member-append e (x ∷ xs) ys = ground (arith, member-append e xs ys)

append_nil : (xs : List ℕ) → xs ++ [] ≡ xs
append_nil [] = refl
append_nil (x ∷ xs) = cc (append_nil xs)

no_repeat-append :
    (xs : List ℕ) (e : ℕ)
    → no_repeat xs ≡ true
    → member e xs ≡ false
    → no_repeat (xs ++ (e ∷ [])) ≡ true
no_repeat-append [] e h m = refl
no_repeat-append (x ∷ xs) e h m = ground (
  arith,
  no_repeat-append xs e,
  member-append x xs (e ∷ []),
  λ (q : (e == x) ≡ true). ==→≡ e x q,
  ==_refl x,
)

member-remove_if :
    (e b : ℕ) (s : List ℕ) → member b (remove_if (λ x. x == e) s) ≡ (not (e == b) && member b s)
member-remove_if e b [] = ground arith
member-remove_if e b (x ∷ s) = ground (
  arith,
  member-remove_if e b s,
  λ (q : (x == e) ≡ true). ==→≡ x e q,
  λ (q : (x == b) ≡ true). ==→≡ x b q,
  λ (q : (e == b) ≡ true). ==→≡ e b q,
  ==_refl b,
)

-- Putting an element on a valid worklist leaves it valid, with this element and those that were
-- there, in their order, and at most one more.
pub enqueue-IsValid :
    (w : WorkList) (e : ℕ)
    → IsValid w
    → IsValid (enqueue w e)
      × ((b : ℕ) → member b (enqueue w e).queue ≡ ((e == b) || member b w.queue))
      × ((rest : List ℕ) × ((enqueue w e).queue ≡ w.queue ++ rest) × (length rest ≤ 1))
unfolding enqueue
enqueue-IsValid w e (sync, once) = elim (Bool-cases (member e w.set)) [
  | inl m ↦ (
    ((λ b. ground (arith, sync b)), ground arith),
    (λ b. ground (arith, sync e, λ (q : (e == b) ≡ true). ==→≡ e b q)),
    ([], ground (arith, append_nil w.queue), ground arith),
  )
  | inr m ↦ (
    (
      (λ b. ground (arith, sync b, member-set_insert e b w.set, member-append b w.queue (e ∷ []))),
      ground (arith, no_repeat-append w.queue e once, sync e),
    ),
    (λ b. ground (arith, member-append b w.queue (e ∷ []))),
    (e ∷ [], ground arith, ground arith),
  )
]

-- Taking an element off a valid worklist fails only if it is empty; else it gives the element that
-- is there longest, and leaves a valid worklist with the others in their order.
pub dequeue-IsValid :
    (w : WorkList)
    → IsValid w
    → ((dequeue w ≡ none) × (w.queue ≡ []))
      ⊎ ((e : ℕ) × (w' : WorkList) × (dequeue w ≡ some (e, w'))
          × (w.queue ≡ e ∷ w'.queue)
          × IsValid w')
unfolding dequeue
dequeue-IsValid w (sync, once) = by_queue w.queue refl
  where
    by_queue :
        (q : List ℕ)
        → w.queue ≡ q
        → ((dequeue w ≡ none) × (w.queue ≡ []))
          ⊎ ((e : ℕ) × (w' : WorkList) × (dequeue w ≡ some (e, w'))
              × (w.queue ≡ e ∷ w'.queue)
              × IsValid w')
    by_queue [] is = inl (ground arith, is)
    by_queue (e ∷ es) is =
        let w' : WorkList = record { queue = es; set = remove_if (λ x. x == e) w.set } in
        inr (
          e,
          w',
          ground arith,
          is,
          (
            (λ b. ground (
              arith,
              member-remove_if e b w.set,
              sync b,
              is,
              once,
              λ (q : (e == b) ≡ true). ==→≡ e b q,
            )),
            ground (arith, is, once),
          ),
        )

pub enqueue_all-IsValid :
    (es : List ℕ) (w : WorkList)
    → IsValid w
    → IsValid (enqueue_all es w)
      × ((b : ℕ) → member b (enqueue_all es w).queue ≡ (member b es || member b w.queue))
      × (length (enqueue_all es w).queue ≤ length es + length w.queue)
unfolding enqueue_all
enqueue_all-IsValid [] w valid = (valid, (λ b. refl), omega arith)
enqueue_all-IsValid (e ∷ es) w valid =
    let (valid', holds, (rest, is, short)) = enqueue-IsValid w e valid in
    let (valid'', holds', bound) = enqueue_all-IsValid es (enqueue w e) valid' in
    let grown : length (enqueue w e).queue ≡ length w.queue + length rest =
      ap length is ∙ length-append w.queue rest in
    (valid'', (λ b. ground (arith, holds b, holds' b)), omega arith)
