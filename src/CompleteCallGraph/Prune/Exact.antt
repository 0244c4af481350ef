-- ===== src/CompleteCallGraph/Prune/Exact.antt =====
-- The removal of edges of lib/seadsa/DsaCompleteCallGraph.cc: which ones go.
use sea_dsa.Common.{
  ℕ, zero, suc, ◌+◌, ◌≡◌, refl, sym, ap, ◌∙◌, Bool, true, false, not, ◌&&◌, some, List, [], ◌∷◌,
  ◌++◌, ◌==◌, arith, inl, inr, Bool-cases, Option-cases, get_elem?, length, length-append, count_if,
}
use sea_dsa.CompleteCallGraph.{
  CallRecord, CallGraphOps, HasLaws, Program, last_first, last_and_init,
}
use sea_dsa.CompleteCallGraph.Prune.{is_superfluous, prune_loop, prune_function}

count_if-append :
    {A : Type 0} (q : A → Bool) (xs ys : List A)
    → count_if q (xs ++ ys) ≡ count_if q xs + count_if q ys
count_if-append q [] ys = omega arith
count_if-append q (x ∷ xs) ys = omega (arith, count_if-append q xs ys)

count_if-last_and_init :
    {A : Type 0} (q : A → Bool) (x : A) (xs : List A)
    → count_if q ((last_and_init x xs).0 ∷ (last_and_init x xs).1) ≡ count_if q (x ∷ xs)
count_if-last_and_init q x [] = refl
count_if-last_and_init q x (y ∷ ys) = omega (arith, count_if-last_and_init q y ys)

count_if-last_first :
    {A : Type 0} (q : A → Bool) (xs : List A) → count_if q (last_first xs) ≡ count_if q xs
count_if-last_first q [] = refl
count_if-last_first q (x ∷ xs) = count_if-last_and_init q x xs

length-last_and_init :
    {A : Type 0} (x : A) (xs : List A) → length (last_and_init x xs).1 ≡ length xs
length-last_and_init x [] = refl
length-last_and_init x (y ∷ ys) = omega (arith, length-last_and_init y ys)

length-last_first : {A : Type 0} (xs : List A) → length (last_first xs) ≡ length xs
length-last_first [] = refl
length-last_first (x ∷ xs) = omega (arith, length-last_and_init x xs)

get_elem?-middle :
    {A : Type 0} (xs : List A) (y : A) (ys : List A) → get_elem? (xs ++ y ∷ ys) (length xs) ≡ some y
get_elem?-middle [] y ys = refl
get_elem?-middle (x ∷ xs) y ys = get_elem?-middle xs y ys

append_middle :
    {A : Type 0} (xs : List A) (y : A) (ys : List A) → (xs ++ y ∷ []) ++ ys ≡ xs ++ y ∷ ys
append_middle [] y ys = refl
append_middle (x ∷ xs) y ys = ap (λ zs. x ∷ zs) (append_middle xs y ys)

module _ (p : Program) (Cg : Type 0) (ops : CallGraphOps Cg) (laws : HasLaws Cg ops)
    (resolved : List ℕ) (f : ℕ) (q : CallRecord → Bool) where
  -- The records that pass the test and stay.
  abbrev pub stays : CallRecord → Bool
  stays r = q r && not (is_superfluous p Cg ops resolved r)

  next_record :
      (g : Cg) (i : ℕ) (before : List CallRecord) (r : CallRecord) (after : List CallRecord)
      → length before ≡ i
      → ops.records g f ≡ before ++ (r ∷ after)
      → get_elem? (ops.records g f) i ≡ some r
  next_record g i before r after n is = rw (sym n, is) (get_elem?-middle before r after)

  removed :
      (g : Cg) (i : ℕ) (before : List CallRecord) (r : CallRecord) (after : List CallRecord)
      → length before ≡ i
      → ops.records g f ≡ before ++ (r ∷ after)
      → ops.records (ops.remove_call_edge g f i) f ≡ before ++ last_first after
  removed g i before r after n is = rw (sym n) (laws.records_remove g f before r after is)

  -- What a round of the loop does to a record that stays, and to one that goes.
  prune_loop_stay :
      (left i : ℕ) (g : Cg) (r : CallRecord)
      → get_elem? (ops.records g f) i ≡ some r
      → is_superfluous p Cg ops resolved r ≡ false
      → prune_loop p Cg ops resolved f (suc left) i g
        ≡ prune_loop p Cg ops resolved f left (suc i) g
  unfolding prune_loop
  prune_loop_stay left i g r at stay = ground arith

  prune_loop_go :
      (left i : ℕ) (g : Cg) (r : CallRecord)
      → get_elem? (ops.records g f) i ≡ some r
      → is_superfluous p Cg ops resolved r ≡ true
      → prune_loop p Cg ops resolved f (suc left) i g
        ≡ prune_loop p Cg ops resolved f left i (ops.remove_call_edge g f i)
  unfolding prune_loop
  prune_loop_go zero i g r at go = ground arith
  prune_loop_go (suc left) i g r at go = ground arith

  prune_loop_end : (i : ℕ) (g : Cg) → prune_loop p Cg ops resolved f zero i g ≡ g
  unfolding prune_loop
  prune_loop_end i g = refl

  count_if-prune_loop :
      (left i : ℕ) (g : Cg) (before after : List CallRecord)
      → length before ≡ i
      → length after ≡ left
      → ops.records g f ≡ before ++ after
      → count_if q (ops.records (prune_loop p Cg ops resolved f left i g) f)
        ≡ count_if q before + count_if stays after
  count_if-prune_loop zero i g before [] n m is =
      rw (prune_loop_end i g) (ap (count_if q) is ∙ count_if-append q before [])
  count_if-prune_loop zero i g before (r ∷ rs) n m is = absurd (omega (arith, m))
  count_if-prune_loop (suc left) i g before [] n m is = absurd (omega (arith, m))
  count_if-prune_loop (suc left) i g before (r ∷ rs) n m is =
      let at = next_record g i before r rs n is in
      elim (Bool-cases (is_superfluous p Cg ops resolved r)) [
        | inr stay ↦
            let ih =
              count_if-prune_loop left (suc i) g (before ++ (r ∷ [])) rs
                (length-append before (r ∷ []) ∙ omega (arith, n)) (omega (arith, m))
                (is ∙ sym (append_middle before r rs)) in
            let more = count_if-append q before (r ∷ []) in
            rw (prune_loop_stay left i g r at stay, stay) (ground (arith, ih, more))
        | inl go ↦
            let ih =
              count_if-prune_loop left i (ops.remove_call_edge g f i) before (last_first rs) n
                (length-last_first rs ∙ omega (arith, m)) (removed g i before r rs n is) in
            let same = count_if-last_first stays rs in
            rw (prune_loop_go left i g r at go, go) (ground (arith, ih, same))
      ]

  records-prune_loop :
      (left i : ℕ) (g : Cg) (h : ℕ)
      → (f == h) ≡ false
      → ops.records (prune_loop p Cg ops resolved f left i g) h ≡ ops.records g h
  unfolding prune_loop
  records-prune_loop zero i g h e = refl
  records-prune_loop (suc left) i g h e = elim (Option-cases (get_elem? (ops.records g f) i)) [
    | inl out ↦ ground (arith)
    | inr (r, at) ↦ elim (Bool-cases (is_superfluous p Cg ops resolved r)) [
      | inr stay ↦ rw (prune_loop_stay left i g r at stay) (records-prune_loop left (suc i) g h e)
      | inl go ↦ rw (prune_loop_go left i g r at go) (
          records-prune_loop left i (ops.remove_call_edge g f i) h e
          ∙ laws.records_remove_other g f i h e)
    ]
  ]

  -- For a call graph with the laws of LLVM's: the removal of edges of one function keeps exactly the records of this function that are not
  -- superfluous, and all of other functions: whatever is asked of records, as many have it afterwards
  -- as had it before and are not the edge to the external node of a fully resolved indirect call.
  pub count_if-prune_function :
      (g : Cg)
      → (count_if q (ops.records (prune_function p Cg ops resolved f g) f)
          ≡ count_if stays (ops.records g f))
        × ((h : ℕ)
            → (f == h) ≡ false
            → ops.records (prune_function p Cg ops resolved f g) h ≡ ops.records g h)
  unfolding prune_function
  count_if-prune_function g =
      let all =
        count_if-prune_loop (length (ops.records g f)) 0 g [] (ops.records g f) refl refl refl in
      (omega (arith, all), records-prune_loop (length (ops.records g f)) 0 g)
