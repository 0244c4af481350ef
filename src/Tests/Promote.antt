-- ===== src/Tests/Promote.antt =====
-- A run of PointerPromoter, and its theorem at a concrete input.
use sea_dsa.Common.{
  ℕ, ◌+◌, ◌-◌, ◌%◌, ◌^◌, ◌≡◌, ◌||◌, refl, arith, Option, none, some, [], ◌∷◌, ◌==◌, if◌then◌else◌,
}
use sea_dsa.RemovePtrToInt.{Inst, Code, Promoted, Work, visit_int_to_ptr}
use sea_dsa.RemovePtrToInt.Values.{Run, eval}
use sea_dsa.RemovePtrToInt.Ends.{IsRanked, visit_int_to_ptr_ends}

-- 3 is the pointer 2 as an integer, 4 is 8 less, and 20 makes 4 a pointer; 30 is the constant 8.
abbrev insts : ℕ → Inst
insts v = if v == 3 then Inst.ptr_to_int 2 else if v == 4 then Inst.sub 3 30 else Inst.none_at_all

abbrev code : Code
code = record {
  inst = insts;
  users = λ v. [];
  constant = λ v. if v == 30 then some 8 else none;
  type = λ v. 1;
  width = λ v. 64;
}

abbrev values : ℕ → ℕ
values v = if (v == 2) || (v == 3) then 100 else if v == 4 then 92 else if v == 30 then 8 else 0

of_sub-values :
    (v a b : ℕ) → insts v ≡ Inst.sub a b → values v ≡ (values a + (2 ^ 64 - values b)) % 2 ^ 64
of_sub-values v a b e = ground arith

a_run : Run code
a_run = record {
  value = values;
  taken = λ v. 0;
  of_ptr_to_int = λ v p e. ground arith;
  of_phi = λ v vs e. absurd (ground arith);
  of_add = λ v a b e. absurd (ground arith);
  of_sub = of_sub-values;
  of_constant = λ v n e. ground arith;
  of_word = λ v. ground arith;
}

abbrev idle : Work
idle = record { to_remove = []; to_replace = []; visited = []; stored_again = [] }

abbrev promoted : Promoted
promoted = Promoted.cast (Promoted.gep_back (Promoted.cast (Promoted.pointer 2)) 64 8)

visit_run :
    visit_int_to_ptr code 5 20 4 idle
    ≡ some (some promoted, record idle { to_remove = 3 ∷ 4 ∷ 20 ∷ [] })
unfolding visit_int_to_ptr
visit_run = refl

abbrev rank : ℕ → ℕ
rank v = if v == 4 then 1 else 0

code-IsRanked : IsRanked code rank 1 []
code-IsRanked = record {
  of_add = λ v a b e. absurd (ground arith);
  of_sub = λ v a b e. ground arith;
  below = λ v. ground arith;
  of_phi = λ v vs e. absurd (ground arith);
}

visit_int_to_ptr_ends_example :
    (r : Option Promoted) × (w' : Work) × (visit_int_to_ptr code 5 20 4 idle ≡ some (r, w'))
    × ((p : Promoted) → r ≡ some p → eval code a_run p ≡ a_run.value 4)
visit_int_to_ptr_ends_example =
    visit_int_to_ptr_ends code rank 1 [] code-IsRanked a_run 5 20 4 idle (λ x. refl) (omega arith)
