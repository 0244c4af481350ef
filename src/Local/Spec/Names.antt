-- ===== src/Local/Spec/Names.antt =====
-- Which names getSeaDsaFn of lib/seadsa/DsaLocal.cc knows, against the test of isSeaDsaFn that comes
-- before it.
use Prim.Native.String.{String, ◌++◌}
use text.Mathlib.Text
use text.Mathlib.Text.{starts_with}
use text.Mathlib.TextEquality.{eq_iff, starts_with_iff}
use text.Mathlib.TextLemmas.{append_assoc}
use sea_dsa.Common.{◌≡◌, refl, sym, ◌∙◌, true, false, arith, inl, inr, Bool-cases}
use sea_dsa.Local.Spec.{SeadsaFn, exact_fn, get_sea_dsa_fn, is_sea_dsa_fn}

abbrev test : String
test = "sea_dsa_"

-- A name without the prefix is no name with it.
differs :
    (n s : String) → starts_with n test ≡ false → starts_with s test ≡ true → Text.◌==◌ n s ≡ false
differs n s without within = elim (Bool-cases (Text.◌==◌ n s)) [
  | inl e ↦ let e' : n ≡ s = (eq_iff n s).0 e in absurd (cc (e', without, within))
  | inr e ↦ e
]

prefix_differs :
    (n rest : String) → starts_with n test ≡ false → starts_with n (test ++ rest) ≡ false
prefix_differs n rest without = elim (Bool-cases (starts_with n (test ++ rest))) [
  | inl e ↦
      let (u, p) = (starts_with_iff n (test ++ rest)).0 e in
      let q : starts_with n test ≡ true =
        (starts_with_iff n test).1 (rest ++ u, sym (append_assoc test rest u) ∙ p) in
      absurd (cc (q, without))
  | inr e ↦ e
]

-- Every function that getSeaDsaFn knows passes isSeaDsaFn: a name that does not begin with sea_dsa_
-- is unknown to getSeaDsaFn.
pub get_sea_dsa_fn-is_sea_dsa_fn :
    (n : String) → is_sea_dsa_fn n ≡ false → get_sea_dsa_fn n ≡ SeadsaFn.unknown
unfolding get_sea_dsa_fn is_sea_dsa_fn exact_fn
get_sea_dsa_fn-is_sea_dsa_fn n h = ground (
  arith,
  differs n "sea_dsa_set_modified" h refl,
  differs n "sea_dsa_set_read" h refl,
  differs n "sea_dsa_set_heap" h refl,
  differs n "sea_dsa_set_ptrtoint" h refl,
  differs n "sea_dsa_set_inttoptr" h refl,
  differs n "sea_dsa_set_extern" h refl,
  differs n "sea_dsa_alias" h refl,
  differs n "sea_dsa_collapse" h refl,
  differs n "sea_dsa_mk_seq" h refl,
  differs n "sea_dsa_mk" h refl,
  prefix_differs n "link" h,
  prefix_differs n "access" h,
)
