-- ===== src/Tests/Versions.antt =====
-- version/version.go on small versions.
use elastic_agent_libs.Prelude.{
  codes, join, contains, AllFree, unsigned, digits_value, [], ◌∷◌, some, true, false, ok, ◌≡◌, ◌↔◌,
  ◌⊎◌, inr, refl, arith,
}
use elastic_agent_libs.Version.{V, new, less_than, less_than_or_equal}
use elastic_agent_libs.Version.Order.{
  Precedes, SameNumbers, less_than_or_equal-Precedes, IsMisordered, less_than-IsMisordered,
}
use elastic_agent_libs.Version.Parse.{Numbers, dotted, version_of, new-dotted, new-meta}

abbrev v_7_3_0 : V
v_7_3_0 = record { version = codes "7.3.0"; major = 7; minor = 3; bugfix = 0; meta = [] }

abbrev v_6_3_1 : V
v_6_3_1 = record { version = codes "6.3.1"; major = 6; minor = 3; bugfix = 1; meta = [] }

less_than_or_equal-Precedes_example :
    (less_than_or_equal false v_6_3_1 v_7_3_0 ≡ true)
    ↔ (Precedes v_6_3_1 v_7_3_0 ⊎ SameNumbers v_6_3_1 v_7_3_0)
less_than_or_equal-Precedes_example = less_than_or_equal-Precedes v_6_3_1 v_7_3_0

less_than-IsMisordered_example :
    (less_than v_7_3_0 v_6_3_1 ≡ true) ↔ (Precedes v_7_3_0 v_6_3_1 ⊎ IsMisordered v_7_3_0 v_6_3_1)
less_than-IsMisordered_example = less_than-IsMisordered v_7_3_0 v_6_3_1

misordered : less_than v_7_3_0 v_6_3_1 ≡ true
misordered = less_than-IsMisordered_example.1 (inr (omega arith, refl, omega arith))

reads_8 : unsigned (codes "8") ≡ some 8
unfolding unsigned digits_value
reads_8 = refl

reads_12 : unsigned (codes "12") ≡ some 12
unfolding unsigned digits_value
reads_12 = refl

reads_0 : unsigned (codes "0") ≡ some 0
unfolding unsigned digits_value
reads_0 = refl

abbrev numbers : Numbers
numbers = record {
  text_a = codes "8";
  text_b = codes "12";
  text_c = codes "0";
  a = 8;
  b = 12;
  c = 0;
  reads_a = reads_8;
  reads_b = reads_12;
  reads_c = reads_0;
}

new-dotted_example : new (dotted numbers) ≡ ok (version_of numbers (dotted numbers) [])
new-dotted_example = new-dotted numbers

meta-AllFree : AllFree b'-' (codes "rc1" ∷ codes "x" ∷ [])
unfolding contains
meta-AllFree = (refl, (refl, tt))

new-meta_example :
    new (join b'-' (dotted numbers ∷ codes "rc1" ∷ codes "x" ∷ []))
    ≡ ok (
        version_of numbers
          (join b'-' (dotted numbers ∷ codes "rc1" ∷ codes "x" ∷ []))
          (codes "rc1"))
new-meta_example = new-meta numbers (codes "rc1") (codes "x" ∷ []) meta-AllFree
