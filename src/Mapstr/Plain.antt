-- ===== src/Mapstr/Plain.antt =====
-- Maps of mapstr/mapstr.go of which no key holds a dot, as `Put` builds them.
use elastic_agent_libs.Prelude.{
  Bytes, join, contains, contains-join, eq_bytes_iff, List, ◌∷◌, none, some, true, false, ok, ◌≡◌,
  refl, ap, arith, ok-injective, some_inj, Bool-cases, inl, inr, eq_bytes,
}
use mathlib.Core.Path.{subst}
use elastic_agent_libs.Mapstr.Value.{
  Value, mapstr, nil_mapstr, raw_map, nil_raw_map, Fields, end, field, M, lookup, to_mapstr,
}

abbrev mutual
  pub IsPlainValue : Value → Type 0
  IsPlainValue (mapstr f) = IsPlain f
  IsPlainValue (raw_map f) = IsPlain f
  IsPlainValue _ = Unit

  pub IsPlain : Fields → Type 0
  IsPlain end = Unit
  IsPlain (field k v f) = (contains b'.' k ≡ false) × IsPlainValue v × IsPlain f

abbrev pub IsPlainMap : M → Type 0
IsPlainMap none = Unit
IsPlainMap (some f) = IsPlain f

lookup_dotted : (k : Bytes) (f : Fields) → contains b'.' k ≡ true → IsPlain f → lookup k f ≡ none
unfolding lookup
lookup_dotted k end h p = refl
lookup_dotted k (field j v f) h p =
    ground (arith, lookup_dotted k f h p.2, eq_bytes_iff j k, λ (e : j ≡ k). ap (contains b'.') e)

-- A plain map has no entry at a key of several pieces.
pub lookup-join :
    (s t : Bytes) (rest : List Bytes) (f : Fields)
    → IsPlain f
    → lookup (join b'.' (s ∷ t ∷ rest)) f ≡ none
lookup-join s t rest f = lookup_dotted _ f (contains-join b'.' s t rest)

pub lookup-IsPlainValue :
    (k : Bytes) (f : Fields) {v : Value} → IsPlain f → lookup k f ≡ some v → IsPlainValue v
unfolding lookup
lookup-IsPlainValue k end p h = cc
lookup-IsPlainValue k (field j w f) p h = elim (Bool-cases (eq_bytes j k)) [
  | inl same ↦ subst IsPlainValue (some_inj (rw (same, lookup) at h)) p.1
  | inr differs ↦ lookup-IsPlainValue k f p.2 (rw (differs, lookup) at h)
]

pub to_mapstr-IsPlainMap : (v : Value) {m : M} → IsPlainValue v → to_mapstr v ≡ ok m → IsPlainMap m
to_mapstr-IsPlainMap (mapstr f) p h = subst IsPlainMap (ok-injective h) p
to_mapstr-IsPlainMap (raw_map f) p h = subst IsPlainMap (ok-injective h) p
to_mapstr-IsPlainMap nil_mapstr p h = subst IsPlainMap (ok-injective h) tt
to_mapstr-IsPlainMap nil_raw_map p h = subst IsPlainMap (ok-injective h) tt
to_mapstr-IsPlainMap _ p h = cc
