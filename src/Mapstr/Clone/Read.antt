-- ===== src/Mapstr/Clone/Read.antt =====
-- `GetValue` of mapstr/mapstr.go on a clone.
use mathlib.Core.Path.{subst}
use elastic_agent_libs.Prelude.{
  Bytes, split, join, eq_bytes, Bool-cases, List, [], ◌∷◌, none, some, some_inj, Option-cases,
  Result, ok, err, >>=-eq-ok, ok-injective, ◌≡◌, inl, inr, refl, ap, sym, ◌∙◌,
}
use elastic_agent_libs.Mapstr.Value.{
  Value, mapstr, raw_map, Fields, end, field, M, Error, lookup, get, to_mapstr,
}
use elastic_agent_libs.Mapstr.Find.{get_value}
use elastic_agent_libs.Mapstr.Find.Walk.{required-eq-ok}
use elastic_agent_libs.Mapstr.Find.Direct.{required, get_from, get_pieces, get_value-pieces}
use elastic_agent_libs.Mapstr.Clone.{clone_value, clone}
use elastic_agent_libs.Mapstr.Clone.Lookup.{clone_result, get_value-clone}
use elastic_agent_libs.Mapstr.Clone.Deep.{
  IsDeepValue, IsDeep, IsDeepM, IsDeepM-IsMapM, IsCloneValue, clone_value-IsCloneValue,
}

-- What a search in the clone returns, by what it returns in the source: the clone of the value, or the
-- same error.
abbrev pub ReadsClone : Result Error Value → Result Error Value → Type 0
ReadsClone (ok v) found = (w : Value) × (found ≡ ok w) × IsCloneValue v w
ReadsClone (err e) found = found ≡ err e

lookup-IsDeepValue :
    (k : Bytes) (f : Fields) {v : Value} → IsDeep f → lookup k f ≡ some v → IsDeepValue v
unfolding lookup
lookup-IsDeepValue k end p h = cc
lookup-IsDeepValue k (field j w f) p h = elim (Bool-cases (eq_bytes j k)) [
  | inl same ↦ subst IsDeepValue (some_inj (rw (same, lookup) at h)) p.1
  | inr differs ↦ lookup-IsDeepValue k f p.2 (rw (differs, lookup) at h)
]

get-IsDeepValue : (k : Bytes) (m : M) {v : Value} → IsDeepM m → get k m ≡ some v → IsDeepValue v
get-IsDeepValue k none p h = cc
get-IsDeepValue k (some f) p h = lookup-IsDeepValue k f p h

to_mapstr-IsDeepM : (v : Value) (m : M) → IsDeepValue v → to_mapstr v ≡ ok m → IsDeepM m
to_mapstr-IsDeepM v none p h = tt
to_mapstr-IsDeepM (mapstr g) (some f) p h = subst IsDeep (some_inj (ok-injective h)) p
to_mapstr-IsDeepM (raw_map g) (some f) p h = subst IsDeep (some_inj (ok-injective h)) p
to_mapstr-IsDeepM _ (some f) p h = cc

get_from-IsDeepValue :
    (rest : List Bytes) (m : M) (s : Bytes) {v : Value}
    → IsDeepM m
    → get_from m s rest ≡ ok v
    → IsDeepValue v
unfolding get_from
get_from-IsDeepValue [] m s p h = get-IsDeepValue s m p (required-eq-ok h)
get_from-IsDeepValue (t ∷ rest) m s p h = elim (Option-cases (get (join b'.' (s ∷ t ∷ rest)) m)) [
  | inr (w, present) ↦
      subst IsDeepValue (ok-injective (rw (present, get_from) at h))
        (get-IsDeepValue (join b'.' (s ∷ t ∷ rest)) m p present)
  | inl absent ↦
      let (e, there, h₁) = >>=-eq-ok (required (get s m)) _ (rw (absent, get_from) at h) in
      let (x, is, below) = >>=-eq-ok (to_mapstr e) _ h₁ in
      get_from-IsDeepValue rest x t
        (to_mapstr-IsDeepM e x (get-IsDeepValue s m p (required-eq-ok there)) is) below
]

get_value-IsDeepValue :
    (m : M) (key : Bytes) {v : Value} → IsDeepM m → get_value m key ≡ ok v → IsDeepValue v
get_value-IsDeepValue m key {v} p h = go (split b'.' key) (sym (get_value-pieces m key) ∙ h)
  where
    go : (ps : List Bytes) → get_pieces m ps ≡ ok v → IsDeepValue v
    go [] e = cc
    go (s ∷ rest) e = get_from-IsDeepValue rest m s p e

-- `GetValue` on a clone returns the clone of what it returns on the map, for every dotted key, and the
-- same error where it fails, where no key of a map occurs twice.
pub get_value-ReadsClone :
    (m : M) (key : Bytes) → IsDeepM m → ReadsClone (get_value m key) (get_value (clone m) key)
get_value-ReadsClone m key p = go (get_value m key) refl
  where
    same : get_value (clone m) key ≡ clone_result (get_value m key)
    same = get_value-clone m key (IsDeepM-IsMapM m p)

    go : (r : Result Error Value) → get_value m key ≡ r → ReadsClone r (get_value (clone m) key)
    go (ok v) e = (
      clone_value v,
      same ∙ ap clone_result e,
      clone_value-IsCloneValue v (get_value-IsDeepValue m key p e),
    )
    go (err why) e = same ∙ ap clone_result e
