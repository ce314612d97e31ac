-- ===== src/Mapstr/Find/Old.antt =====
-- The old value that `Put` returns, and what `HasKey` says.
use elastic_agent_libs.Prelude.{
  Bytes, join, split, List, [], ◌∷◌, Option, none, some, Bool, true, false, Result, ok, err, ◌>>=◌,
  ◌≡◌, ◌↔◌, ok-injective, refl, ap, sym, ◌∙◌, arith, Option-cases, inl, inr,
}
use mathlib.Core.Bool.{false≢true}
use elastic_agent_libs.Mapstr.Value.{Value, M, Error, key_not_found, lookup}
use elastic_agent_libs.Mapstr.Find.{Found, map_find, get_value, has_key, put}
use elastic_agent_libs.Mapstr.Find.Direct.{
  required, get_from, put_from, put_pieces, get_pieces, get_value-pieces, put-pieces,
}
use elastic_agent_libs.Mapstr.Find.PutGet.{
  put_from-Descends, put_from-present, get_from-present, get_from-below,
}
use elastic_agent_libs.Mapstr.Find.Others.{entry_was, get_from-end, get_from-missing}

old-put_from :
    (rest : List Bytes) (d : M) (s : Bytes) (v : Value) {m' : M} {old : Option Value}
    → put_from d s rest v ≡ ok (m', old)
    → get_from d s rest ≡ required old
old-put_from [] none s v h = unfold put_from in cc
old-put_from [] (some f) s v h = unfold put_from get_from in ground arith
old-put_from (t ∷ rest) none s v h = unfold put_from in cc
old-put_from (t ∷ rest) (some f) s v h = elim (Option-cases (lookup (join b'.' (s ∷ t ∷ rest)) f)) [
  | inr (w, present) ↦
      get_from-present f s t rest present
      ∙ ap required (sym (put_from-present f s t rest v w present h).1)
  | inl absent ↦
      let d = put_from-Descends f s t rest v absent h in
      let below = old-put_from rest d.inner t v d.below in
      elim (entry_was f s d.found d.is_map) [
        | inl there ↦ get_from-below f s t rest absent there d.is_map ∙ below
        | inr (missing, new) ↦
            get_from-missing f s t rest absent missing
            ∙ sym (get_from-end t rest)
            ∙ (rw new at below)
      ]
]

-- A `Put` that succeeds returns as old value the value that `GetValue` found at the key before, and
-- no old value exactly where `GetValue` found no such key.
pub put-old :
    (m : M) (key : Bytes) (v : Value) {m' : M} {old : Option Value}
    → put m key v ≡ ok (m', old)
    → get_value m key ≡ (elim old [ some w ↦ ok w | none ↦ err key_not_found ])
put-old m key v {m'} {old} h = rw get_value-pieces (go (split b'.' key) (rw put-pieces at h))
  where
    go : (ps : List Bytes) → put_pieces m ps v ≡ ok (m', old) → get_pieces m ps ≡ required old
    go [] e = cc
    go (s ∷ rest) e = old-put_from rest m s v e

has_value :
    (o : Option Value)
    → (◌≡◌ {A = Result Error Bool} (ok (elim o [ some v ↦ true | none ↦ false ])) (ok true))
      ↔ ((v : Value) × (required o ≡ ok v))
has_value none = (λ h. absurd (false≢true (ok-injective h)), λ (v, h). cc)
has_value (some w) = (λ _. (w, refl), λ _. refl)

has_found :
    (x : Result Error Found)
    → ((do r ← x; ok (elim r.old_value [ some v ↦ true | none ↦ false ])) ≡ ok true)
      ↔ ((v : Value) × ((do r ← x; required r.old_value) ≡ ok v))
has_found (ok r) = has_value r.old_value
has_found (err e) = (λ h. cc, λ (v, h). cc)

-- `HasKey` says yes exactly where `GetValue` returns a value.
pub has_key-get_value :
    (m : M) (key : Bytes) → (has_key m key ≡ ok true) ↔ ((v : Value) × (get_value m key ≡ ok v))
unfolding has_key get_value
has_key-get_value m key = has_found (map_find key m false)
