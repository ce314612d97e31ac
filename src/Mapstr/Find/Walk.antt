-- ===== src/Mapstr/Find/Walk.antt =====
-- On a map without dotted keys `mapFind` is the walk along the pieces of the key.
use elastic_agent_libs.Prelude.{
  Bytes, split, List, [], ◌∷◌, Option, none, some, Result, ok, err, ◌>>=◌, ◌≡◌, refl, ap, sym, ◌∙◌,
  arith, >>=_congr_at, >>=-eq-ok, ok-injective, eq_bytes_refl,
}
use elastic_agent_libs.Mapstr.Value.{
  Value, Fields, M, Error, key_not_found, lookup, insert, remove, get, to_mapstr, with_map,
  lookup-remove,
}
use elastic_agent_libs.Mapstr.Plain.{
  IsPlain, IsPlainMap, lookup-join, lookup-IsPlainValue, to_mapstr-IsPlainMap,
}
use elastic_agent_libs.Mapstr.Find.{get_value, delete}
use elastic_agent_libs.Mapstr.Find.Direct.{
  required, get_from, delete_from, get_pieces, delete_pieces, get_value-pieces, delete-pieces,
}
use elastic_agent_libs.Mapstr.Find.Others.{get_from-absent}
use elastic_agent_libs.Mapstr.Find.PutGet.{
  get_from-below, lookup-insert_head, lookup-insert_self, to_mapstr-with_map,
}

-- The nested maps and the value that a list of pieces names, with no search for longer keys.
unfoldable pub walk : M → List Bytes → Result Error Value
walk d [] = err key_not_found
walk d (s ∷ []) = required (get s d)
walk d (s ∷ t ∷ rest) = do e ← required (get s d); m ← to_mapstr e; walk m (t ∷ rest)

pub required-eq-ok : {o : Option Value} {v : Value} → required o ≡ ok v → o ≡ some v
required-eq-ok {o = none} h = cc
required-eq-ok {o = some w} h = ap some (ok-injective h)

get_from-walk :
    (rest : List Bytes) (d : M) (s : Bytes) → IsPlainMap d → get_from d s rest ≡ walk d (s ∷ rest)
unfolding walk get_from
get_from-walk [] d s p = refl
get_from-walk (t ∷ rest) none s p = refl
get_from-walk (t ∷ rest) (some f) s p =
    get_from-absent f s t rest (lookup-join s t rest f p)
    ∙ >>=_congr_at (required (lookup s f)) λ e there. >>=_congr_at (to_mapstr e) λ m is_map.
      get_from-walk rest m t
        (to_mapstr-IsPlainMap e (lookup-IsPlainValue s f p (required-eq-ok there)) is_map)

-- On a map of which no key holds a dot, at any depth, `GetValue` returns what the walk along the
-- pieces of the key returns, errors included: the key is missing, or an entry on the way is no map.
pub get_value-walk :
    (m : M) (key : Bytes) → IsPlainMap m → get_value m key ≡ walk m (split b'.' key)
get_value-walk m key p = rw get_value-pieces (go (split b'.' key))
  where
    go : (ps : List Bytes) → get_pieces m ps ≡ walk m ps
    go [] = unfold walk in refl
    go (s ∷ rest) = get_from-walk rest m s p

-- A `Delete` below the first level of a plain map: the entry that it goes through.
record DeletesBelow (f : Fields) (s t : Bytes) (rest : List Bytes) (m' : M) : Type 0 where
  entry : Value
  inner : M
  inner' : M
  found : lookup s f ≡ some entry
  is_map : to_mapstr entry ≡ ok inner
  below : delete_from inner t rest ≡ ok inner'
  result : m' ≡ some (insert s (with_map entry inner') f)

delete_from-DeletesBelow :
    (f : Fields) (s t : Bytes) (rest : List Bytes) {m' : M}
    → IsPlain f
    → delete_from (some f) s (t ∷ rest) ≡ ok m'
    → DeletesBelow f s t rest m'
unfolding delete_from
delete_from-DeletesBelow f s t rest p h =
    let (e, found, h₁) =
      >>=-eq-ok (required (lookup s f)) _ (rw (lookup-join s t rest f p, delete_from) at h) in
    let (m, is_map, h₂) = >>=-eq-ok (to_mapstr e) _ h₁ in
    let (r, below, h₃) = >>=-eq-ok (delete_from m t rest) _ h₂ in
    record {
      entry = e;
      inner = m;
      inner' = r;
      found = required-eq-ok found;
      is_map = is_map;
      below = below;
      result = sym (ok-injective h₃);
    }

delete_from-some :
    (d : M) (s : Bytes) (rest : List Bytes) {m' : M}
    → IsPlainMap d
    → delete_from d s rest ≡ ok m'
    → (f : Fields) × (g : Fields) × (d ≡ some f) × (m' ≡ some g)
delete_from-some none s [] p h = unfold delete_from in cc
delete_from-some (some f) s [] p h = (f, remove s f, refl, unfold delete_from in ground arith)
delete_from-some none s (t ∷ rest) p h = unfold delete_from in cc
delete_from-some (some f) s (t ∷ rest) p h =
    let d = delete_from-DeletesBelow f s t rest p h in
    (f, insert s (with_map d.entry d.inner') f, refl, d.result)

get_from-delete_from :
    (rest : List Bytes) (d : M) (s : Bytes) {m' : M}
    → IsPlainMap d
    → delete_from d s rest ≡ ok m'
    → get_from m' s rest ≡ err key_not_found
get_from-delete_from [] none s p h = unfold delete_from in cc
get_from-delete_from [] (some f) s p h =
    unfold delete_from get_from in ground (arith, lookup-remove s s f, eq_bytes_refl s)
get_from-delete_from (t ∷ rest) none s p h = unfold delete_from in cc
get_from-delete_from (t ∷ rest) (some f) s p h =
    let d = delete_from-DeletesBelow f s t rest p h in
    let q = to_mapstr-IsPlainMap d.entry (lookup-IsPlainValue s f p d.found) d.is_map in
    let (i, g, was, now) = delete_from-some d.inner t rest q d.below in
    rw d.result (
      get_from-below _ s t rest (lookup-insert_head s t rest _ f ∙ lookup-join s t rest f p)
        (lookup-insert_self s _ f) (rw now (to_mapstr-with_map d.entry g (d.is_map ∙ ap ok was)))
      ∙ get_from-delete_from rest d.inner t q d.below)

-- On a map of which no key holds a dot, at any depth, `GetValue` no longer finds a key that
-- `Delete` has deleted.
pub get_value-delete_self :
    (m : M) (key : Bytes) {m' : M}
    → IsPlainMap m
    → delete m key ≡ ok m'
    → get_value m' key ≡ err key_not_found
get_value-delete_self m key {m'} p h =
    rw get_value-pieces (go (split b'.' key) (rw delete-pieces at h))
  where
    go : (ps : List Bytes) → delete_pieces m ps ≡ ok m' → get_pieces m' ps ≡ err key_not_found
    go [] e = refl
    go (s ∷ rest) e = get_from-delete_from rest m s p e
