-- ===== src/Mapstr/Find/PutGet.antt =====
-- `Put` followed by `GetValue`, for every map: also where keys hold dots.
use elastic_agent_libs.Prelude.{
  Bytes, join, join-ne_head, eq_bytes_refl, split, List, [], ◌∷◌, Option, none, some, true, Result,
  ok, ◌>>=◌, >>=-eq-ok, ◌≡◌, refl, arith, ◌∙◌, ap, Option-cases, inl, inr,
}
use elastic_agent_libs.Mapstr.Value.{
  Value, mapstr, raw_map, Fields, M, Error, lookup, insert, lookup-insert, to_mapstr, with_map,
  store,
}
use elastic_agent_libs.Mapstr.Find.{sub_entry, get_value, put}
use elastic_agent_libs.Mapstr.Find.Direct.{
  get_from, put_from, put_pieces, get_pieces, get_value-pieces, put-pieces,
}

module _ (f : Fields) (s t : Bytes) (rest : List Bytes) (v : Value) where
  -- A successful write below the first level: the entry that it goes through, the map that the entry
  -- holds, and what is left of that map.
  pub record Descends (m' : M) (old : Option Value) : Type 0 where
    pub entry : Value
    pub inner : M
    pub inner' : M
    pub found : sub_entry true (some f) s ≡ ok entry
    pub is_map : to_mapstr entry ≡ ok inner
    pub below : put_from inner t rest v ≡ ok (inner', old)
    pub result : m' ≡ some (insert s (with_map entry inner') f)

  Descends-intro :
      {m' : M} {old : Option Value} (e : Value) (m : M) (r : M × Option Value)
      → sub_entry true (some f) s ≡ ok e
      → to_mapstr e ≡ ok m
      → put_from m t rest v ≡ ok r
      → ◌≡◌ {A = Result Error (M × Option Value)}
          (ok (store (some f) s (with_map e r.0), r.1))
          (ok (m', old))
      → Descends m' old
  Descends-intro e m (i, o) found is_map below h = record {
    entry = e;
    inner = m;
    inner' = i;
    found = found;
    is_map = is_map;
    below = below ∙ ground arith;
    result = ground arith;
  }

  pub put_from-Descends :
      {m' : M} {old : Option Value}
      → lookup (join b'.' (s ∷ t ∷ rest)) f ≡ none
      → put_from (some f) s (t ∷ rest) v ≡ ok (m', old)
      → Descends m' old
  unfolding put_from
  put_from-Descends {m'} {old} absent h =
      let (e, found, h₁) = >>=-eq-ok (sub_entry true (some f) s) _ (rw (absent, put_from) at h) in
      let (m, is_map, h₂) = >>=-eq-ok (to_mapstr e) _ h₁ in
      let (r, below, h₃) = >>=-eq-ok (put_from m t rest v) _ h₂ in
      Descends-intro e m r found is_map below h₃

  pub put_from-present :
      {m' : M} {old : Option Value} (w : Value)
      → lookup (join b'.' (s ∷ t ∷ rest)) f ≡ some w
      → put_from (some f) s (t ∷ rest) v ≡ ok (m', old)
      → (m' ≡ some (insert (join b'.' (s ∷ t ∷ rest)) v f)) × (old ≡ some w)
  unfolding put_from
  put_from-present w present h = ground arith

-- A write that succeeds leaves a map that is not nil.
pub put_from-some :
    (d : M) (s : Bytes) (rest : List Bytes) (v : Value) {m' : M} {old : Option Value}
    → put_from d s rest v ≡ ok (m', old)
    → (f : Fields) × (g : Fields) × (d ≡ some f) × (m' ≡ some g)
unfolding put_from
put_from-some none s [] v h = cc
put_from-some (some f) s [] v h = (f, insert s v f, refl, ground arith)
put_from-some none s (t ∷ rest) v h = cc
put_from-some (some f) s (t ∷ rest) v h =
    elim (Option-cases (lookup (join b'.' (s ∷ t ∷ rest)) f)) [
      | inl absent ↦
          let d = put_from-Descends f s t rest v absent h in
          (f, insert s (with_map d.entry d.inner') f, refl, d.result)
      | inr (w, present) ↦ (
        f,
        insert (join b'.' (s ∷ t ∷ rest)) v f,
        refl,
        (put_from-present f s t rest v w present h).0,
      )
    ]

-- Through an entry that is a map, what was written is read back.
pub to_mapstr-with_map :
    (e : Value) {f : Fields} (g : Fields)
    → to_mapstr e ≡ ok (some f)
    → to_mapstr (with_map e (some g)) ≡ ok (some g)
to_mapstr-with_map (mapstr _) g h = refl
to_mapstr-with_map (raw_map _) g h = refl
to_mapstr-with_map _ g h = cc

pub get_from-present :
    (f : Fields) (s t : Bytes) (rest : List Bytes) {w : Value}
    → lookup (join b'.' (s ∷ t ∷ rest)) f ≡ some w
    → get_from (some f) s (t ∷ rest) ≡ ok w
unfolding get_from
get_from-present f s t rest h = rw (h, get_from)

pub get_from-below :
    (f : Fields) (s t : Bytes) (rest : List Bytes) {e : Value} {m : M}
    → lookup (join b'.' (s ∷ t ∷ rest)) f ≡ none
    → lookup s f ≡ some e
    → to_mapstr e ≡ ok m
    → get_from (some f) s (t ∷ rest) ≡ get_from m t rest
unfolding get_from
get_from-below f s t rest absent there is_map =
    rw (absent, get_from) (rw (there, ◌>>=◌) (rw (is_map, ◌>>=◌)))

pub lookup-insert_self : (k : Bytes) (v : Value) (f : Fields) → lookup k (insert k v f) ≡ some v
lookup-insert_self k v f = rw (lookup-insert, eq_bytes_refl)

pub lookup-insert_head :
    (s t : Bytes) (rest : List Bytes) (v : Value) (f : Fields)
    → lookup (join b'.' (s ∷ t ∷ rest)) (insert s v f) ≡ lookup (join b'.' (s ∷ t ∷ rest)) f
lookup-insert_head s t rest v f = rw (lookup-insert, join-ne_head b'.' s t rest)

-- The entry that a write went through, once it has been written, is the map that was left of it.
pub Descends-is_map :
    (f : Fields) (s t : Bytes) (rest : List Bytes) (v : Value) {m' : M} {old : Option Value}
    (d : Descends f s t rest v m' old)
    → to_mapstr (with_map d.entry d.inner') ≡ ok d.inner'
Descends-is_map f s t rest v d =
    let (i, g, p, q) = put_from-some d.inner t rest v d.below in
    rw q (to_mapstr-with_map d.entry g (d.is_map ∙ ap ok p))

get-put_from :
    (d : M) (s : Bytes) (rest : List Bytes) (v : Value) {m' : M} {old : Option Value}
    → put_from d s rest v ≡ ok (m', old)
    → get_from m' s rest ≡ ok v
get-put_from none s [] v h = unfold put_from in cc
get-put_from (some f) s [] v h =
    unfold put_from get_from in ground (arith, lookup-insert_self s v f)
get-put_from none s (t ∷ rest) v h = unfold put_from in cc
get-put_from (some f) s (t ∷ rest) v h = elim (Option-cases (lookup (join b'.' (s ∷ t ∷ rest)) f)) [
  | inl absent ↦
      let d = put_from-Descends f s t rest v absent h in
      rw d.result (
        get_from-below _ s t rest (lookup-insert_head s t rest _ f ∙ absent)
          (lookup-insert_self s _ f) (Descends-is_map f s t rest v d)
        ∙ get-put_from d.inner t rest v d.below)
  | inr (w, present) ↦
      rw ((put_from-present f s t rest v w present h).0)
        (get_from-present _ s t rest (lookup-insert_self _ v f))
]

-- After a `Put` that succeeds, `GetValue` of the same dotted key returns the value that was put,
-- whatever the map held before, keys with dots included.
pub get_value-put_self :
    (m : M) (key : Bytes) (v : Value) {m' : M} {old : Option Value}
    → put m key v ≡ ok (m', old)
    → get_value m' key ≡ ok v
get_value-put_self m key v {m'} {old} h =
    rw get_value-pieces (go (split b'.' key) (rw put-pieces at h))
  where
    go : (ps : List Bytes) → put_pieces m ps v ≡ ok (m', old) → get_pieces m' ps ≡ ok v
    go [] e = cc
    go (s ∷ rest) e = get-put_from m s rest v e
