-- ===== src/Mapstr/Find/Direct.antt =====
-- The operations of mapstr/mapstr.go on a dotted key, as recursions over the pieces of the key in
-- which the sub-map is written where it is found. The proofs about `mapFind` go through these.
use elastic_agent_libs.Prelude.{
  Bytes, split, join, List, [], ◌∷◌, Option, none, some, true, false, Result, ok, err, ◌>>=◌, ◌≡◌,
  refl, ap, arith, Option-cases, inl, inr, ◌∙◌, sym, >>=_assoc, >>=_congr,
}
use elastic_agent_libs.Mapstr.Value.{
  Value, M, Error, key_not_found, get, assign, delete_key, to_mapstr, with_map, store,
}
use elastic_agent_libs.Mapstr.Find.{
  Found, sub_entry, find_from, find_pieces, map_find, get_value, put, delete,
}

-- `data[k]`, or the error of a missing key.
abbrev pub required : Option Value → Result Error Value
required (some v) = ok v
required none = err key_not_found

unfoldable pub get_from : M → Bytes → List Bytes → Result Error Value
get_from d s [] = required (get s d)
get_from d s (t ∷ rest) = elim (get (join b'.' (s ∷ t ∷ rest)) d) [
  | some v ↦ ok v
  | none ↦ do entry ← required (get s d); v ← to_mapstr entry; get_from v t rest
]

abbrev pub write : M → Bytes → Value → Option Value → Result Error (M × Option Value)
write d k v old = do d' ← assign d k v; ok (d', old)

unfoldable pub put_from : M → Bytes → List Bytes → Value → Result Error (M × Option Value)
put_from d s [] v = write d s v (get s d)
put_from d s (t ∷ rest) v =
    let key = join b'.' (s ∷ t ∷ rest) in
    elim (get key d) [
      | some old ↦ write d key v (some old)
      | none ↦ do
        entry ← sub_entry true d s
        m ← to_mapstr entry
        r ← put_from m t rest v
        ok (store d s (with_map entry r.0), r.1)
    ]

abbrev pub erase : M → Bytes → Option Value → Result Error M
erase d k (some v) = ok (delete_key d k)
erase d k none = err key_not_found

unfoldable pub delete_from : M → Bytes → List Bytes → Result Error M
delete_from d s [] = erase d s (get s d)
delete_from d s (t ∷ rest) =
    let key = join b'.' (s ∷ t ∷ rest) in
    elim (get key d) [
      | some old ↦ ok (delete_key d key)
      | none ↦ do
        entry ← required (get s d)
        m ← to_mapstr entry
        r ← delete_from m t rest
        ok (store d s (with_map entry r))
    ]

-- What the three operations do with the result of `mapFind`.
abbrev read_found : Found → Result Error Value
read_found r = elim r.old_value [ some v ↦ ok v | none ↦ err key_not_found ]

abbrev put_found : Value → Found → Result Error (M × Option Value)
put_found v r = do d ← assign r.sub_map r.sub_key v; ok (r.rebuild d, r.old_value)

abbrev delete_found : Found → Result Error M
delete_found r = elim r.old_value [
  | some v ↦ ok (r.rebuild (delete_key r.sub_map r.sub_key))
  | none ↦ err key_not_found
]

-- Reading does not see how the whole map is rebuilt.
read-rebuild :
    (x : Result Error Found) (g : (M → M) → M → M)
    → ((do r ← x; ok (record r { rebuild = g r.rebuild })) >>= read_found) ≡ (x >>= read_found)
read-rebuild (ok r) g = refl
read-rebuild (err e) g = refl

find-get_from :
    (rest : List Bytes) (d : M) (s : Bytes)
    → (find_from false d s rest >>= read_found) ≡ get_from d s rest
unfolding find_from get_from
find-get_from [] d s = ground arith
find-get_from (t ∷ rest) d s = elim (Option-cases (get (join b'.' (s ∷ t ∷ rest)) d)) [
  | inl absent ↦
      rw (absent, find_from, get_from, ◌>>=◌)
        (elim (Option-cases (get s d)) [
          | inl missing ↦ rw (missing, find_from, get_from, ◌>>=◌)
          | inr (e, there) ↦
              rw (there, find_from, get_from, ◌>>=◌)
                (>>=_assoc (to_mapstr e) _ _
                  ∙ >>=_congr (to_mapstr e)
                      λ v. read-rebuild (find_from false v t rest) _ ∙ find-get_from rest v t)
        ])
  | inr (v, present) ↦ rw (present, find_from, get_from, ◌>>=◌)
]

put-rebuild :
    (x : Result Error Found) (v : Value) (g : M → M)
    → ((do r ← x; ok (record r { rebuild = λ m. g (r.rebuild m) })) >>= put_found v)
      ≡ (do p ← x >>= put_found v; ok (g p.0, p.1))
put-rebuild (ok r) v g = sym (>>=_assoc (assign r.sub_map r.sub_key v) _ _)
put-rebuild (err e) v g = refl

find-put_from :
    (rest : List Bytes) (d : M) (s : Bytes) (v : Value)
    → (find_from true d s rest >>= put_found v) ≡ put_from d s rest v
unfolding find_from put_from
find-put_from [] d s v = refl
find-put_from (t ∷ rest) d s v = elim (Option-cases (get (join b'.' (s ∷ t ∷ rest)) d)) [
  | inl absent ↦
      rw (absent, find_from, put_from, ◌>>=◌)
        (>>=_assoc (sub_entry true d s) _ _
          ∙ >>=_congr (sub_entry true d s) λ e.
            >>=_assoc (to_mapstr e) _ _
            ∙ >>=_congr (to_mapstr e) λ m.
              put-rebuild (find_from true m t rest) v (λ x. store d s (with_map e x))
              ∙ ap
                  (λ (x : Result Error (M × Option Value)). do
                    p ← x
                    ok (store d s (with_map e p.0), p.1))
                  (find-put_from rest m t v))
  | inr (w, present) ↦ rw (present, find_from, put_from, ◌>>=◌)
]

delete-rebuild :
    (x : Result Error Found) (g : M → M)
    → ((do r ← x; ok (record r { rebuild = λ m. g (r.rebuild m) })) >>= delete_found)
      ≡ (do m ← x >>= delete_found; ok (g m))
delete-rebuild (ok r) g = ground arith
delete-rebuild (err e) g = refl

find-delete_from :
    (rest : List Bytes) (d : M) (s : Bytes)
    → (find_from false d s rest >>= delete_found) ≡ delete_from d s rest
unfolding find_from delete_from
find-delete_from [] d s = ground arith
find-delete_from (t ∷ rest) d s = elim (Option-cases (get (join b'.' (s ∷ t ∷ rest)) d)) [
  | inl absent ↦
      rw (absent, find_from, delete_from, ◌>>=◌)
        (elim (Option-cases (get s d)) [
          | inl missing ↦ rw (missing, ◌>>=◌)
          | inr (e, there) ↦
              rw (there, ◌>>=◌)
                (>>=_assoc (to_mapstr e) _ _
                  ∙ >>=_congr (to_mapstr e) λ m.
                    delete-rebuild (find_from false m t rest) (λ x. store d s (with_map e x))
                    ∙ ap (λ (x : Result Error M). do p ← x; ok (store d s (with_map e p)))
                        (find-delete_from rest m t))
        ])
  | inr (w, present) ↦ rw (present, find_from, delete_from, ◌>>=◌)
]

-- The three operations, for a key by its pieces.
abbrev pub get_pieces : M → List Bytes → Result Error Value
get_pieces d [] = err key_not_found
get_pieces d (s ∷ rest) = get_from d s rest

abbrev pub put_pieces : M → List Bytes → Value → Result Error (M × Option Value)
put_pieces d [] v = err key_not_found
put_pieces d (s ∷ rest) v = put_from d s rest v

abbrev pub delete_pieces : M → List Bytes → Result Error M
delete_pieces d [] = err key_not_found
delete_pieces d (s ∷ rest) = delete_from d s rest

pieces-get : (ps : List Bytes) (d : M) → (find_pieces false d ps >>= read_found) ≡ get_pieces d ps
pieces-get [] d = refl
pieces-get (s ∷ rest) d = find-get_from rest d s

pieces-put :
    (ps : List Bytes) (d : M) (v : Value)
    → (find_pieces true d ps >>= put_found v) ≡ put_pieces d ps v
pieces-put [] d v = refl
pieces-put (s ∷ rest) d v = find-put_from rest d s v

pieces-delete :
    (ps : List Bytes) (d : M) → (find_pieces false d ps >>= delete_found) ≡ delete_pieces d ps
pieces-delete [] d = refl
pieces-delete (s ∷ rest) d = find-delete_from rest d s

pub get_value-pieces : (d : M) (key : Bytes) → get_value d key ≡ get_pieces d (split b'.' key)
unfolding get_value map_find
get_value-pieces d key = pieces-get (split b'.' key) d

pub put-pieces : (d : M) (key : Bytes) (v : Value) → put d key v ≡ put_pieces d (split b'.' key) v
unfolding put map_find
put-pieces d key v = pieces-put (split b'.' key) d v

pub delete-pieces : (d : M) (key : Bytes) → delete d key ≡ delete_pieces d (split b'.' key)
unfolding delete map_find
delete-pieces d key = pieces-delete (split b'.' key) d
