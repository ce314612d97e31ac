-- ===== src/Safemapstr.antt =====
-- safemapstr/safemapstr.go: a `Put` that never overwrites a map or a value on the way to its key.
pub mod Stored
use elastic_agent_libs.Prelude.{
  Bytes, codes, split, join, List, [], ◌∷◌, none, some, Result, ok, err, ◌>>=◌, ◌>>◌,
}
use elastic_agent_libs.Mapstr.Value.{
  Value, mapstr, end, field, M, Error, key_not_found, get, assign, try_to_mapstr, with_map, store,
}

abbrev pub alternative_key : Bytes
alternative_key = codes "value"

-- What `mapFind` returns, with the whole map once the sub-map has another content.
pub record Place : Type 0 where
  pub sub_map : M
  pub sub_key : Bytes
  pub rebuild : M → M

-- Where an existing value is: in it if it is a map, else at its key.
unfoldable pub place_at : M → Bytes → Value → Place
place_at d key old = elim (try_to_mapstr old) [
  | some m ↦ record {
    sub_map = m;
    sub_key = alternative_key;
    rebuild = λ x. store d key (with_map old x);
  }
  | none ↦ record { sub_map = d; sub_key = key; rebuild = λ x. x }
]

-- The entry `data[k]` on the way down as a map: a new one where there is none, and one that holds the
-- old value under the alternative key where the old value is no map.
unfoldable pub enter : M → Bytes → Result Error Value
enter d k = elim (get k d) [
  | none ↦ do assign d k (mapstr end); ok (mapstr end)
  | some old ↦ elim (try_to_mapstr old) [
    | some m ↦ ok old
    | none ↦ do let v = mapstr (field alternative_key old end); assign d k v; ok v
  ]
]

abbrev pub content : Value → M
content v = elim (try_to_mapstr v) [ some m ↦ m | none ↦ none ]

-- The loop of `mapFind`, the key split at its dots.
unfoldable pub safe_find_from : M → Bytes → List Bytes → Result Error Place
unfolding place_at enter
safe_find_from d s [] = elim (get s d) [
  | some old ↦ ok (place_at d s old)
  | none ↦ ok (record { sub_map = d; sub_key = s; rebuild = λ x. x })
]
safe_find_from d s (t ∷ rest) =
    let key = join b'.' (s ∷ t ∷ rest) in
    elim (get key d) [
      | some old ↦ ok (place_at d key old)
      | none ↦ do
        v ← enter d s
        r ← safe_find_from (content v) t rest
        ok (record r { rebuild = λ x. store d s (with_map v (r.rebuild x)) })
    ]

abbrev pub safe_find_pieces : M → List Bytes → Result Error Place
safe_find_pieces d [] = err key_not_found
safe_find_pieces d (s ∷ rest) = safe_find_from d s rest

-- `Put`.
unfoldable pub safe_put : M → Bytes → Value → Result Error M
unfolding safe_find_from
safe_put d key value = do
  r ← safe_find_pieces d (split b'.' key)
  m ← assign r.sub_map r.sub_key value
  ok (r.rebuild m)
