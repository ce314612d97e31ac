-- ===== src/Mapstr/Find.antt =====
-- mapstr/mapstr.go: `mapFind` and the operations on a dotted key that are built on it.
pub mod Direct
pub mod PutGet
pub mod Others
pub mod Walk
pub mod Old
use elastic_agent_libs.Prelude.{
  Bytes, split, join, List, [], ◌∷◌, Option, none, some, Bool, true, false, Result, ok, err, ◌>>=◌,
  ◌>>◌, if◌then◌else◌,
}
use elastic_agent_libs.Mapstr.Value.{
  Value, mapstr, end, M, Error, key_not_found, get, assign, delete_key, to_mapstr, with_map, store,
}

-- What `mapFind` returns. `sub_map` is a reference into the map that was searched: `rebuild` gives
-- that whole map once the sub-map has another content, with the maps that were created on the way.
pub record Found : Type 0 where
  pub sub_key : Bytes
  pub sub_map : M
  pub old_value : Option Value
  pub rebuild : M → M

-- The entry `data[k]` on the way down, created where it is missing and `create` is set.
abbrev pub sub_entry : Bool → M → Bytes → Result Error Value
sub_entry create d k = elim (get k d) [
  | some v ↦ ok v
  | none ↦ if create then (do assign d k (mapstr end); ok (mapstr end)) else err key_not_found
]

-- The loop of `mapFind`, the key split at its dots: `key[:idx]` is the first piece, and the rest
-- of the key is the join of the pieces that follow.
unfoldable pub find_from : Bool → M → Bytes → List Bytes → Result Error Found
find_from create d s [] =
    ok (record { sub_key = s; sub_map = d; old_value = get s d; rebuild = λ m. m })
find_from create d s (t ∷ rest) =
    let key = join b'.' (s ∷ t ∷ rest) in
    elim (get key d) [
      | some v ↦ ok (record { sub_key = key; sub_map = d; old_value = some v; rebuild = λ m. m })
      | none ↦ do
        entry ← sub_entry create d s
        v ← to_mapstr entry
        r ← find_from create v t rest
        ok (record r { rebuild = λ m. store d s (with_map entry (r.rebuild m)) })
    ]

abbrev pub find_pieces : Bool → M → List Bytes → Result Error Found
find_pieces create d [] = err key_not_found
find_pieces create d (s ∷ rest) = find_from create d s rest

-- `mapFind`.
unfoldable pub map_find : Bytes → M → Bool → Result Error Found
map_find key d create = find_pieces create d (split b'.' key)

-- `M.GetValue`.
unfoldable pub get_value : M → Bytes → Result Error Value
get_value m key = do
  r ← map_find key m false
  elim r.old_value [ some v ↦ ok v | none ↦ err key_not_found ]

-- `M.HasKey`.
unfoldable pub has_key : M → Bytes → Result Error Bool
has_key m key = do r ← map_find key m false; ok (elim r.old_value [ some v ↦ true | none ↦ false ])

-- `M.Put`: the map that it leaves, and the old value.
unfoldable pub put : M → Bytes → Value → Result Error (M × Option Value)
put m key value = do
  r ← map_find key m true
  d ← assign r.sub_map r.sub_key value
  ok (r.rebuild d, r.old_value)

-- `M.Delete`.
unfoldable pub delete : M → Bytes → Result Error M
delete m key = do
  r ← map_find key m false
  elim r.old_value [
    | some v ↦ ok (r.rebuild (delete_key r.sub_map r.sub_key))
    | none ↦ err key_not_found
  ]

-- `M.CopyFieldsTo`.
unfoldable pub copy_fields_to : M → M → Bytes → Result Error M
copy_fields_to m to key = do v ← get_value m key; r ← put to key v; ok r.0
