-- ===== src/Mapstr/Merge.antt =====
-- mapstr/mapstr.go: `Update`, `DeepUpdate`, `Union`, `MergeFields` and their helpers. A map that is
-- ranged over is a list of entries in the order of one iteration.
pub mod Lookup
pub mod Leaves
use elastic_agent_libs.Prelude.{
  Bytes, Option, none, some, Bool, true, false, Result, ok, err, ◌>>=◌, codes, if◌then◌else◌,
}
use elastic_agent_libs.Mapstr.Value.{
  Value, mapstr, nil_mapstr, raw_map, nil_raw_map, Fields, end, field, M, Error, nil_map_write,
  lookup, insert, to_mapstr, with_map, of_map,
}

-- `for k, v := range d { m[k] = v }`.
unfoldable pub copy_onto : Fields → Fields → Fields
copy_onto m end = m
copy_onto m (field k v d) = copy_onto (insert k v m) d

-- A loop of writes to `m` over the entries of `d`: no entries, no write and so no panic.
abbrev pub range_onto : (Fields → Fields → Fields) → M → M → Result Error M
range_onto body m none = ok m
range_onto body m (some end) = ok m
range_onto body none (some (field k v d)) = err nil_map_write
range_onto body (some m) (some (field k v d)) = ok (some (body m (field k v d)))

-- `M.Update`.
unfoldable pub update : M → M → Result Error M
unfolding copy_onto
update = range_onto copy_onto

-- `deepUpdateValue(old, val, overwrite)`; `merge` is the method call `sub.deepUpdateMap(val, overwrite)`.
unfoldable pub deep_update_value : Option Value → M → (Fields → Fields) → Value
deep_update_value (some (mapstr sub)) val merge = mapstr (merge sub)
deep_update_value (some (raw_map sub)) val merge = mapstr (merge sub)
deep_update_value _ val merge = of_map val

-- The default case of the switch in `deepUpdateMap`.
unfoldable pub put_scalar : Bool → Bytes → Value → Fields → Fields
put_scalar true k v m = insert k v m
put_scalar false k v m = elim (lookup k m) [ some w ↦ m | none ↦ insert k v m ]

-- The loop of `deepUpdateMap` and its body, on a map that is not nil.
unfoldable mutual
  pub deep_onto : Fields → Bool → Fields → Fields
  deep_onto end overwrite m = m
  deep_onto (field k v d) overwrite m = deep_onto d overwrite (deep_entry v overwrite k m)

  pub deep_entry : Value → Bool → Bytes → Fields → Fields
  deep_entry (raw_map val) overwrite k m =
      insert k (deep_update_value (lookup k m) (some val) (deep_onto val overwrite)) m
  deep_entry nil_raw_map overwrite k m =
      insert k (deep_update_value (lookup k m) none (λ sub. sub)) m
  deep_entry (mapstr val) overwrite k m =
      insert k (deep_update_value (lookup k m) (some val) (deep_onto val overwrite)) m
  deep_entry nil_mapstr overwrite k m =
      insert k (deep_update_value (lookup k m) none (λ sub. sub)) m
  deep_entry v overwrite k m = put_scalar overwrite k v m

-- `deepUpdateMap`. On a nil map the first write panics; with `overwrite` unset there is one too,
-- since a nil map has no key.
unfoldable pub deep_update_map : M → M → Bool → Result Error M
deep_update_map m d overwrite = range_onto (λ f e. deep_onto e overwrite f) m d

-- `M.DeepUpdate`.
unfoldable pub deep_update : M → M → Result Error M
unfolding deep_update_map
deep_update m d = deep_update_map m d true

-- `M.DeepUpdateNoOverwrite`.
unfoldable pub deep_update_no_overwrite : M → M → Result Error M
unfolding deep_update_map
deep_update_no_overwrite m d = deep_update_map m d false

-- `Union`.
unfoldable pub union : M → M → Result Error M
unfolding copy_onto
union dict1 dict2 = do
  first ← range_onto copy_onto (some end) dict1
  range_onto copy_onto first dict2

abbrev pub fields_key : Bytes
fields_key = codes "fields"

abbrev pub is_empty : M → Bool
is_empty none = true
is_empty (some end) = true
is_empty (some (field _ _ _)) = false

-- `mergeFieldsGetDestMap`: the destination, and the target once the destination has another content.
pub record Dest : Type 0 where
  pub dest : M
  pub rebuild : M → M

unfoldable pub get_dest_map : Fields → Bool → Result Error Dest
get_dest_map target true = ok (record { dest = some target; rebuild = λ m. m })
get_dest_map target false = elim (lookup fields_key target) [
  | some f ↦ do
    m ← to_mapstr f
    ok (record { dest = m; rebuild = λ d. some (insert fields_key (with_map f d) target) })
  | none ↦
      ok (record { dest = some end; rebuild = λ d. some (insert fields_key (of_map d) target) })
]

-- The body that `MergeFields` and `MergeFieldsDeep` share, `merge` being the loop of writes.
unfoldable pub merge_into : (M → M → Result Error M) → M → M → Bool → Result Error M
unfolding get_dest_map
merge_into merge none from under_root = ok none
merge_into merge (some target) from under_root =
    if is_empty from
    then ok (some target)
    else do d ← get_dest_map target under_root; m ← merge d.dest from; ok (d.rebuild m)

-- `MergeFields`.
unfoldable pub merge_fields : M → M → Bool → Result Error M
unfolding merge_into copy_onto
merge_fields = merge_into (range_onto copy_onto)

-- `MergeFieldsDeep`.
unfoldable pub merge_fields_deep : M → M → Bool → Result Error M
unfolding merge_into deep_update
merge_fields_deep = merge_into deep_update
