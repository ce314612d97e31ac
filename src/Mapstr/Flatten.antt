-- ===== src/Mapstr/Flatten.antt =====
-- mapstr/mapstr.go: `Flatten` and `FlattenKeys`.
pub mod Leaves
use elastic_agent_libs.Prelude.{Bytes, List, [], ◌∷◌, ◌++◌, none, some}
use elastic_agent_libs.Mapstr.Value.{
  Value, mapstr, nil_mapstr, raw_map, nil_raw_map, Fields, end, field, M, insert,
}

-- The `fullKey` of an entry.
unfoldable pub full_key : Bytes → Bytes → Bytes
full_key [] k = k
full_key (c ∷ prefix) k = (c ∷ prefix) ++ b'.' ∷ k

unfoldable mutual
  -- The loop of `flatten(prefix, in, out)`.
  pub flatten_onto : Fields → Bytes → Fields → Fields
  flatten_onto end prefix out = out
  flatten_onto (field k v m) prefix out =
      flatten_onto m prefix (flatten_value v (full_key prefix k) out)

  -- The body of the loop.
  pub flatten_value : Value → Bytes → Fields → Fields
  flatten_value (mapstr m) key out = flatten_onto m key out
  flatten_value (raw_map m) key out = flatten_onto m key out
  flatten_value nil_mapstr key out = out
  flatten_value nil_raw_map key out = out
  flatten_value v key out = insert key v out

-- `M.Flatten`.
unfoldable pub flatten : M → Fields
flatten none = end
flatten (some m) = flatten_onto m [] end

unfoldable mutual
  -- The loop of `flattenKeys(prefix, in, out)`.
  pub flatten_keys_onto : Fields → Bytes → List Bytes → List Bytes
  flatten_keys_onto end prefix out = out
  flatten_keys_onto (field k v m) prefix out =
      flatten_keys_onto m prefix
        (flatten_keys_value v (full_key prefix k) out ++ full_key prefix k ∷ [])

  -- The recursive call in its body, where the value is a map.
  pub flatten_keys_value : Value → Bytes → List Bytes → List Bytes
  flatten_keys_value (mapstr m) key out = flatten_keys_onto m key out
  flatten_keys_value (raw_map m) key out = flatten_keys_onto m key out
  flatten_keys_value v key out = out

-- `M.FlattenKeys`.
unfoldable pub flatten_keys : M → List Bytes
flatten_keys none = []
flatten_keys (some m) = flatten_keys_onto m [] []
