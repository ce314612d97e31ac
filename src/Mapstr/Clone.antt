-- ===== src/Mapstr/Clone.antt =====
-- mapstr/mapstr.go: `Clone` and `cloneMap`. That a clone shares no map with its source is not
-- modelled: maps are values here.
pub mod Lookup
pub mod Deep
pub mod Read
use elastic_agent_libs.Prelude.{Option, none, some}
use elastic_agent_libs.Mapstr.Value.{
  Value, mapstr, nil_mapstr, raw_map, nil_raw_map, mapstrs, raw_maps, Fields, end, field, Maps,
  no_maps, map_item, nil_item, M, insert,
}

unfoldable mutual
  -- The loop of `cloneMap(dst, src)`.
  pub clone_onto : Fields → Fields → Fields
  clone_onto end dst = dst
  clone_onto (field k v src) dst = clone_onto src (insert k (clone_value v) dst)

  -- The value that the body of the loop writes. `make` and the loop over a nil map leave an empty map.
  pub clone_value : Value → Value
  clone_value (mapstr v) = mapstr (clone_onto v end)
  clone_value nil_mapstr = mapstr end
  clone_value (raw_map v) = mapstr (clone_onto v end)
  clone_value nil_raw_map = mapstr end
  clone_value (mapstrs v) = mapstrs (clone_maps v)
  clone_value (raw_maps v) = mapstrs (clone_maps v)
  clone_value v = v

  -- The loop over a slice of maps.
  pub clone_maps : Maps → Maps
  clone_maps no_maps = no_maps
  clone_maps (map_item m v) = map_item (clone_onto m end) (clone_maps v)
  clone_maps (nil_item v) = map_item end (clone_maps v)

-- `M.Clone`.
unfoldable pub clone : M → M
clone none = some end
clone (some m) = some (clone_onto m end)
