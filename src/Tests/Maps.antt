-- ===== src/Tests/Maps.antt =====
-- mapstr/mapstr.go on small maps: reads and writes at dotted keys, clones and flattened maps.
use elastic_agent_libs.Prelude.{
  codes, split, join, eq_bytes, diverges, contains, none, some, true, false, ok, err, ◌≡◌, refl,
}
use elastic_agent_libs.Mapstr.Value.{
  mapstr, raw_map, raw_maps, map_item, nil_item, no_maps, other, text, Fields, end, field,
  key_not_found, lookup, insert, remove,
}
use elastic_agent_libs.Mapstr.Plain.{IsPlainMap}
use elastic_agent_libs.Mapstr.Find.{find_from, map_find, get_value, put, delete}
use elastic_agent_libs.Mapstr.Find.PutGet.{get_value-put_self}
use elastic_agent_libs.Mapstr.Find.Others.{get_value-put_ne}
use elastic_agent_libs.Mapstr.Find.Walk.{walk, get_value-walk, get_value-delete_self}
use elastic_agent_libs.Mapstr.Clone.{clone}
use elastic_agent_libs.Mapstr.Clone.Deep.{IsDeepM, IsClone, clone-IsClone}
use elastic_agent_libs.Mapstr.Clone.Read.{ReadsClone, get_value-ReadsClone}
use elastic_agent_libs.Mapstr.Flatten.{full_key, flatten, flatten_onto}
use elastic_agent_libs.Mapstr.Merge.Leaves.{is_map}
use elastic_agent_libs.Mapstr.Flatten.Leaves.{flatten-IsFlat}

abbrev nested : Fields
nested =
    field (codes "a") (mapstr (field (codes "b") (other 1) end))
      (field (codes "t") (text (codes "z")) end)

abbrev grown : Fields
grown =
    field (codes "a") (mapstr (field (codes "b") (other 1) (field (codes "c") (other 2) end)))
      (field (codes "t") (text (codes "z")) end)

abbrev shrunk : Fields
shrunk = field (codes "a") (mapstr end) (field (codes "t") (text (codes "z")) end)

nested-IsPlainMap : IsPlainMap (some nested)
unfolding contains
nested-IsPlainMap = (refl, (refl, tt, tt), (refl, tt, tt))

put-nested : put (some nested) (codes "a.c") (other 2) ≡ ok (some grown, none)
unfolding put map_find find_from split lookup insert eq_bytes join
put-nested = refl

delete-nested : delete (some nested) (codes "a.b") ≡ ok (some shrunk)
unfolding delete map_find find_from split lookup insert remove eq_bytes join
delete-nested = refl

diverges_example : diverges (split b'.' (codes "a.c")) (split b'.' (codes "a.b")) ≡ true
unfolding diverges split eq_bytes
diverges_example = refl

get_value-put_self_example : get_value (some grown) (codes "a.c") ≡ ok (other 2)
get_value-put_self_example = get_value-put_self (some nested) (codes "a.c") (other 2) put-nested

get_value-put_ne_example :
    get_value (some grown) (codes "a.b") ≡ get_value (some nested) (codes "a.b")
get_value-put_ne_example =
    get_value-put_ne (some nested) (codes "a.c") (codes "a.b") (other 2) diverges_example put-nested

get_value-walk_example :
    get_value (some nested) (codes "a.b") ≡ walk (some nested) (split b'.' (codes "a.b"))
get_value-walk_example = get_value-walk (some nested) (codes "a.b") nested-IsPlainMap

get_value-delete_self_example : get_value (some shrunk) (codes "a.b") ≡ err key_not_found
get_value-delete_self_example =
    get_value-delete_self (some nested) (codes "a.b") nested-IsPlainMap delete-nested

-- A map with a slice of maps, one of them nil.
abbrev sliced : Fields
sliced = field (codes "a") (raw_map (field (codes "b") (other 1) end)) (
    field (codes "m")
      (raw_maps (map_item (field (codes "b") (text (codes "z")) end) (nil_item no_maps))) end)

sliced-IsDeepM : IsDeepM (some sliced)
unfolding lookup eq_bytes
sliced-IsDeepM = (refl, (refl, tt, tt), (refl, ((refl, tt, tt), tt), tt))

clone-IsClone_example : IsClone (some sliced) (clone (some sliced))
clone-IsClone_example = clone-IsClone (some sliced) sliced-IsDeepM

get_value-ReadsClone_example :
    ReadsClone
      (get_value (some sliced) (codes "a.b"))
      (get_value (clone (some sliced)) (codes "a.b"))
get_value-ReadsClone_example = get_value-ReadsClone (some sliced) (codes "a.b") sliced-IsDeepM

lookup-flatten : lookup (codes "a.b") (flatten (some nested)) ≡ some (other 1)
unfolding lookup flatten flatten_onto full_key insert eq_bytes
lookup-flatten = refl

flatten-IsFlat_example : is_map (other 1) ≡ false
flatten-IsFlat_example = flatten-IsFlat (some nested) (codes "a.b") (other 1) lookup-flatten
