-- ===== src/Tests/Merges.antt =====
-- The merges and the tags of mapstr/mapstr.go on small maps.
use elastic_agent_libs.Prelude.{
  codes, split, join, eq_bytes, [], ◌∷◌, Option, none, some, true, ok, err, ◌≡◌, refl,
}
use elastic_agent_libs.Mapstr.Value.{
  Value, mapstr, other, strings, Fields, end, field, key_not_found, lookup, insert, get, IsMap,
}
use elastic_agent_libs.Mapstr.Find.{find_from, map_find, get_value}
use elastic_agent_libs.Mapstr.Find.Walk.{walk}
use elastic_agent_libs.Mapstr.Merge.{
  copy_onto, update, deep_update_value, deep_onto, put_scalar, deep_update_map, deep_update,
  deep_update_no_overwrite,
}
use elastic_agent_libs.Mapstr.Merge.Lookup.{merged, get-deep_update_map}
use elastic_agent_libs.Mapstr.Merge.Leaves.{walk-deep_update}
use elastic_agent_libs.Mapstr.Tags.{add_tags_with_key, add_some_tags, tagged}
use elastic_agent_libs.Mapstr.Tags.Append.{TagsAfter, get_value-add_tags}

abbrev old_map : Fields
old_map =
    field (codes "a") (mapstr (field (codes "b") (other 1) end))
      (field (codes "s") (other 5) (field (codes "k") (other 6) end))

abbrev new_map : Fields
new_map =
    field (codes "a") (mapstr (field (codes "c") (other 2) end))
      (field (codes "s") (mapstr end) (field (codes "k") (other 7) end))

abbrev deep_map : Fields
deep_map =
    field (codes "a") (mapstr (field (codes "b") (other 1) (field (codes "c") (other 2) end)))
      (field (codes "s") (mapstr end) (field (codes "k") (other 7) end))

abbrev kept_map : Fields
kept_map =
    field (codes "a") (mapstr (field (codes "b") (other 1) (field (codes "c") (other 2) end)))
      (field (codes "s") (mapstr end) (field (codes "k") (other 6) end))

old_map-IsMap : IsMap old_map
unfolding lookup eq_bytes
old_map-IsMap = (refl, (refl, tt, tt), (refl, tt, (refl, tt, tt)))

new_map-IsMap : IsMap new_map
unfolding lookup eq_bytes
new_map-IsMap = (refl, (refl, tt, tt), (refl, tt, (refl, tt, tt)))

update_example : update (some old_map) (some new_map) ≡ ok (some new_map)
unfolding update copy_onto insert eq_bytes
update_example = refl

deep_update_example : deep_update (some old_map) (some new_map) ≡ ok (some deep_map)
unfolding deep_update deep_update_map deep_onto deep_update_value put_scalar lookup insert eq_bytes
deep_update_example = refl

deep_update_map_example : deep_update_map (some old_map) (some new_map) true ≡ ok (some deep_map)
unfolding deep_update_map deep_onto deep_update_value put_scalar lookup insert eq_bytes
deep_update_map_example = refl

no_overwrite_example : deep_update_no_overwrite (some old_map) (some new_map) ≡ ok (some kept_map)
unfolding deep_update_no_overwrite deep_update_map deep_onto deep_update_value put_scalar lookup
    insert eq_bytes
no_overwrite_example = refl

get-deep_update_map_example :
    get (codes "a") (some deep_map)
    ≡ merged true (lookup (codes "a") old_map) (lookup (codes "a") new_map)
get-deep_update_map_example =
    get-deep_update_map old_map new_map true (codes "a") new_map-IsMap deep_update_map_example

walk-new_map : walk (some new_map) (codes "a" ∷ codes "c" ∷ []) ≡ ok (other 2)
unfolding walk lookup eq_bytes
walk-new_map = refl

walk-deep_update_example : walk (some deep_map) (codes "a" ∷ codes "c" ∷ []) ≡ ok (other 2)
walk-deep_update_example =
    walk-deep_update old_map new_map (codes "a" ∷ codes "c" ∷ []) new_map-IsMap refl walk-new_map
      deep_update_example

old_k : lookup (codes "k") old_map ≡ some (other 6)
unfolding lookup eq_bytes
old_k = refl

new_k : lookup (codes "k") new_map ≡ some (other 7)
unfolding lookup eq_bytes
new_k = refl

abbrev tagged_map : Fields
tagged_map = field (codes "tags") (strings (codes "x" ∷ codes "y" ∷ [])) end

abbrev untagged_map : Fields
untagged_map = field (codes "tags") (strings (codes "x" ∷ [])) end

add_tags_example :
    add_tags_with_key (some untagged_map) (codes "tags") (codes "y" ∷ []) ≡ ok (some tagged_map)
unfolding add_tags_with_key add_some_tags tagged map_find find_from split join lookup insert
    eq_bytes
add_tags_example = refl

get_value-add_tags_example :
    (old : Option Value) × (v : Value) × (get_value (some untagged_map) (codes "tags")
      ≡ (elim old [ some w ↦ ok w | none ↦ err key_not_found ]))
    × (get_value (some tagged_map) (codes "tags") ≡ ok v)
    × TagsAfter old (codes "y" ∷ []) v
get_value-add_tags_example =
    get_value-add_tags untagged_map (codes "tags") (codes "y") [] add_tags_example
