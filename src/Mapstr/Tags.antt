-- ===== src/Mapstr/Tags.antt =====
-- mapstr/mapstr.go: `AddTags` and `AddTagsWithKey`.
pub mod Append
use elastic_agent_libs.Prelude.{
  Bytes, codes, List, [], ◌∷◌, ◌++◌, Option, none, some, Bool, true, false, Result, ok, err, ◌>>=◌,
}
use elastic_agent_libs.Mapstr.Value.{
  Value, strings, values, text, Values, no_values, value_item, M, Error, expected_strings, assign,
}
use elastic_agent_libs.Mapstr.Find.{map_find}

abbrev pub tags_key : Bytes
tags_key = codes "tags"

-- `for _, tag := range tags { arr = append(arr, tag) }`.
unfoldable pub tag_values : List Bytes → Values
tag_values [] = no_values
tag_values (t ∷ tags) = value_item (text t) (tag_values tags)

unfoldable pub append_tags : Values → List Bytes → Values
append_tags no_values tags = tag_values tags
append_tags (value_item v vs) tags = value_item v (append_tags vs tags)

-- The value that is written, by the old value of the key.
unfoldable pub tagged : Option Value → List Bytes → Result Error Value
unfolding append_tags tag_values
tagged none tags = ok (strings tags)
tagged (some (strings arr)) tags = ok (strings (arr ++ tags))
tagged (some (values arr)) tags = ok (values (append_tags arr tags))
tagged (some _) tags = err expected_strings

-- `AddTagsWithKey` past its test for a nil map and no tags.
unfoldable pub add_some_tags : M → Bytes → List Bytes → Result Error M
unfolding tagged
add_some_tags ms key tags = do
  r ← map_find key ms true
  v ← tagged r.old_value tags
  m ← assign r.sub_map r.sub_key v
  ok (r.rebuild m)

-- `AddTagsWithKey`.
unfoldable pub add_tags_with_key : M → Bytes → List Bytes → Result Error M
unfolding add_some_tags
add_tags_with_key none key tags = ok none
add_tags_with_key (some ms) key [] = ok (some ms)
add_tags_with_key (some ms) key (t ∷ tags) = add_some_tags (some ms) key (t ∷ tags)

-- `AddTags`.
unfoldable pub add_tags : M → List Bytes → Result Error M
unfolding add_tags_with_key
add_tags ms tags = add_tags_with_key ms tags_key tags
