-- ===== src/Mapstr/Tags/Append.antt =====
-- `AddTagsWithKey` appends to what the key held.
use elastic_agent_libs.Prelude.{
  Bytes, List, [], ◌∷◌, ◌++◌, map, Option, none, some, true, ok, err, ◌>>=◌, >>=-eq-ok,
  ok-injective, ◌≡◌, refl, ap, sym, ◌∙◌,
}
use elastic_agent_libs.Mapstr.Value.{
  Value, Values, no_values, value_item, strings, values, text, Fields, M, key_not_found, assign,
}
use elastic_agent_libs.Mapstr.Find.{Found, map_find, get_value, put}
use elastic_agent_libs.Mapstr.Find.PutGet.{get_value-put_self}
use elastic_agent_libs.Mapstr.Find.Old.{put-old}
use elastic_agent_libs.Mapstr.Tags.{
  tag_values, append_tags, tagged, add_some_tags, add_tags_with_key,
}

put-found :
    (ms : M) (key : Bytes) (v : Value) (r : Found) (m : M)
    → map_find key ms true ≡ ok r
    → assign r.sub_map r.sub_key v ≡ ok m
    → put ms key v ≡ ok (r.rebuild m, r.old_value)
unfolding put
put-found ms key v r m found written = rw (found, ◌>>=◌) (rw written)

-- Adding tags is a `Put` of the tagged old value.
add_some_tags-put :
    (ms : M) (key : Bytes) (tags : List Bytes) {m' : M}
    → add_some_tags ms key tags ≡ ok m'
    → (old : Option Value) × (v : Value) × (tagged old tags ≡ ok v) × (put ms key v ≡ ok (m', old))
unfolding add_some_tags put
add_some_tags-put ms key tags h =
    let (r, found, h₁) = >>=-eq-ok (map_find key ms true) _ h in
    let (v, is, h₂) = >>=-eq-ok (tagged r.old_value tags) _ h₁ in
    let (m, written, h₃) = >>=-eq-ok (assign r.sub_map r.sub_key v) _ h₂ in
    (
      r.old_value,
      v,
      is,
      put-found ms key v r m found written ∙ ap (λ (x : M). ok (x, r.old_value)) (ok-injective h₃),
    )

-- The items of an `[]interface{}`.
abbrev pub items_of : Values → List Value
items_of no_values = []
items_of (value_item v vs) = v ∷ items_of vs

-- What the key holds after tags were added: the tags where it was missing, else a list of the same
-- type with the old items and then the tags.
abbrev pub TagsAfter : Option Value → List Bytes → Value → Type 0
TagsAfter none tags v = v ≡ strings tags
TagsAfter (some (strings arr)) tags v = v ≡ strings (arr ++ tags)
TagsAfter (some (values arr)) tags v =
    (new : Values) × (v ≡ values new) × (items_of new ≡ items_of arr ++ map text tags)
TagsAfter (some _) tags v = ⊥

items_of-tag_values : (tags : List Bytes) → items_of (tag_values tags) ≡ map text tags
unfolding tag_values
items_of-tag_values [] = refl
items_of-tag_values (t ∷ tags) = ap (λ vs. text t ∷ vs) (items_of-tag_values tags)

items_of-append_tags :
    (arr : Values) (tags : List Bytes)
    → items_of (append_tags arr tags) ≡ items_of arr ++ map text tags
unfolding append_tags
items_of-append_tags no_values tags = items_of-tag_values tags
items_of-append_tags (value_item v vs) tags = ap (λ ws. v ∷ ws) (items_of-append_tags vs tags)

tagged-TagsAfter :
    (old : Option Value) (tags : List Bytes) {v : Value}
    → tagged old tags ≡ ok v
    → TagsAfter old tags v
unfolding tagged
tagged-TagsAfter none tags h = sym (ok-injective h)
tagged-TagsAfter (some (strings arr)) tags h = sym (ok-injective h)
tagged-TagsAfter (some (values arr)) tags h =
    (append_tags arr tags, sym (ok-injective h), items_of-append_tags arr tags)
tagged-TagsAfter (some _) tags h = cc

-- `AddTagsWithKey`, where it succeeds with at least one tag on a map that is not nil, leaves under the
-- key the tags alone where `GetValue` found no key before, and where it found a list of texts or an
-- `[]interface{}`, a list of that type with the old items and then the tags; it succeeds for no other
-- old value.
pub get_value-add_tags :
    (ms : Fields) (key tag : Bytes) (tags : List Bytes) {m' : M}
    → add_tags_with_key (some ms) key (tag ∷ tags) ≡ ok m'
    → (old : Option Value) × (v : Value) × (get_value (some ms) key
        ≡ (elim old [ some w ↦ ok w | none ↦ err key_not_found ]))
      × (get_value m' key ≡ ok v)
      × TagsAfter old (tag ∷ tags) v
unfolding add_tags_with_key
get_value-add_tags ms key tag tags h =
    let (old, v, is, written) = add_some_tags-put (some ms) key (tag ∷ tags) h in
    (
      old,
      v,
      put-old (some ms) key v written,
      get_value-put_self (some ms) key v written,
      tagged-TagsAfter old (tag ∷ tags) is,
    )
