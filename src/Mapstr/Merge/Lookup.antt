-- ===== src/Mapstr/Merge/Lookup.antt =====
-- What the merges of mapstr/mapstr.go leave at each key, whatever the order of iteration.
use mathlib.Core.Path.{subst}
use elastic_agent_libs.Prelude.{
  Bytes, eq_bytes, eq_bytes_iff, eq_bytes_refl, Option, none, some, Bool, true, false, ok, ◌>>=◌,
  ◌≡◌, refl, ap, sym, ◌∙◌, arith, if◌then◌else◌, Bool-cases, inl, inr, ok-injective,
}
use elastic_agent_libs.Mapstr.Value.{
  Value, mapstr, nil_mapstr, raw_map, nil_raw_map, Fields, end, field, M, lookup, insert,
  lookup-insert, get, IsMap,
}
use elastic_agent_libs.Mapstr.Merge.{
  copy_onto, update, deep_update_value, put_scalar, deep_onto, deep_entry, deep_update_map, union,
  range_onto,
}

-- The second entry where there is one.
abbrev pub or_else : Option Value → Option Value → Option Value
or_else (some w) old = some w
or_else none old = old

or_else-none : (o : Option Value) → or_else o none ≡ o
or_else-none none = refl
or_else-none (some v) = refl

lookup-insert_ne :
    (k j : Bytes) (v : Value) (m : Fields)
    → eq_bytes k j ≡ false
    → lookup j (insert k v m) ≡ lookup j m
lookup-insert_ne k j v m h = rw (lookup-insert, h)

lookup-insert_self :
    (k j : Bytes) (v : Value) (m : Fields) → eq_bytes k j ≡ true → lookup j (insert k v m) ≡ some v
lookup-insert_self k j v m h = rw (lookup-insert, h)

pub lookup-copy_onto :
    (d m : Fields) (j : Bytes)
    → IsMap d
    → lookup j (copy_onto m d) ≡ or_else (lookup j d) (lookup j m)
unfolding copy_onto lookup
lookup-copy_onto end m j p = refl
lookup-copy_onto (field k v d) m j p = elim (Bool-cases (eq_bytes k j)) [
  | inl same ↦ rw same (
      lookup-copy_onto d (insert k v m) j p.2
      ∙ rw (← (eq_bytes_iff k j).0 same, p.0) (lookup-insert_self k k v m (eq_bytes_refl k)))
  | inr differs ↦
      rw differs (lookup-copy_onto d (insert k v m) j p.2 ∙ rw (lookup-insert_ne k j v m differs))
]

-- What a value that is no map leaves.
abbrev pub scalar : Bool → Option Value → Value → Option Value
scalar true old v = some v
scalar false old v = or_else old (some v)

-- What a deep merge leaves at a key, by what the two maps have there.
abbrev pub merged : Bool → Option Value → Option Value → Option Value
merged overwrite old none = old
merged overwrite old (some (mapstr val)) =
    some (deep_update_value old (some val) (deep_onto val overwrite))
merged overwrite old (some (raw_map val)) =
    some (deep_update_value old (some val) (deep_onto val overwrite))
merged overwrite old (some nil_mapstr) = some (deep_update_value old none (λ sub. sub))
merged overwrite old (some nil_raw_map) = some (deep_update_value old none (λ sub. sub))
merged overwrite old (some v) = scalar overwrite old v

lookup-put_scalar :
    (overwrite : Bool) (k j : Bytes) (v : Value) (m : Fields)
    → lookup j (put_scalar overwrite k v m)
      ≡ (if eq_bytes k j then scalar overwrite (lookup k m) v else lookup j m)
unfolding put_scalar
lookup-put_scalar true k j v m = lookup-insert k j v m
lookup-put_scalar false k j v m = ground (arith, lookup-insert k j v m, eq_bytes_iff k j)

lookup-deep_entry :
    (v : Value) (overwrite : Bool) (k j : Bytes) (m : Fields)
    → lookup j (deep_entry v overwrite k m)
      ≡ (if eq_bytes k j then merged overwrite (lookup k m) (some v) else lookup j m)
unfolding deep_entry
lookup-deep_entry (mapstr val) overwrite k j m = lookup-insert k j _ m
lookup-deep_entry (raw_map val) overwrite k j m = lookup-insert k j _ m
lookup-deep_entry nil_mapstr overwrite k j m = lookup-insert k j _ m
lookup-deep_entry nil_raw_map overwrite k j m = lookup-insert k j _ m
lookup-deep_entry v overwrite k j m = lookup-put_scalar overwrite k j _ m

pub lookup-deep_onto :
    (d : Fields) (overwrite : Bool) (m : Fields) (j : Bytes)
    → IsMap d
    → lookup j (deep_onto d overwrite m) ≡ merged overwrite (lookup j m) (lookup j d)
unfolding deep_onto lookup
lookup-deep_onto end overwrite m j p = refl
lookup-deep_onto (field k v d) overwrite m j p = elim (Bool-cases (eq_bytes k j)) [
  | inl same ↦
      let e = (eq_bytes_iff k j).0 same in
      rw same (
        subst
          (λ i.
            lookup i (deep_onto d overwrite (deep_entry v overwrite k m))
            ≡ merged overwrite (lookup i m) (some v))
          e
          (lookup-deep_onto d overwrite (deep_entry v overwrite k m) k p.2
            ∙ rw p.0 (lookup-deep_entry v overwrite k k m ∙ rw (eq_bytes_refl k))))
  | inr differs ↦ rw differs (
      lookup-deep_onto d overwrite (deep_entry v overwrite k m) j p.2
      ∙ ap (λ (o : Option Value). merged overwrite o (lookup j d))
          (lookup-deep_entry v overwrite k j m ∙ rw differs))
]

range_onto-eq-ok :
    (body : Fields → Fields → Fields) (m d : Fields)
    → body m end ≡ m
    → range_onto body (some m) (some d) ≡ ok (some (body m d))
range_onto-eq-ok body m end b = rw b
range_onto-eq-ok body m (field k v d) b = refl

range_onto-some :
    (body : Fields → Fields → Fields) (m d : Fields) {m' : M}
    → body m end ≡ m
    → range_onto body (some m) (some d) ≡ ok m'
    → m' ≡ some (body m d)
range_onto-some body m d b h = sym (ok-injective (sym (range_onto-eq-ok body m d b) ∙ h))

-- After `Update`, each key has the entry of `d`, or, where `d` has none, the entry that it had.
pub get-update :
    (m d : Fields) (j : Bytes) {m' : M}
    → IsMap d
    → update (some m) (some d) ≡ ok m'
    → get j m' ≡ or_else (lookup j d) (lookup j m)
unfolding update
get-update m d j p h = rw (range_onto-some copy_onto m d refl h) (lookup-copy_onto d m j p)

pub deep_onto_result :
    (m d : Fields) (overwrite : Bool) {m' : M}
    → deep_update_map (some m) (some d) overwrite ≡ ok m'
    → m' ≡ some (deep_onto d overwrite m)
unfolding deep_update_map
deep_onto_result m d overwrite h =
    range_onto-some (λ f e. deep_onto e overwrite f) m d (unfold deep_onto in refl) h

-- After `DeepUpdate` and `DeepUpdateNoOverwrite`, the entry of each key depends on what the two maps
-- had there and on nothing else, whatever the order of iteration.
pub get-deep_update_map :
    (m d : Fields) (overwrite : Bool) (j : Bytes) {m' : M}
    → IsMap d
    → deep_update_map (some m) (some d) overwrite ≡ ok m'
    → get j m' ≡ merged overwrite (lookup j m) (lookup j d)
get-deep_update_map m d overwrite j p h =
    rw (deep_onto_result m d overwrite h) (lookup-deep_onto d overwrite m j p)

-- `Union` has at each key the entry of its second map, or else the one of its first. It never fails.
pub get-union :
    (a b : Fields) (j : Bytes)
    → IsMap a
    → IsMap b
    → (m : Fields) × (union (some a) (some b) ≡ ok (some m))
      × (lookup j m ≡ or_else (lookup j b) (lookup j a))
unfolding union copy_onto lookup
get-union a b j p q =
    let first = copy_onto end a in
    (
      copy_onto first b,
      rw (range_onto-eq-ok copy_onto end a refl, ◌>>=◌) (range_onto-eq-ok copy_onto first b refl),
      lookup-copy_onto b first j q
          ∙ ap (or_else (lookup j b)) (lookup-copy_onto a end j p ∙ or_else-none (lookup j a)),
    )
