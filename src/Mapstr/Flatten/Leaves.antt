-- ===== src/Mapstr/Flatten/Leaves.antt =====
-- `Flatten` leaves no nested map, and its keys are among those of `FlattenKeys`.
use elastic_agent_libs.Prelude.{
  Bytes, eq_bytes, List, [], ◌∷◌, ◌++◌, none, some, Bool, true, false, ◌||◌, ◌≡◌, refl, ◌∙◌, arith,
  inl, inr, Bool-cases, some_inj,
}
use elastic_agent_libs.Mapstr.Value.{
  Value, mapstr, nil_mapstr, raw_map, nil_raw_map, Fields, end, field, M, lookup, insert,
  lookup-insert,
}
use elastic_agent_libs.Mapstr.Merge.Leaves.{is_map}
use elastic_agent_libs.Mapstr.Flatten.{
  full_key, flatten_onto, flatten_value, flatten, flatten_keys_onto, flatten_keys_value,
  flatten_keys,
}

-- No entry is a map.
abbrev pub IsFlat : Fields → Type 0
IsFlat m = (k : Bytes) (v : Value) → lookup k m ≡ some v → is_map v ≡ false

IsFlat-insert :
    (k : Bytes) (v : Value) (m : Fields) → is_map v ≡ false → IsFlat m → IsFlat (insert k v m)
IsFlat-insert k v m leaf flat j w h = elim (Bool-cases (eq_bytes k j)) [
  | inl same ↦ rw (← some_inj (rw (lookup-insert, same) at h)) leaf
  | inr differs ↦ flat j w (rw (lookup-insert, differs) at h)
]

mutual
  unfolding flatten_onto flatten_value

  flatten_onto-IsFlat :
      (m : Fields) (prefix : Bytes) (out : Fields) → IsFlat out → IsFlat (flatten_onto m prefix out)
  flatten_onto-IsFlat end prefix out flat = flat
  flatten_onto-IsFlat (field k v m) prefix out flat =
      flatten_onto-IsFlat m prefix _ (flatten_value-IsFlat v (full_key prefix k) out flat)

  flatten_value-IsFlat :
      (v : Value) (key : Bytes) (out : Fields) → IsFlat out → IsFlat (flatten_value v key out)
  flatten_value-IsFlat (mapstr m) key out flat = flatten_onto-IsFlat m key out flat
  flatten_value-IsFlat (raw_map m) key out flat = flatten_onto-IsFlat m key out flat
  flatten_value-IsFlat nil_mapstr key out flat = flat
  flatten_value-IsFlat nil_raw_map key out flat = flat
  flatten_value-IsFlat v key out flat = IsFlat-insert key _ out refl flat

IsFlat-end : IsFlat end
unfolding lookup
IsFlat-end k v h = cc

-- No entry of the map that `Flatten` leaves is a map.
pub flatten-IsFlat :
    (m : M) (k : Bytes) (v : Value) → lookup k (flatten m) ≡ some v → is_map v ≡ false
unfolding flatten
flatten-IsFlat none k v h = IsFlat-end k v h
flatten-IsFlat (some m) k v h = flatten_onto-IsFlat m [] end IsFlat-end k v h

lookup-end : (k : Bytes) (v : Value) → lookup k end ≡ some v → ⊥
unfolding lookup
lookup-end k v h = cc

-- Is the key in the list?
unfoldable pub has : Bytes → List Bytes → Bool
has k [] = false
has k (j ∷ js) = eq_bytes j k || has k js

has-append : (k : Bytes) (xs ys : List Bytes) → has k (xs ++ ys) ≡ (has k xs || has k ys)
unfolding has
has-append k [] ys = refl
has-append k (x ∷ xs) ys = ground (arith, has-append k xs ys)

-- Every key of the map is in the list.
abbrev pub KeysIn : Fields → List Bytes → Type 0
KeysIn m ks = (k : Bytes) (v : Value) → lookup k m ≡ some v → has k ks ≡ true

KeysIn-append : (m : Fields) (ks : List Bytes) (j : Bytes) → KeysIn m ks → KeysIn m (ks ++ j ∷ [])
KeysIn-append m ks j h k v e = has-append k ks (j ∷ []) ∙ ground (arith, h k v e)

KeysIn-insert :
    (m : Fields) (ks : List Bytes) (j : Bytes) (w : Value)
    → KeysIn m ks
    → KeysIn (insert j w m) (ks ++ j ∷ [])
unfolding has
KeysIn-insert m ks j w h k v e =
    has-append k ks (j ∷ []) ∙ ground (arith, lookup-insert j k w m, h k v)

mutual
  unfolding flatten_onto flatten_value flatten_keys_onto flatten_keys_value

  keys-flatten_onto :
      (m : Fields) (prefix : Bytes) (out : Fields) (ks : List Bytes)
      → KeysIn out ks
      → KeysIn (flatten_onto m prefix out) (flatten_keys_onto m prefix ks)
  keys-flatten_onto end prefix out ks h = h
  keys-flatten_onto (field k v m) prefix out ks h =
      keys-flatten_onto m prefix _ _ (keys-flatten_value v (full_key prefix k) out ks h)

  keys-flatten_value :
      (v : Value) (key : Bytes) (out : Fields) (ks : List Bytes)
      → KeysIn out ks
      → KeysIn (flatten_value v key out) (flatten_keys_value v key ks ++ key ∷ [])
  keys-flatten_value (mapstr m) key out ks h =
      KeysIn-append _ _ key (keys-flatten_onto m key out ks h)
  keys-flatten_value (raw_map m) key out ks h =
      KeysIn-append _ _ key (keys-flatten_onto m key out ks h)
  keys-flatten_value nil_mapstr key out ks h = KeysIn-append _ _ key h
  keys-flatten_value nil_raw_map key out ks h = KeysIn-append _ _ key h
  keys-flatten_value v key out ks h = KeysIn-insert out ks key _ h

-- Each key of the flattened map is one of the keys that `FlattenKeys` lists.
pub keys-flatten :
    (m : M) (k : Bytes) (v : Value) → lookup k (flatten m) ≡ some v → has k (flatten_keys m) ≡ true
unfolding flatten flatten_keys
keys-flatten none k v h = unfold lookup in cc
keys-flatten (some m) k v h =
    keys-flatten_onto m [] end [] (λ j w e. absurd (lookup-end j w e)) k v h
