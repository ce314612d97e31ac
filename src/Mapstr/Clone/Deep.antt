-- ===== src/Mapstr/Clone/Deep.antt =====
-- What a clone of mapstr/mapstr.go shares with its source, level by level.
use mathlib.Core.Option
use elastic_agent_libs.Prelude.{
  Bytes, eq_bytes, eq_bytes_iff, Bool-cases, none, some, ◌≡◌, inl, inr, refl, ap, ◌∙◌,
}
use elastic_agent_libs.Mapstr.Value.{
  Value, mapstr, nil_mapstr, raw_map, nil_raw_map, mapstrs, raw_maps, Fields, end, field, Maps,
  no_maps, map_item, nil_item, M, lookup, insert, IsMap, IsMapM, IsMapValue,
}
use elastic_agent_libs.Mapstr.Clone.{clone_onto, clone_value, clone_maps, clone}
use elastic_agent_libs.Mapstr.Clone.Lookup.{lookup-clone}

-- No key occurs twice in a map, also in those of a slice of maps.
abbrev mutual
  pub IsDeepValue : Value → Type 0
  IsDeepValue (mapstr f) = IsDeep f
  IsDeepValue (raw_map f) = IsDeep f
  IsDeepValue (mapstrs maps) = IsDeepMaps maps
  IsDeepValue (raw_maps maps) = IsDeepMaps maps
  IsDeepValue _ = Unit

  IsDeepMaps : Maps → Type 0
  IsDeepMaps no_maps = Unit
  IsDeepMaps (map_item f maps) = IsDeep f × IsDeepMaps maps
  IsDeepMaps (nil_item maps) = IsDeepMaps maps

  pub IsDeep : Fields → Type 0
  IsDeep end = Unit
  IsDeep (field k v f) = (lookup k f ≡ none) × IsDeepValue v × IsDeep f

abbrev pub IsDeepM : M → Type 0
IsDeepM none = Unit
IsDeepM (some f) = IsDeep f

-- Each key of the first map is one of the second map.
abbrev KeysIn : Fields → Fields → Type 0
KeysIn end f = Unit
KeysIn (field k v g) f = ((w : Value) × (lookup k f ≡ some w)) × KeysIn g f

-- The clone of a value: of a map a map of the type `M` with the same keys, under each of which stands the
-- clone of the value, of a nil map the empty map, of a slice of maps the slice of the clones, and of
-- any other value that value.
abbrev mutual
  pub IsCloneValue : Value → Value → Type 0
  IsCloneValue (mapstr f) w = (g : Fields) × (w ≡ mapstr g) × HasClones f g × KeysIn g f
  IsCloneValue (raw_map f) w = (g : Fields) × (w ≡ mapstr g) × HasClones f g × KeysIn g f
  IsCloneValue nil_mapstr w = w ≡ mapstr end
  IsCloneValue nil_raw_map w = w ≡ mapstr end
  IsCloneValue (mapstrs maps) w = (clones : Maps) × (w ≡ mapstrs clones) × AreClones maps clones
  IsCloneValue (raw_maps maps) w = (clones : Maps) × (w ≡ mapstrs clones) × AreClones maps clones
  IsCloneValue v w = w ≡ v

  -- The slices have the same length, with the clones at the same places.
  AreClones : Maps → Maps → Type 0
  AreClones no_maps clones = clones ≡ no_maps
  AreClones (map_item f maps) clones =
      (g : Fields) × (rest : Maps) × (clones ≡ map_item g rest)
      × HasClones f g
      × KeysIn g f
      × AreClones maps rest
  AreClones (nil_item maps) clones =
      (rest : Maps) × (clones ≡ map_item end rest) × AreClones maps rest

  -- Under each key of the first map the second has the clone of its value.
  HasClones : Fields → Fields → Type 0
  HasClones end g = Unit
  HasClones (field k v f) g =
      ((w : Value) × (lookup k g ≡ some w) × IsCloneValue v w) × HasClones f g

abbrev pub IsClone : M → M → Type 0
IsClone none m = m ≡ some end
IsClone (some f) m = (g : Fields) × (m ≡ some g) × HasClones f g × KeysIn g f

mutual
  IsDeepValue-IsMapValue : (v : Value) → IsDeepValue v → IsMapValue v
  IsDeepValue-IsMapValue (mapstr f) p = IsDeep-IsMap f p
  IsDeepValue-IsMapValue (raw_map f) p = IsDeep-IsMap f p
  IsDeepValue-IsMapValue _ p = tt

  IsDeep-IsMap : (f : Fields) → IsDeep f → IsMap f
  IsDeep-IsMap end p = tt
  IsDeep-IsMap (field k v f) p = (p.0, IsDeepValue-IsMapValue v p.1, IsDeep-IsMap f p.2)

pub IsDeepM-IsMapM : (m : M) → IsDeepM m → IsMapM m
IsDeepM-IsMapM none p = tt
IsDeepM-IsMapM (some f) p = IsDeep-IsMap f p

KeysIn-insert :
    (k : Bytes) (v : Value) (g f : Fields) {w : Value}
    → lookup k f ≡ some w
    → KeysIn g f
    → KeysIn (insert k v g) f
unfolding insert
KeysIn-insert k v end f {w} h p = ((w, h), tt)
KeysIn-insert k v (field j u g) f h p = elim (Bool-cases (eq_bytes j k)) [
  | inl same ↦ rw same p
  | inr differs ↦ rw differs (p.0, KeysIn-insert k v g f h p.1)
]

KeysIn-clone_onto :
    (src dst f : Fields) → KeysIn src f → KeysIn dst f → KeysIn (clone_onto src dst) f
unfolding clone_onto
KeysIn-clone_onto end dst f p q = q
KeysIn-clone_onto (field k v src) dst f p q =
    KeysIn-clone_onto src (insert k (clone_value v) dst) f p.1
      (KeysIn-insert k (clone_value v) dst f p.0.1 q)

KeysIn-field :
    (g : Fields) (k : Bytes) (v : Value) (f : Fields) → KeysIn g f → KeysIn g (field k v f)
unfolding lookup
KeysIn-field end k v f p = tt
KeysIn-field (field j u g) k v f p = elim (Bool-cases (eq_bytes k j)) [
  | inl same ↦ ((v, rw same refl), KeysIn-field g k v f p.1)
  | inr differs ↦ ((p.0.0, rw differs p.0.1), KeysIn-field g k v f p.1)
]

KeysIn-refl : (f : Fields) → KeysIn f f
unfolding lookup
KeysIn-refl end = tt
KeysIn-refl (field k v f) =
    ((v, rw ((eq_bytes_iff k k).1 refl) refl), KeysIn-field f k v f (KeysIn-refl f))

KeysIn-clone : (f : Fields) → KeysIn (clone_onto f end) f
KeysIn-clone f = KeysIn-clone_onto f end f (KeysIn-refl f) tt

-- Where the first map has a value, the second has what `clone_value` makes of it.
abbrev Reads : Fields → Fields → Type 0
Reads f g = (j : Bytes) (v : Value) → lookup j f ≡ some v → lookup j g ≡ some (clone_value v)

clone_onto-Reads : (f : Fields) → IsDeep f → Reads f (clone_onto f end)
clone_onto-Reads f p j v h = lookup-clone f j (IsDeep-IsMap f p) ∙ ap (Option.map clone_value) h

-- A key in the rest of a map is not the first one.
lookup-rest :
    (k : Bytes) (v : Value) (f : Fields) (j : Bytes) {w : Value}
    → lookup k f ≡ none
    → lookup j f ≡ some w
    → lookup j (field k v f) ≡ some w
unfolding lookup
lookup-rest k v f j fresh h = elim (Bool-cases (eq_bytes k j)) [
  | inl same ↦ cc (ap (λ i. lookup i f) ((eq_bytes_iff k j).0 same), fresh, h)
  | inr differs ↦ rw differs h
]

mutual
  unfolding clone_value clone_maps lookup

  pub clone_value-IsCloneValue : (v : Value) → IsDeepValue v → IsCloneValue v (clone_value v)
  clone_value-IsCloneValue (mapstr f) p = (
    clone_onto f end,
    refl,
    rest-HasClones f (clone_onto f end) p (clone_onto-Reads f p),
    KeysIn-clone f,
  )
  clone_value-IsCloneValue (raw_map f) p = (
    clone_onto f end,
    refl,
    rest-HasClones f (clone_onto f end) p (clone_onto-Reads f p),
    KeysIn-clone f,
  )
  clone_value-IsCloneValue nil_mapstr p = refl
  clone_value-IsCloneValue nil_raw_map p = refl
  clone_value-IsCloneValue (mapstrs maps) p = (clone_maps maps, refl, clone_maps-AreClones maps p)
  clone_value-IsCloneValue (raw_maps maps) p = (clone_maps maps, refl, clone_maps-AreClones maps p)
  clone_value-IsCloneValue _ p = refl

  clone_maps-AreClones : (maps : Maps) → IsDeepMaps maps → AreClones maps (clone_maps maps)
  clone_maps-AreClones no_maps p = refl
  clone_maps-AreClones (map_item f maps) p = (
    clone_onto f end,
    clone_maps maps,
    refl,
    rest-HasClones f (clone_onto f end) p.0 (clone_onto-Reads f p.0),
    KeysIn-clone f,
    clone_maps-AreClones maps p.1,
  )
  clone_maps-AreClones (nil_item maps) p = (clone_maps maps, refl, clone_maps-AreClones maps p)

  rest-HasClones : (f g : Fields) → IsDeep f → Reads f g → HasClones f g
  rest-HasClones end g p reads = tt
  rest-HasClones (field k v f) g p reads = (
    (
      clone_value v,
      reads k v (rw ((eq_bytes_iff k k).1 refl) refl),
      clone_value-IsCloneValue v p.1,
    ),
    rest-HasClones f g p.2 λ j w h. reads j w (lookup-rest k v f j p.0 h),
  )

-- The clone of a map has exactly its keys, and under each of them the clone of the value, at any depth
-- and also in slices of maps, where no key of a map occurs twice; the clone of the nil map is empty.
pub clone-IsClone : (m : M) → IsDeepM m → IsClone m (clone m)
unfolding clone
clone-IsClone none p = refl
clone-IsClone (some f) p = (
  clone_onto f end,
  refl,
  rest-HasClones f (clone_onto f end) p (clone_onto-Reads f p),
  KeysIn-clone f,
)
