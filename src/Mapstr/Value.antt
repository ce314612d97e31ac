-- ===== src/Mapstr/Value.antt =====
-- mapstr/mapstr.go: the type `M` with the Go values that it holds, reads and writes of a Go map
-- and the type switches of `tryToMapStr` and `toMapStr`.
use elastic_agent_libs.Prelude.{
  ℕ, Bytes, eq_bytes, eq_bytes_iff, List, Option, none, some, ◌≡◌, refl, Result, ok, err, arith,
  if◌then◌else◌,
}

mutual
  -- An `interface{}`, by its dynamic type.
  pub data Value : Type 0 where
    null : Value
    mapstr : Fields → Value
    nil_mapstr : Value
    raw_map : Fields → Value
    nil_raw_map : Value
    mapstrs : Maps → Value
    raw_maps : Maps → Value
    strings : List Bytes → Value
    values : Values → Value
    text : Bytes → Value
    other : ℕ → Value

  -- The entries of a map that is not nil, in the order of one iteration.
  pub data Fields : Type 0 where
    end : Fields
    field : Bytes → Value → Fields → Fields

  -- A slice of maps, which may be nil.
  pub data Maps : Type 0 where
    no_maps : Maps
    map_item : Fields → Maps → Maps
    nil_item : Maps → Maps

  pub data Values : Type 0 where
    no_values : Values
    value_item : Value → Values → Values

-- A variable of type `M`; `none` is the nil map.
abbrev pub M : Type 0
M = Option Fields

pub data Error : Type 0 where
  key_not_found key_collision not_map_type expected_map expected_strings : Error
  -- the panic of a write to a nil map
  nil_map_write : Error

unfoldable pub lookup : Bytes → Fields → Option Value
lookup k end = none
lookup k (field j v m) = if eq_bytes j k then some v else lookup k m

-- `m[k] = v`.
unfoldable pub insert : Bytes → Value → Fields → Fields
insert k v end = field k v end
insert k v (field j w m) = if eq_bytes j k then field j v m else field j w (insert k v m)

-- `delete(m, k)`.
unfoldable pub remove : Bytes → Fields → Fields
remove k end = end
remove k (field j v m) = let rest = remove k m in if eq_bytes j k then rest else field j v rest

pub lookup-insert :
    (k j : Bytes) (v : Value) (m : Fields)
    → lookup j (insert k v m) ≡ (if eq_bytes k j then some v else lookup j m)
unfolding lookup insert
lookup-insert k j v end = refl
lookup-insert k j v (field i w m) =
    ground (arith, eq_bytes_iff k j, eq_bytes_iff i k, eq_bytes_iff i j, lookup-insert k j v m)

pub lookup-remove :
    (k j : Bytes) (m : Fields) → lookup j (remove k m) ≡ (if eq_bytes k j then none else lookup j m)
unfolding lookup remove
lookup-remove k j end = ground arith
lookup-remove k j (field i w m) =
    ground (arith, eq_bytes_iff k j, eq_bytes_iff i k, eq_bytes_iff i j, lookup-remove k j m)

-- A read of a map, which may be nil.
abbrev pub get : Bytes → M → Option Value
get k none = none
get k (some m) = lookup k m

-- `m[k] = v`, which panics on the nil map.
abbrev pub assign : M → Bytes → Value → Result Error M
assign none k v = err nil_map_write
assign (some m) k v = ok (some (insert k v m))

-- `delete(m, k)`, which does nothing on the nil map.
abbrev pub delete_key : M → Bytes → M
delete_key none k = none
delete_key (some m) k = some (remove k m)

-- `tryToMapStr`.
abbrev pub try_to_mapstr : Value → Option M
try_to_mapstr (mapstr m) = some (some m)
try_to_mapstr nil_mapstr = some none
try_to_mapstr (raw_map m) = some (some m)
try_to_mapstr nil_raw_map = some none
try_to_mapstr _ = none

-- `toMapStr`.
abbrev pub to_mapstr : Value → Result Error M
to_mapstr v = elim (try_to_mapstr v) [ some m ↦ ok m | none ↦ err expected_map ]

-- The value `v` once the map that it refers to has the content `m`. Nothing is ever written through
-- a nil map.
abbrev pub with_map : Value → M → Value
with_map (mapstr _) (some m) = mapstr m
with_map (raw_map _) (some m) = raw_map m
with_map v _ = v

-- The map `data` once the map that its entry `k` refers to has been changed to `v`.
abbrev pub store : M → Bytes → Value → M
store none k v = none
store (some m) k v = some (insert k v m)

-- An `interface{}` that holds a map of type `M`.
abbrev pub of_map : M → Value
of_map none = nil_mapstr
of_map (some m) = mapstr m

-- What makes a list of entries a Go map: no key occurs twice, at any depth.
abbrev mutual
  pub IsMapValue : Value → Type 0
  IsMapValue (mapstr f) = IsMap f
  IsMapValue (raw_map f) = IsMap f
  IsMapValue _ = Unit

  pub IsMap : Fields → Type 0
  IsMap end = Unit
  IsMap (field k v f) = (lookup k f ≡ none) × IsMapValue v × IsMap f

abbrev pub IsMapM : M → Type 0
IsMapM none = Unit
IsMapM (some f) = IsMap f
