-- ===== src/Mapstr/Merge/Leaves.antt =====
-- The deep merges of mapstr/mapstr.go path by path: what they take over and what they leave.
use elastic_agent_libs.Prelude.{
  Bytes, List, [], ◌∷◌, Option, none, some, Bool, true, false, ok, >>=-eq-ok, ok-injective,
  some_inj, ◌≡◌, ◌⊎◌, refl, ap, ◌∙◌, Bool-cases, inl, inr, eq_bytes,
}
use mathlib.Core.Path.{subst, ap₂}
use elastic_agent_libs.Mapstr.Value.{
  Value, mapstr, nil_mapstr, raw_map, nil_raw_map, Fields, end, field, M, lookup, try_to_mapstr,
  to_mapstr, IsMap, IsMapValue, get,
}
use elastic_agent_libs.Mapstr.Find.Direct.{required}
use elastic_agent_libs.Mapstr.Find.Walk.{walk, required-eq-ok}
use elastic_agent_libs.Mapstr.Merge.{
  deep_update_value, deep_onto, deep_update, deep_update_no_overwrite,
}
use elastic_agent_libs.Mapstr.Merge.Lookup.{
  merged, lookup-deep_onto, get-deep_update_map, deep_onto_result,
}

abbrev pub is_map : Value → Bool
is_map v = elim (try_to_mapstr v) [ some m ↦ true | none ↦ false ]

merged-scalar :
    (old : Option Value) (v : Value) → is_map v ≡ false → merged true old (some v) ≡ some v
merged-scalar old (mapstr f) h = cc
merged-scalar old (raw_map f) h = cc
merged-scalar old nil_mapstr h = cc
merged-scalar old nil_raw_map h = cc
merged-scalar old _ h = refl

pub lookup-IsMapValue :
    (k : Bytes) (f : Fields) {v : Value} → IsMap f → lookup k f ≡ some v → IsMapValue v
unfolding lookup
lookup-IsMapValue k end p h = cc
lookup-IsMapValue k (field j w f) p h = elim (Bool-cases (eq_bytes j k)) [
  | inl same ↦ subst IsMapValue (some_inj (rw (same, lookup) at h)) p.1
  | inr differs ↦ lookup-IsMapValue k f p.2 (rw (differs, lookup) at h)
]

pub to_mapstr-IsMap : (v : Value) {f : Fields} → IsMapValue v → to_mapstr v ≡ ok (some f) → IsMap f
to_mapstr-IsMap (mapstr g) p h = subst IsMap (some_inj (ok-injective h)) p
to_mapstr-IsMap (raw_map g) p h = subst IsMap (some_inj (ok-injective h)) p
to_mapstr-IsMap _ p h = cc

-- A walk of two pieces or more goes through an entry that is a map and not nil.
record WalksInto (m : M) (s t : Bytes) (rest : List Bytes) (v : Value) : Type 0 where
  entry : Value
  inner : Fields
  found : get s m ≡ some entry
  is_entry : to_mapstr entry ≡ ok (some inner)
  below : walk (some inner) (t ∷ rest) ≡ ok v

walk-none : (t : Bytes) (rest : List Bytes) {v : Value} → walk none (t ∷ rest) ≡ ok v → ⊥
unfolding walk
walk-none t [] h = cc
walk-none t (u ∷ rest) h = cc

walk-WalksInto :
    (m : M) (s t : Bytes) (rest : List Bytes) {v : Value}
    → walk m (s ∷ t ∷ rest) ≡ ok v
    → WalksInto m s t rest v
unfolding walk
walk-WalksInto m s t rest {v} h =
    let (e, found, h₁) = >>=-eq-ok (required (get s m)) _ h in
    let (i, is_entry, below) = >>=-eq-ok (to_mapstr e) _ h₁ in
    go e i (required-eq-ok found) is_entry below
  where
    go :
        (e : Value) (i : M)
        → get s m ≡ some e
        → to_mapstr e ≡ ok i
        → walk i (t ∷ rest) ≡ ok v
        → WalksInto m s t rest v
    go e none f i b = absurd (walk-none t rest b)
    go e (some g) f i b = record { entry = e; inner = g; found = f; is_entry = i; below = b }

walk-into :
    (f : Fields) (s t : Bytes) (rest : List Bytes) {g : Fields} {v : Value}
    → lookup s f ≡ some (mapstr g)
    → walk (some g) (t ∷ rest) ≡ ok v
    → walk (some f) (s ∷ t ∷ rest) ≡ ok v
unfolding walk
walk-into f s t rest h b = rw (h, walk) b

-- What a deep merge leaves where the new entry is a map: the merge of the two maps, or the new one.
abbrev MergesTo : Bool → Option Value → Value → Fields → Type 0
MergesTo overwrite old e val =
    (g : Fields) × (merged overwrite old (some e) ≡ some (mapstr g))
    × (((sub : Fields) × (g ≡ deep_onto val overwrite sub)) ⊎ (g ≡ val))

update_into :
    (overwrite : Bool) (old : Option Value) (val : Fields)
    → (g : Fields) × (deep_update_value old (some val) (deep_onto val overwrite) ≡ mapstr g)
      × (((sub : Fields) × (g ≡ deep_onto val overwrite sub)) ⊎ (g ≡ val))
unfolding deep_update_value
update_into overwrite (some (mapstr sub)) val = (deep_onto val overwrite sub, refl, inl (sub, refl))
update_into overwrite (some (raw_map sub)) val =
    (deep_onto val overwrite sub, refl, inl (sub, refl))
update_into overwrite _ val = (val, refl, inr refl)

merged-map :
    (overwrite : Bool) (old : Option Value) (e : Value) {val : Fields}
    → to_mapstr e ≡ ok (some val)
    → MergesTo overwrite old e val
merged-map overwrite old (mapstr f) h =
    let (g, p, q) = update_into overwrite old f in
    subst (MergesTo overwrite old (mapstr f)) (some_inj (ok-injective h)) (g, ap some p, q)
merged-map overwrite old (raw_map f) h =
    let (g, p, q) = update_into overwrite old f in
    subst (MergesTo overwrite old (raw_map f)) (some_inj (ok-injective h)) (g, ap some p, q)
merged-map overwrite old _ h = cc

leaf-deep_onto :
    (ps : List Bytes) (d m : Fields) {v : Value}
    → IsMap d
    → is_map v ≡ false
    → walk (some d) ps ≡ ok v
    → walk (some (deep_onto d true m)) ps ≡ ok v
leaf-deep_onto [] d m p leaf h = unfold walk in cc
leaf-deep_onto (s ∷ []) d m {v} p leaf h =
    let there : lookup s d ≡ some v = required-eq-ok {v = v} (unfold walk in h) in
    unfold walk in
    rw (lookup-deep_onto d true m s p) (rw there (rw (merged-scalar (lookup s m) v leaf)))
leaf-deep_onto (s ∷ t ∷ rest) d m {v} p leaf h =
    let w = walk-WalksInto (some d) s t rest h in
    let (g, is, from) = merged-map true (lookup s m) w.entry w.is_entry in
    let q = to_mapstr-IsMap w.entry (lookup-IsMapValue s d p w.found) w.is_entry in
    walk-into _ s t rest
      (lookup-deep_onto d true m s p ∙ ap (merged true (lookup s m)) w.found ∙ is)
      (elim from [
        | inl (sub, e) ↦ rw e (leaf-deep_onto (t ∷ rest) w.inner sub q leaf w.below)
        | inr e ↦ rw e w.below
      ])

-- A leaf, a value that is no map, that a path of keys leads to in `d` is what the same path leads
-- to after `DeepUpdate`, whatever the map had on the way.
pub walk-deep_update :
    (m d : Fields) (ps : List Bytes) {m' : M} {v : Value}
    → IsMap d
    → is_map v ≡ false
    → walk (some d) ps ≡ ok v
    → deep_update (some m) (some d) ≡ ok m'
    → walk m' ps ≡ ok v
unfolding deep_update
walk-deep_update m d ps p leaf w h =
    rw (deep_onto_result m d true h) (leaf-deep_onto ps d m p leaf w)

merged-keeps :
    (old new : Value) → is_map new ≡ false → merged false (some old) (some new) ≡ some old
merged-keeps old (mapstr f) h = cc
merged-keeps old (raw_map f) h = cc
merged-keeps old nil_mapstr h = cc
merged-keeps old nil_raw_map h = cc
merged-keeps old _ h = refl

-- `DeepUpdateNoOverwrite` leaves the value of a key that the map has, where the new value is no map.
pub get-deep_update_no_overwrite :
    (m d : Fields) (k : Bytes) {m' : M} {old new : Value}
    → IsMap d
    → lookup k m ≡ some old
    → lookup k d ≡ some new
    → is_map new ≡ false
    → deep_update_no_overwrite (some m) (some d) ≡ ok m'
    → get k m' ≡ some old
unfolding deep_update_no_overwrite
get-deep_update_no_overwrite m d k {m'} {old} {new} p was now scalar h =
    get-deep_update_map m d false k p h ∙ ap₂ (merged false) was now ∙ merged-keeps old new scalar
