-- ===== src/Mapstr/Clone/Lookup.antt =====
-- What is read from a clone.
use mathlib.Core.Option
use elastic_agent_libs.Prelude.{
  Bytes, eq_bytes, eq_bytes_iff, eq_bytes_refl, join, split, List, [], ◌∷◌, Option, none, some,
  Result, ok, err, ◌>>=◌, ◌≡◌, refl, ap, sym, ◌∙◌, Bool-cases, Option-cases, inl, inr, some_inj,
  ok-injective,
}
use mathlib.Core.Path.{subst}
use elastic_agent_libs.Mapstr.Value.{
  Value, mapstr, nil_mapstr, raw_map, nil_raw_map, Fields, end, field, M, Error, lookup, insert,
  lookup-insert, to_mapstr, IsMap, IsMapM, key_not_found, expected_map,
}
use elastic_agent_libs.Mapstr.Find.{get_value}
use elastic_agent_libs.Mapstr.Find.Direct.{required, get_from, get_pieces, get_value-pieces}
use elastic_agent_libs.Mapstr.Find.Others.{get_from-absent, get_from-missing, get_from-end}
use elastic_agent_libs.Mapstr.Find.PutGet.{get_from-present, get_from-below}
use elastic_agent_libs.Mapstr.Merge.Leaves.{lookup-IsMapValue, to_mapstr-IsMap}
use elastic_agent_libs.Mapstr.Clone.{clone_onto, clone_value, clone}

abbrev pub cloned : Option Value → Option Value → Option Value
cloned none old = old
cloned (some v) old = some (clone_value v)

lookup-clone_onto :
    (src dst : Fields) (j : Bytes)
    → IsMap src
    → lookup j (clone_onto src dst) ≡ cloned (lookup j src) (lookup j dst)
unfolding clone_onto lookup
lookup-clone_onto end dst j p = refl
lookup-clone_onto (field k v src) dst j p = elim (Bool-cases (eq_bytes k j)) [
  | inl same ↦
      let e = (eq_bytes_iff k j).0 same in
      rw same (
        subst (λ i. lookup i (clone_onto src (insert k (clone_value v) dst)) ≡ some (clone_value v))
          e
          (lookup-clone_onto src (insert k (clone_value v) dst) k p.2
            ∙ rw p.0 (lookup-insert k k (clone_value v) dst ∙ rw (eq_bytes_refl k))))
  | inr differs ↦ rw differs (
      lookup-clone_onto src (insert k (clone_value v) dst) j p.2
      ∙ ap (cloned (lookup j src)) (lookup-insert k j (clone_value v) dst ∙ rw differs))
]

cloned-end : (o : Option Value) (j : Bytes) → cloned o (lookup j end) ≡ Option.map clone_value o
unfolding lookup
cloned-end none j = refl
cloned-end (some v) j = refl

pub lookup-clone :
    (f : Fields) (j : Bytes)
    → IsMap f
    → lookup j (clone_onto f end) ≡ Option.map clone_value (lookup j f)
lookup-clone f j p = lookup-clone_onto f end j p ∙ cloned-end (lookup j f) j

abbrev pub clone_result : Result Error Value → Result Error Value
clone_result (ok v) = ok (clone_value v)
clone_result (err e) = err e

-- The map in a cloned value, which is not nil where the map in the value is.
to_mapstr-clone_none :
    (e : Value) → to_mapstr e ≡ ok none → to_mapstr (clone_value e) ≡ ok (some end)
unfolding clone_value
to_mapstr-clone_none nil_mapstr h = refl
to_mapstr-clone_none nil_raw_map h = refl
to_mapstr-clone_none _ h = cc

to_mapstr-clone_some :
    (e : Value) {f : Fields}
    → to_mapstr e ≡ ok (some f)
    → to_mapstr (clone_value e) ≡ ok (some (clone_onto f end))
unfolding clone_value
to_mapstr-clone_some (mapstr g) h =
    ap (λ x. ok (some (clone_onto x end))) (some_inj (ok-injective h))
to_mapstr-clone_some (raw_map g) h =
    ap (λ x. ok (some (clone_onto x end))) (some_inj (ok-injective h))
to_mapstr-clone_some _ h = cc

to_mapstr-clone_err :
    (e : Value) → to_mapstr e ≡ err expected_map → to_mapstr (clone_value e) ≡ err expected_map
unfolding clone_value
to_mapstr-clone_err (mapstr g) h = cc
to_mapstr-clone_err (raw_map g) h = cc
to_mapstr-clone_err nil_mapstr h = cc
to_mapstr-clone_err nil_raw_map h = cc
to_mapstr-clone_err _ h = refl

data MapCases (e : Value) : Type 0 where
  nil_case : to_mapstr e ≡ ok none → MapCases e
  map_case : (f : Fields) → to_mapstr e ≡ ok (some f) → MapCases e
  other_case : to_mapstr e ≡ err expected_map → MapCases e

to_mapstr-MapCases : (e : Value) → MapCases e
to_mapstr-MapCases (mapstr f) = map_case f refl
to_mapstr-MapCases (raw_map f) = map_case f refl
to_mapstr-MapCases nil_mapstr = nil_case refl
to_mapstr-MapCases nil_raw_map = nil_case refl
to_mapstr-MapCases _ = other_case refl

get_from-none : (s : Bytes) (rest : List Bytes) → get_from none s rest ≡ err key_not_found
unfolding get_from
get_from-none s [] = refl
get_from-none s (t ∷ rest) = refl

required-map : (o : Option Value) → required (Option.map clone_value o) ≡ clone_result (required o)
required-map none = refl
required-map (some v) = refl

get_from-not_map :
    (f : Fields) (s t : Bytes) (rest : List Bytes) {e : Value}
    → lookup (join b'.' (s ∷ t ∷ rest)) f ≡ none
    → lookup s f ≡ some e
    → to_mapstr e ≡ err expected_map
    → get_from (some f) s (t ∷ rest) ≡ err expected_map
get_from-not_map f s t rest absent there not_map =
    get_from-absent f s t rest absent ∙ rw (there, ◌>>=◌) (rw not_map)

get_from-clone :
    (rest : List Bytes) (f : Fields) (s : Bytes)
    → IsMap f
    → get_from (some (clone_onto f end)) s rest ≡ clone_result (get_from (some f) s rest)
get_from-clone [] f s p =
    unfold get_from in (ap required (lookup-clone f s p) ∙ required-map (lookup s f))
get_from-clone (t ∷ rest) f s p = elim (Option-cases (lookup (join b'.' (s ∷ t ∷ rest)) f)) [
  | inr (w, present) ↦
      get_from-present _ s t rest (whole ∙ ap (Option.map clone_value) present)
      ∙ ap clone_result (sym (get_from-present f s t rest present))
  | inl absent ↦
      let gone = whole ∙ ap (Option.map clone_value) absent in
      elim (Option-cases (lookup s f)) [
        | inl missing ↦
            get_from-missing _ s t rest gone
              (lookup-clone f s p ∙ ap (Option.map clone_value) missing)
            ∙ ap clone_result (sym (get_from-missing f s t rest absent missing))
        | inr (e, there) ↦
            let here = lookup-clone f s p ∙ ap (Option.map clone_value) there in
            elim (to_mapstr-MapCases e) [
              | nil_case is ↦
                  get_from-below _ s t rest gone here (to_mapstr-clone_none e is)
                  ∙ get_from-end t rest
                  ∙ ap clone_result
                      (sym (get_from-below f s t rest absent there is ∙ get_from-none t rest))
              | map_case g is ↦
                  get_from-below _ s t rest gone here (to_mapstr-clone_some e is)
                  ∙ get_from-clone rest g t (to_mapstr-IsMap e (lookup-IsMapValue s f p there) is)
                  ∙ ap clone_result (sym (get_from-below f s t rest absent there is))
              | other_case is ↦
                  get_from-not_map _ s t rest gone here (to_mapstr-clone_err e is)
                  ∙ ap clone_result (sym (get_from-not_map f s t rest absent there is))
            ]
      ]
]
  where
    whole :
        lookup (join b'.' (s ∷ t ∷ rest)) (clone_onto f end)
        ≡ Option.map clone_value (lookup (join b'.' (s ∷ t ∷ rest)) f)
    whole = lookup-clone f _ p

-- `GetValue` on a clone returns the clone of what it returns on the map, for every dotted key, and the
-- same error where it fails.
pub get_value-clone :
    (m : M) (key : Bytes) → IsMapM m → get_value (clone m) key ≡ clone_result (get_value m key)
unfolding clone
get_value-clone none key p =
    get_value-pieces _ key ∙ go (split b'.' key) ∙ ap clone_result (sym (get_value-pieces none key))
  where
    go : (ps : List Bytes) → get_pieces (some end) ps ≡ clone_result (get_pieces none ps)
    go [] = refl
    go (s ∷ rest) = get_from-end s rest ∙ ap clone_result (sym (get_from-none s rest))
get_value-clone (some f) key p =
    get_value-pieces _ key
    ∙ go (split b'.' key)
    ∙ ap clone_result (sym (get_value-pieces (some f) key))
  where
    go :
        (ps : List Bytes)
        → get_pieces (some (clone_onto f end)) ps ≡ clone_result (get_pieces (some f) ps)
    go [] = refl
    go (s ∷ rest) = get_from-clone rest f s p
