-- ===== src/Mapstr/Traverse/Alter.antt =====
-- `AlterPath` of mapstr/mapstr.go: where the value stands afterwards.
use elastic_agent_libs.Prelude.{
  Bytes, eq_bytes, eq_bytes_iff, split, split-ne-nil, List, [], ◌∷◌, Option, none, some,
  Option-cases, Bool, Bool-cases, ok, err, some_inj, ◌≡◌, inl, inr, refl, ap, ◌∙◌,
}
use elastic_agent_libs.Mapstr.Value.{
  Value, mapstr, raw_map, nil_mapstr, nil_raw_map, Fields, M, key_not_found, lookup, insert, remove,
  try_to_mapstr, with_map,
}
use elastic_agent_libs.Mapstr.Find.PutGet.{lookup-insert_self}
use elastic_agent_libs.Mapstr.Find.Walk.{walk}
use elastic_agent_libs.Mapstr.Traverse.{
  TraversalMode, Traversed, matcher, alter_visitor, entry_of, has_entry, traverse, alter_path,
}
use elastic_agent_libs.Mapstr.Traverse.Level.{run, run-last, run-on}
use elastic_agent_libs.Mapstr.Traverse.Fold.{AllMatch, walk-step, walk-last}

-- The new keys are what `alterFunc` makes of the old ones.
abbrev pub Altered : (Bytes → Option Bytes) → List Bytes → List Bytes → Type 0
Altered alter_func [] [] = Unit
Altered alter_func (k ∷ ks) (n ∷ ns) = (alter_func k ≡ some n) × Altered alter_func ks ns
Altered alter_func _ _ = ⊥

-- A visit without an error leaves the value under the new key.
alter_visitor-fine :
    (alter_func : Bytes → Option Bytes) (f : Fields) (k : Bytes) (v : Value)
    → lookup k f ≡ some v
    → (alter_visitor alter_func tt f k).failed ≡ none
    → (alter_func k ≡ some (alter_visitor alter_func tt f k).place)
      × (lookup (alter_visitor alter_func tt f k).place (alter_visitor alter_func tt f k).level
          ≡ some v)
alter_visitor-fine alter_func f k v has fine = elim (Option-cases (alter_func k)) [
  | inl failing ↦ cc (rw (failing, alter_visitor) at fine)
  | inr (n, new) ↦ elim (Bool-cases (eq_bytes n [])) [
    | inl empty ↦ cc (rw (new, empty, alter_visitor) at fine)
    | inr filled ↦ elim (Bool-cases (eq_bytes n k)) [
      | inl same ↦ rw (new, filled, same, alter_visitor) (ap some ((eq_bytes_iff n k).0 same), has)
      | inr changed ↦ elim (Bool-cases (has_entry f n)) [
        | inl taken ↦ cc (rw (new, filled, changed, taken, alter_visitor) at fine)
        | inr free ↦
            rw (new, filled, changed, free, alter_visitor)
              (refl, lookup-insert_self n (entry_of f k) (remove k f) ∙ rw (has, entry_of) refl)
      ]
    ]
  ]
]

walk-none : (k : Bytes) (ks : List Bytes) → walk none (k ∷ ks) ≡ err key_not_found
unfolding walk
walk-none k [] = refl
walk-none k (t ∷ ks) = refl

walk-nil_map :
    (k : Bytes) (ks : List Bytes) {m : M} {u : Value}
    → ◌≡◌ {A = Option M} (some none) (some m)
    → walk m (k ∷ ks) ≡ ok u
    → ⊥
walk-nil_map k ks nil found = cc (walk-none k ks, ap (λ d. walk d (k ∷ ks)) (some_inj nil), found)

-- A value that the walk has entered is a map that is not nil.
try-with_map :
    (v : Value) {m : M} (k : Bytes) (ks : List Bytes) (g : Fields) {u : Value}
    → try_to_mapstr v ≡ some m
    → walk m (k ∷ ks) ≡ ok u
    → try_to_mapstr (with_map v (some g)) ≡ some (some g)
try-with_map (mapstr f) k ks g h found = refl
try-with_map (raw_map f) k ks g h found = refl
try-with_map nil_mapstr k ks g h found = absurd (walk-nil_map k ks h found)
try-with_map nil_raw_map k ks g h found = absurd (walk-nil_map k ks h found)
try-with_map _ k ks g h found = cc h

module _ (equal_fold : Bytes → Bytes → Bool) (late : Bool) (mode : TraversalMode)
    (alter_func : Bytes → Option Bytes) where
  abbrev altered : M → List Bytes → Traversed {0} Unit
  altered d segments = run equal_fold (alter_visitor alter_func) late mode tt d segments

  record AlterDone (d : M) (segments : List Bytes) : Type 0 where
    key : Bytes
    keys : List Bytes
    new_key : Bytes
    new_keys : List Bytes
    value : Value
    after : Fields
    is_after : (altered d segments).whole ≡ some after
    matched : AllMatch (matcher equal_fold mode) segments (key ∷ keys)
    is_altered : Altered alter_func (key ∷ keys) (new_key ∷ new_keys)
    was : walk d (key ∷ keys) ≡ ok value
    now : walk (some after) (new_key ∷ new_keys) ≡ ok value

  altered-AlterDone :
      (rest : List Bytes) (segment : Bytes) (d : M)
      → (altered d (segment ∷ rest)).failed ≡ none
      → AlterDone d (segment ∷ rest)
  altered-AlterDone [] segment d h =
      let (w, state, whole) =
        run-last equal_fold (alter_visitor alter_func) late mode tt d segment h in
      let left = alter_visitor alter_func tt w.level w.key in
      let (is_new, has) =
        alter_visitor-fine alter_func w.level w.key w.value w.has_value w.no_error in
      record {
        key = w.key;
        keys = [];
        new_key = left.place;
        new_keys = [];
        value = w.value;
        after = left.level;
        is_after = whole;
        matched = (w.is_match, tt);
        is_altered = (is_new, tt);
        was =
            ap (λ z. walk z (w.key ∷ [])) w.is_level ∙ walk-last w.level w.key w.value w.has_value;
        now = walk-last left.level left.place w.value has;
      }
  altered-AlterDone (t ∷ rest) segment d h =
      let (w, m, is_map, fine, state, whole) =
        run-on equal_fold (alter_visitor alter_func) late mode tt d segment t rest h in
      let left = alter_visitor alter_func tt w.level w.key in
      let (is_new, has) =
        alter_visitor-fine alter_func w.level w.key w.value w.has_value w.no_error in
      let later = altered-AlterDone rest t m fine in
      let inner = with_map w.value (some later.after) in
      record {
        key = w.key;
        keys = later.key ∷ later.keys;
        new_key = left.place;
        new_keys = later.new_key ∷ later.new_keys;
        value = later.value;
        after = insert left.place inner left.level;
        is_after =
            whole
            ∙ ap (λ z. some (insert left.place (with_map w.value z) left.level)) later.is_after;
        matched = (w.is_match, later.matched);
        is_altered = (is_new, later.is_altered);
        was =
            ap (λ z. walk z (w.key ∷ later.key ∷ later.keys)) w.is_level
            ∙ walk-step w.level w.key later.key later.keys w.value m w.has_value is_map
            ∙ later.was;
        now =
            walk-step (insert left.place inner left.level) left.place later.new_key later.new_keys
              inner (some later.after) (lookup-insert_self left.place inner left.level)
              (try-with_map w.value later.key later.keys later.after is_map later.was)
            ∙ later.now;
      }

-- Where `AlterPath` ends without an error, the value that the keys that match the path led to is the value
-- that the altered keys lead to.
pub alter_path-walk :
    (equal_fold : Bytes → Bytes → Bool) (late : Bool) (m : M) (path : Bytes) (mode : TraversalMode)
    (alter_func : Bytes → Option Bytes)
    → (alter_path equal_fold late m path mode alter_func).failed ≡ none
    → (ks : List Bytes) × (ns : List Bytes) × (v : Value) × AllMatch
        (matcher equal_fold mode)
        (split b'.' path)
        ks
      × Altered alter_func ks ns
      × (walk m ks ≡ ok v)
      × (walk (alter_path equal_fold late m path mode alter_func).whole ns ≡ ok v)
unfolding alter_path traverse
alter_path-walk equal_fold late m path mode alter_func h =
    found (split b'.' path) (split-ne-nil b'.' path) h
  where
    found :
        (segments : List Bytes)
        → (segments ≡ [] → ⊥)
        → (altered equal_fold late mode alter_func m segments).failed ≡ none
        → (ks : List Bytes) × (ns : List Bytes) × (v : Value) × AllMatch
            (matcher equal_fold mode)
            segments
            ks
          × Altered alter_func ks ns
          × (walk m ks ≡ ok v)
          × (walk (altered equal_fold late mode alter_func m segments).whole ns ≡ ok v)
    found [] some_segment fine = absurd (some_segment refl)
    found (segment ∷ rest) some_segment fine =
        let w = altered-AlterDone equal_fold late mode alter_func rest segment m fine in
        (
          w.key ∷ w.keys,
          w.new_key ∷ w.new_keys,
          w.value,
          w.matched,
          w.is_altered,
          w.was,
          ap (λ d. walk d (w.new_key ∷ w.new_keys)) w.is_after ∙ w.now,
        )
