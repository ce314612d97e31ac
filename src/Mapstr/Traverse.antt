-- ===== src/Mapstr/Traverse.antt =====
-- mapstr/mapstr.go: `Traverse`, and `FindFold` and `AlterPath` that are built on it. `strings.EqualFold`
-- and the function that alters a key are arguments.
pub mod Level
pub mod Fold
pub mod Alter
use elastic_agent_libs.Prelude.{
  ℕ, ◌-◌, ◌==◌, Bytes, eq_bytes, split, length, List, [], ◌∷◌, ◌++◌, Option, none, some, Bool, true,
  false, not, ◌&&◌, ◌||◌, Result, ok, err, if◌then◌else◌,
}
use elastic_agent_libs.Mapstr.Value.{
  Value, null, Fields, end, field, M, Error, key_not_found, key_collision, not_map_type, lookup,
  insert, remove, try_to_mapstr, with_map,
}

pub data PathError : Type 0 where
  plain : Error → PathError
  -- `alterFunc` fails
  alter_failed : PathError
  -- `alterFunc` returns no text
  empty_key : PathError

-- The two modes that there are. Of another number the code calls a nil function, which panics.
pub data TraversalMode : Type 0 where
  case_sensitive case_insensitive : TraversalMode

abbrev pub ignores_case : TraversalMode → Bool
ignores_case case_sensitive = false
ignores_case case_insensitive = true

-- What a call of the visitor leaves: the data that it collects, the map of the level, and the key
-- where the value stands in it that the visited key had.
pub record Visited {ℓ} (S : Type ℓ) : Type ℓ where
  pub state : S
  pub level : Fields
  pub place : Bytes
  pub failed : Option PathError

-- `TraversalVisitor`.
abbrev pub TraversalVisitor {ℓ} : Type ℓ → Type ℓ
TraversalVisitor S = S → Fields → Bytes → Visited S

-- What a traversal leaves: the data, the map, and the error.
pub record Traversed {ℓ} (S : Type ℓ) : Type ℓ where
  pub state : S
  pub whole : M
  pub failed : Option PathError

abbrev pub keys_of : Fields → List Bytes
keys_of end = []
keys_of (field k v f) = k ∷ keys_of f

abbrev pub keys_of_map : M → List Bytes
keys_of_map none = []
keys_of_map (some f) = keys_of f

abbrev pub has_entry : Fields → Bytes → Bool
has_entry f k = elim (lookup k f) [ some v ↦ true | none ↦ false ]

-- `match` of `Traverse`.
abbrev pub matcher : (Bytes → Bytes → Bool) → TraversalMode → Bytes → Bytes → Bool
matcher equal_fold case_insensitive a b = equal_fold a b
matcher equal_fold case_sensitive a b = eq_bytes a b

-- The iterations over the keys of a level up to the first match: its key, and the keys behind it.
unfoldable pub first_match : (Bytes → Bool) → List Bytes → Option (Bytes × List Bytes)
first_match matches [] = none
first_match matches (k ∷ keys) =
    let later = first_match matches keys in if matches k then some (k, keys) else later

-- Is there a key that matches and has an entry, or has none?
unfoldable pub any_match : (Bytes → Bool) → Fields → Bool → List Bytes → Bool
any_match matches f there [] = false
any_match matches f there (k ∷ keys) =
    (matches k && (if there then has_entry f k else not (has_entry f k)))
    || any_match matches f there keys

-- The iterations after the visit of a key: do they come to another key that matches? They come to no key
-- that the visitor deleted, and Go leaves it open whether they come to those that it added, which `late`
-- says.
unfoldable pub collides : (Bytes → Bool) → Bool → Fields → List Bytes → Fields → Bool
unfolding any_match
collides matches late before keys after =
    any_match matches after true keys || (late && any_match matches before false (keys_of after))

-- `current[k]`.
abbrev pub entry_of : Fields → Bytes → Value
entry_of f k = elim (lookup k f) [ some v ↦ v | none ↦ null ]

abbrev pub is_last : List Bytes → Bool
is_last [] = true
is_last (s ∷ rest) = false

module _ {ℓ} {S : Type ℓ} where
  abbrev pub stopped : S → M → PathError → Traversed S
  stopped s d e = record { state = s; whole = d; failed = some e }

  -- The end of a level that the visitor left as `w`.
  abbrev pub collided :
      (Bytes → Bool) → Bool → Fields → List Bytes → Visited S → Traversed S → Traversed S
  collided matches late f keys w t =
      if collides matches late f keys w.level
      then stopped w.state (some w.level) (plain key_collision)
      else t

  -- The map of a level once the map below it has been traversed.
  abbrev pub above : Visited S → Value → Traversed S → Traversed S
  above w v t = record t { whole = some (insert w.place (with_map v t.whole) w.level) }

  -- What follows a visit: the next level, unless this was the last one. `below` is the traversal of the
  -- next level.
  abbrev pub next_level :
      Bool
      → TraversalMode
      → (Bytes → Bool)
      → Bool
      → Fields
      → List Bytes
      → Visited S
      → Value
      → (M → Traversed S)
      → Traversed S
  next_level last mode matches late f keys w v below =
      if last
      then collided matches late f keys w
          (record { state = w.state; whole = some w.level; failed = none })
      else elim (try_to_mapstr v) [
        | none ↦ stopped w.state (some w.level) (plain not_map_type)
        | some m ↦
            if ignores_case mode
            then collided matches late f keys w (above w v (below m))
            else above w v (below m)
      ]

  -- One level.
  unfoldable pub visit_level :
      TraversalVisitor S
      → Bool
      → TraversalMode
      → (Bytes → Bool)
      → Bool
      → S
      → M
      → (S → M → Traversed S)
      → Traversed S
  unfolding first_match collides
  visit_level visitor late mode matches last s none below = stopped s none (plain key_not_found)
  visit_level visitor late mode matches last s (some f) below =
      elim (first_match matches (keys_of f)) [
        | none ↦ stopped s (some f) (plain key_not_found)
        | some found ↦
            let w = visitor s f found.0 in
            elim w.failed [
              | some e ↦ stopped w.state (some w.level) e
              | none ↦
                  next_level last mode matches late f found.1 w (entry_of f found.0) (below w.state)
            ]
      ]

  -- The loop of `Traverse` over the segments.
  unfoldable pub traverse_from :
      (Bytes → Bytes → Bool)
      → TraversalVisitor S
      → Bool
      → TraversalMode
      → S
      → M
      → List Bytes
      → Traversed S
  unfolding visit_level
  traverse_from equal_fold visitor late mode s d [] = record { state = s; whole = d; failed = none }
  traverse_from equal_fold visitor late mode s d (segment ∷ rest) =
      visit_level visitor late mode (matcher equal_fold mode segment) (is_last rest) s d
        (λ t m. traverse_from equal_fold visitor late mode t m rest)

  -- `Traverse`.
  unfoldable pub traverse :
      (Bytes → Bytes → Bool)
      → TraversalVisitor S
      → Bool
      → TraversalMode
      → S
      → M
      → Bytes
      → Traversed S
  unfolding traverse_from
  traverse equal_fold visitor late mode s d path =
      traverse_from equal_fold visitor late mode s d (split b'.' path)

-- `segmentCount`, `matchedKey` and `value` of `FindFold`.
pub record FoldState : Type 0 where
  pub segment_count : ℕ
  pub matched_key : Bytes
  pub value : Value

-- The visitor of `FindFold`.
abbrev pub fold_visitor : TraversalVisitor FoldState
fold_visitor s level key =
    let left = s.segment_count - 1 in
    let matched = s.matched_key ++ key in
    record {
      state =
          if left == 0
          then record { segment_count = left; matched_key = matched; value = entry_of level key }
          else record { segment_count = left; matched_key = matched ++ b'.' ∷ []; value = s.value };
      level = level;
      place = key;
      failed = none;
    }

-- `FindFold`; `strings.Count(path, ".") + 1` is the number of the segments.
unfoldable pub find_fold :
    (Bytes → Bytes → Bool) → Bool → M → Bytes → Result PathError (Bytes × Value)
unfolding traverse traverse_from
find_fold equal_fold late m path =
    let start : FoldState = record {
      segment_count = length (split b'.' path);
      matched_key = [];
      value = null;
    } in
    let t = traverse equal_fold fold_visitor late case_insensitive start m path in
    elim t.failed [ some e ↦ err e | none ↦ ok (t.state.matched_key, t.state.value) ]

-- The visitor of `AlterPath`; `none` is an error of `alterFunc`.
abbrev pub alter_visitor : (Bytes → Option Bytes) → TraversalVisitor {0} Unit
alter_visitor alter_func s level key = elim (alter_func key) [
  | none ↦ record { state = s; level = level; place = key; failed = some alter_failed }
  | some new_key ↦
      if eq_bytes new_key []
      then record { state = s; level = level; place = key; failed = some empty_key }
      else if eq_bytes new_key key
      then record { state = s; level = level; place = key; failed = none }
      else if has_entry level new_key
      then record { state = s; level = level; place = key; failed = some (plain key_collision) }
      else record {
        state = s;
        level = insert new_key (entry_of level key) (remove key level);
        place = new_key;
        failed = none;
      }
]

-- `AlterPath`.
unfoldable pub alter_path :
    (Bytes → Bytes → Bool)
    → Bool
    → M
    → Bytes
    → TraversalMode
    → (Bytes → Option Bytes)
    → Traversed {0} Unit
unfolding traverse traverse_from
alter_path equal_fold late m path mode alter_func =
    traverse equal_fold (alter_visitor alter_func) late mode tt m path
