-- ===== src/Mapstr/Traverse/Fold.antt =====
-- `FindFold` of mapstr/mapstr.go against the walk along the keys that it has matched.
use elastic_agent_libs.Prelude.{
  ℕ, suc, ◌-◌, ◌==◌, Bytes, split, split-ne-nil, join, length, List, [], ◌∷◌, ◌++◌, none, some,
  Option-cases, Bool, true, false, Result, ok, err, ◌>>=◌, ok-injective, ◌≡◌, inl, inr, refl, ap,
  sym, ◌∙◌, arith,
}
use mathlib.Core.List.{append_assoc}
use elastic_agent_libs.Mapstr.Value.{Value, null, Fields, M, lookup, to_mapstr, try_to_mapstr}
use elastic_agent_libs.Mapstr.Find.Direct.{required}
use elastic_agent_libs.Mapstr.Find.Walk.{walk}
use elastic_agent_libs.Mapstr.Traverse.{
  case_insensitive, PathError, Traversed, FoldState, fold_visitor, entry_of, traverse, find_fold,
}
use elastic_agent_libs.Mapstr.Traverse.Level.{run, run-last, run-on}

-- The keys match the segments one by one.
abbrev pub AllMatch : (Bytes → Bytes → Bool) → List Bytes → List Bytes → Type 0
AllMatch same [] [] = Unit
AllMatch same (s ∷ ss) (k ∷ ks) = (same s k ≡ true) × AllMatch same ss ks
AllMatch same _ _ = ⊥

pub to_mapstr-try : (v : Value) {m : M} → try_to_mapstr v ≡ some m → to_mapstr v ≡ ok m
to_mapstr-try v h = rw (to_mapstr, h)

pub walk-step :
    (f : Fields) (k t : Bytes) (ks : List Bytes) (v : Value) (m : M)
    → lookup k f ≡ some v
    → try_to_mapstr v ≡ some m
    → walk (some f) (k ∷ t ∷ ks) ≡ walk m (t ∷ ks)
unfolding walk
walk-step f k t ks v m has is_map =
    rw (has, required, ◌>>=◌) (rw (to_mapstr-try v is_map, ◌>>=◌) refl)

pub walk-last :
    (f : Fields) (k : Bytes) (v : Value) → lookup k f ≡ some v → walk (some f) (k ∷ []) ≡ ok v
unfolding walk
walk-last f k v has = rw (has, required) refl

abbrev go_through : (Bytes → Bytes → Bool) → Bool → FoldState → M → List Bytes → Traversed FoldState
go_through equal_fold late s d segments =
    run equal_fold fold_visitor late case_insensitive s d segments

module _ (equal_fold : Bytes → Bytes → Bool) (late : Bool) where
  record FoldDone (s : FoldState) (d : M) (segments : List Bytes) : Type 0 where
    key : Bytes
    keys : List Bytes
    matched : AllMatch equal_fold segments (key ∷ keys)
    is_key :
        (go_through equal_fold late s d segments).state.matched_key
        ≡ s.matched_key ++ join b'.' (key ∷ keys)
    is_value : walk d (key ∷ keys) ≡ ok (go_through equal_fold late s d segments).state.value

  fold-last :
      (s : FoldState) (f : Fields) (k : Bytes)
      → s.segment_count ≡ 1
      → (fold_visitor s f k).state ≡ record {
        segment_count = s.segment_count - 1;
        matched_key = s.matched_key ++ k;
        value = entry_of f k;
      }
  fold-last s f k one = rw one refl

  fold-on :
      (s : FoldState) (f : Fields) (k : Bytes) (n : ℕ)
      → s.segment_count ≡ suc (suc n)
      → (fold_visitor s f k).state ≡ record {
        segment_count = suc n;
        matched_key = (s.matched_key ++ k) ++ b'.' ∷ [];
        value = s.value;
      }
  fold-on s f k n more =
      let left : s.segment_count - 1 ≡ suc n = omega (arith, more) in
      let some_left : (suc n == 0) ≡ false = ground arith in rw left (rw some_left refl)

  run-FoldDone :
      (rest : List Bytes) (segment : Bytes) (s : FoldState) (d : M)
      → s.segment_count ≡ length (segment ∷ rest)
      → (go_through equal_fold late s d (segment ∷ rest)).failed ≡ none
      → FoldDone s d (segment ∷ rest)
  unfolding join
  run-FoldDone [] segment s d count h =
      let (w, state, whole) =
        run-last equal_fold fold_visitor late case_insensitive s d segment h in
      let e = state ∙ fold-last s w.level w.key count in
      record {
        key = w.key;
        keys = [];
        matched = (w.is_match, tt);
        is_key = ap (λ z. z.matched_key) e;
        is_value =
            ap (λ z. walk z (w.key ∷ [])) w.is_level
            ∙ walk-last w.level w.key w.value w.has_value
            ∙ ap ok (sym (ap (λ z. z.value) e ∙ rw (w.has_value, entry_of)));
      }
  run-FoldDone (t ∷ rest) segment s d count h =
      let (w, m, is_map, fine, state, whole) =
        run-on equal_fold fold_visitor late case_insensitive s d segment t rest h in
      let now = fold-on s w.level w.key (length rest) count in
      let later =
        run-FoldDone rest t (fold_visitor s w.level w.key).state m (ap (λ z. z.segment_count) now)
          fine in
      record {
        key = w.key;
        keys = later.key ∷ later.keys;
        matched = (w.is_match, later.matched);
        is_key =
            ap (λ z. z.matched_key) state
            ∙ later.is_key
            ∙ ap (λ z. z.matched_key ++ join b'.' (later.key ∷ later.keys)) now
            ∙ append_assoc (s.matched_key ++ w.key) (b'.' ∷ []) (join b'.' (later.key ∷ later.keys))
            ∙ append_assoc s.matched_key w.key (b'.' ∷ join b'.' (later.key ∷ later.keys));
        is_value =
            ap (λ z. walk z (w.key ∷ later.key ∷ later.keys)) w.is_level
            ∙ walk-step w.level w.key later.key later.keys w.value m w.has_value is_map
            ∙ later.is_value
            ∙ ap (λ z. ok z.value) (sym state);
      }

-- Where `FindFold` finds a value, the key that it returns is made of keys that match the segments of the
-- path without regard to case, and the value is what the walk along these keys comes to. This holds of
-- every order in which Go goes through the keys of a map.
pub find_fold-walk :
    (equal_fold : Bytes → Bytes → Bool) (late : Bool) (m : M) (path : Bytes) {key : Bytes}
    {v : Value}
    → find_fold equal_fold late m path ≡ ok (key, v)
    → (ks : List Bytes) × (key ≡ join b'.' ks)
      × AllMatch equal_fold (split b'.' path) ks
      × (walk m ks ≡ ok v)
unfolding find_fold traverse
find_fold-walk equal_fold late m path {key} {v} h =
    found (split b'.' path) (split-ne-nil b'.' path) refl h
  where
    start : List Bytes → FoldState
    start segments = record { segment_count = length segments; matched_key = []; value = null }

    found :
        (segments : List Bytes)
        → (segments ≡ [] → ⊥)
        → split b'.' path ≡ segments
        → ◌≡◌ {A = Result PathError (Bytes × Value)}
            (elim (go_through equal_fold late (start segments) m segments).failed [
              | some e ↦ err e
              | none ↦ ok (
                (go_through equal_fold late (start segments) m segments).state.matched_key,
                (go_through equal_fold late (start segments) m segments).state.value,
              )
            ])
            (ok (key, v))
        → (ks : List Bytes) × (key ≡ join b'.' ks)
          × AllMatch equal_fold segments ks
          × (walk m ks ≡ ok v)
    found [] some_segment is_split e = absurd (some_segment refl)
    found (segment ∷ rest) some_segment is_split e =
        elim (Option-cases
          (go_through equal_fold late (start (segment ∷ rest)) m (segment ∷ rest)).failed) [
            | inr (failure, bad) ↦ cc (rw bad at e)
            | inl fine ↦
                let both = ok-injective (rw fine at e) in
                let w =
                  run-FoldDone equal_fold late rest segment (start (segment ∷ rest)) m refl fine in
                (
                  w.key ∷ w.keys,
                  ap (λ z. z.0) (sym both) ∙ w.is_key,
                  w.matched,
                  w.is_value ∙ ap (λ z. ok z.1) both,
                )
          ]
