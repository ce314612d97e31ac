-- ===== src/Mapstr/Traverse/Level.antt =====
-- One level of `Traverse` in mapstr/mapstr.go: what a level that ends without an error has visited.
use elastic_agent_libs.Prelude.{
  Bytes, eq_bytes, eq_bytes_refl, List, [], ◌∷◌, none, some, some_inj, Option-cases, Bool, true,
  false, Bool-cases, if◌then◌else◌, ◌≡◌, ◌⊎◌, inl, inr, refl, ap, sym, ◌∙◌,
}
use elastic_agent_libs.Mapstr.Value.{
  Value, Fields, end, field, M, lookup, insert, try_to_mapstr, with_map,
}
use elastic_agent_libs.Mapstr.Traverse.{
  TraversalMode, ignores_case, Visited, TraversalVisitor, Traversed, keys_of, first_match, collides,
  entry_of, collided, above, next_level, visit_level, matcher, traverse_from,
}

first_match-HasEntry :
    (matches : Bytes → Bool) (f : Fields) {r : Bytes × List Bytes}
    → first_match matches (keys_of f) ≡ some r
    → (matches r.0 ≡ true) × (v : Value) × (lookup r.0 f ≡ some v)
unfolding first_match lookup
first_match-HasEntry matches end h = cc
first_match-HasEntry matches (field k v f) {r = r} h = elim (Bool-cases (matches k)) [
  | inl hit ↦
      let e : k ≡ r.0 = ap (λ z. z.0) (some_inj (rw hit at h)) in
      (ap matches (sym e) ∙ hit, v, rw (sym e) (rw (eq_bytes_refl k) refl))
  | inr miss ↦
      let (m, w, l) = first_match-HasEntry matches f {r = r} (rw miss at h) in
      (m, elim (eq_bytes k r.0) [ true ↦ v | false ↦ w ], below k r.0 v w l (eq_bytes k r.0))
]
  where
    below :
        (k j : Bytes) (v w : Value)
        → lookup j f ≡ some w
        → (b : Bool) → (if b then some v else lookup j f) ≡ some (elim b [ true ↦ v | false ↦ w ])
    below k j v w l true = refl
    below k j v w l false = l

module _ {ℓ} {S : Type ℓ} (visitor : TraversalVisitor S) (late : Bool) (mode : TraversalMode)
    (matches : Bytes → Bool) (last : Bool) (s : S) (below : S → M → Traversed S) where
  -- What stands behind the visit of a key in a level without an error.
  abbrev pub WentOn : Value → Visited S → Traversed S → Type ℓ
  WentOn v w t =
      ((last ≡ true) × (t.state ≡ w.state) × (t.whole ≡ some w.level))
      ⊎ ((last ≡ false)
          × (m : M) × (try_to_mapstr v ≡ some m)
          × ((below w.state m).failed ≡ none)
          × (t.state ≡ (below w.state m).state)
          × (t.whole ≡ some (insert w.place (with_map v (below w.state m).whole) w.level)))

  pub record LevelDone (d : M) (t : Traversed S) : Type ℓ where
    pub level : Fields
    pub is_level : d ≡ some level
    pub key : Bytes
    pub value : Value
    pub is_match : matches key ≡ true
    pub has_value : lookup key level ≡ some value
    pub no_error : (visitor s level key).failed ≡ none
    pub went_on : WentOn value (visitor s level key) t

  collided-none :
      (f : Fields) (keys : List Bytes) (w : Visited S) (t : Traversed S)
      → (collided matches late f keys w t).failed ≡ none
      → collided matches late f keys w t ≡ t
  collided-none f keys w t h = elim (Bool-cases (collides matches late f keys w.level)) [
    | inl hit ↦ cc (rw hit at h)
    | inr miss ↦ rw miss
  ]

  next_level-WentOn :
      (f : Fields) (keys : List Bytes) (w : Visited S) (v : Value)
      → (next_level last mode matches late f keys w v (below w.state)).failed ≡ none
      → WentOn v w (next_level last mode matches late f keys w v (below w.state))
  next_level-WentOn f keys w v h = elim (Bool-cases last) [
    | inl end_here ↦
        let e : next_level last mode matches late f keys w v (below w.state) ≡ ended =
          rw end_here (collided-none f keys w ended (rw end_here at h)) in
        inl (end_here, ap (λ t. t.state) e, ap (λ t. t.whole) e)
    | inr on ↦ elim (Option-cases (try_to_mapstr v)) [
      | inl no_map ↦ cc (rw (on, no_map) at h)
      | inr (m, is_map) ↦
          let e : next_level last mode matches late f keys w v (below w.state)
              ≡ above w v (below w.state m) =
            went m on is_map (Bool-cases (ignores_case mode)) in
          inr (
            on,
            m,
            is_map,
            ap (λ t. t.failed) (sym e) ∙ h,
            ap (λ t. t.state) e,
            ap (λ t. t.whole) e,
          )
    ]
  ]
    where
      ended : Traversed S
      ended = record { state = w.state; whole = some w.level; failed = none }

      went :
          (m : M)
          → last ≡ false
          → try_to_mapstr v ≡ some m
          → ((ignores_case mode ≡ true) ⊎ (ignores_case mode ≡ false))
          → next_level last mode matches late f keys w v (below w.state)
            ≡ above w v (below w.state m)
      went m on is_map (inl folds) =
          rw (on, is_map, folds)
            (collided-none f keys w (above w v (below w.state m)) (rw (on, is_map, folds) at h))
      went m on is_map (inr exact) = rw (on, is_map, exact)

  pub visit_level-LevelDone :
      (d : M)
      → (visit_level visitor late mode matches last s d below).failed ≡ none
      → LevelDone d (visit_level visitor late mode matches last s d below)
  unfolding visit_level
  visit_level-LevelDone none h = cc
  visit_level-LevelDone (some f) h = elim (Option-cases (first_match matches (keys_of f))) [
    | inl absent ↦ cc (rw (absent, visit_level) at h)
    | inr (r, found) ↦ elim (Option-cases (visitor s f r.0).failed) [
      | inr (e, bad) ↦ cc (rw (found, bad, visit_level) at h)
      | inl fine ↦
          let (is_match, v, has) = first_match-HasEntry matches f found in
          let same : entry_of f r.0 ≡ v = rw (has, entry_of) in
          record {
            level = f;
            is_level = refl;
            key = r.0;
            value = entry_of f r.0;
            is_match = is_match;
            has_value = has ∙ ap some (sym same);
            no_error = fine;
            went_on =
                rw (found, fine, visit_level)
                  (next_level-WentOn f r.1 (visitor s f r.0) (entry_of f r.0)
                    (rw (found, fine, visit_level) at h));
          }
    ]
  ]

-- A visit without an error of a key that the segment matches.
pub record Visits {ℓ} {S : Type ℓ} (visitor : TraversalVisitor S) (matches : Bytes → Bool) (s : S)
    (d : M) : Type ℓ where
  pub level : Fields
  pub is_level : d ≡ some level
  pub key : Bytes
  pub value : Value
  pub is_match : matches key ≡ true
  pub has_value : lookup key level ≡ some value
  pub no_error : (visitor s level key).failed ≡ none

module _ {ℓ} {S : Type ℓ} (equal_fold : Bytes → Bytes → Bool) (visitor : TraversalVisitor S)
    (late : Bool) (mode : TraversalMode) where
  abbrev pub run : S → M → List Bytes → Traversed S
  run s d segments = traverse_from equal_fold visitor late mode s d segments

  -- The last level of a traversal without an error.
  pub run-last :
      (s : S) (d : M) (segment : Bytes)
      → (run s d (segment ∷ [])).failed ≡ none
      → (w : Visits visitor (matcher equal_fold mode segment) s d) × ((run s d (segment ∷ [])).state
          ≡ (visitor s w.level w.key).state)
        × ((run s d (segment ∷ [])).whole ≡ some (visitor s w.level w.key).level)
  unfolding traverse_from
  run-last s d segment h =
      let l =
        visit_level-LevelDone visitor late mode (matcher equal_fold mode segment) true s
          (λ t m. run t m []) d h in
      let w : Visits visitor (matcher equal_fold mode segment) s d = record {
        level = l.level;
        is_level = l.is_level;
        key = l.key;
        value = l.value;
        is_match = l.is_match;
        has_value = l.has_value;
        no_error = l.no_error;
      } in
      elim l.went_on [ inl (e, state, whole) ↦ (w, state, whole) | inr absurdly ↦ cc absurdly.0 ]

  -- The other levels.
  pub run-on :
      (s : S) (d : M) (segment t : Bytes) (rest : List Bytes)
      → (run s d (segment ∷ t ∷ rest)).failed ≡ none
      → (w : Visits visitor (matcher equal_fold mode segment) s d) × (m : M) × (try_to_mapstr
            w.value
          ≡ some m)
        × ((run (visitor s w.level w.key).state m (t ∷ rest)).failed ≡ none)
        × ((run s d (segment ∷ t ∷ rest)).state
            ≡ (run (visitor s w.level w.key).state m (t ∷ rest)).state)
        × ((run s d (segment ∷ t ∷ rest)).whole
            ≡ some (
                insert
                  (visitor s w.level w.key).place
                  (with_map w.value (run (visitor s w.level w.key).state m (t ∷ rest)).whole)
                  (visitor s w.level w.key).level))
  unfolding traverse_from
  run-on s d segment t rest h =
      let l =
        visit_level-LevelDone visitor late mode (matcher equal_fold mode segment) false s
          (λ u m. run u m (t ∷ rest)) d h in
      let w : Visits visitor (matcher equal_fold mode segment) s d = record {
        level = l.level;
        is_level = l.is_level;
        key = l.key;
        value = l.value;
        is_match = l.is_match;
        has_value = l.has_value;
        no_error = l.no_error;
      } in
      elim l.went_on [
        | inl absurdly ↦ cc absurdly.0
        | inr (e, m, is_map, fine, state, whole) ↦ (w, m, is_map, fine, state, whole)
      ]
