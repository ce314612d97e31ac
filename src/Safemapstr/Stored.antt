-- ===== src/Safemapstr/Stored.antt =====
-- Where `Put` of safemapstr/safemapstr.go leaves the value.
use mathlib.Core.Path.{subst}
use elastic_agent_libs.Prelude.{
  Bytes, Bool, true, false, Bool-cases, eq_bytes, if◌then◌else◌, ap, split, join, contains, List,
  [], ◌∷◌, ◌++◌, none, some, Option-cases, inl, inr, Result, ok, err, ◌>>=◌, ◌>>◌, >>=-eq-ok,
  >>=_assoc, ok-injective, ◌≡◌, refl, sym, ◌∙◌,
}
use elastic_agent_libs.Mapstr.Value.{
  Value, mapstr, nil_mapstr, raw_map, nil_raw_map, Fields, end, field, M, Error, lookup, insert,
  assign, try_to_mapstr, to_mapstr, with_map, store,
}
use elastic_agent_libs.Mapstr.Plain.{
  IsPlainMap, IsPlain, IsPlainValue, lookup-join, lookup-IsPlainValue,
}
use elastic_agent_libs.Mapstr.Find.PutGet.{to_mapstr-with_map, lookup-insert_self}
use elastic_agent_libs.Mapstr.Find.Walk.{walk}
use elastic_agent_libs.Mapstr.Find.Direct.{required}
use elastic_agent_libs.Safemapstr.{
  alternative_key, Place, place_at, enter, content, safe_find_from, safe_find_pieces, safe_put,
}

-- Whether what a walk comes to is a map.
abbrev pub leads_to_map : Result Error Value → Bool
leads_to_map (ok (mapstr _)) = true
leads_to_map (ok (raw_map _)) = true
leads_to_map (ok nil_mapstr) = true
leads_to_map (ok nil_raw_map) = true
leads_to_map (ok _) = false
leads_to_map (err _) = false

-- The value is where the pieces lead, or, where a map was there, under the alternative key in it.
abbrev pub Stored : Bool → M → List Bytes → Value → Type 0
Stored was_map m ps v = walk m (if was_map then ps ++ alternative_key ∷ [] else ps) ≡ ok v

walk-insert : (s : Bytes) (v : Value) (f : Fields) → walk (some (insert s v f)) (s ∷ []) ≡ ok v
unfolding walk
walk-insert s v f = rw (lookup-insert_self s v f) refl

-- A walk of two pieces or more in a map of which the first piece leads to a map.
walk-entry :
    (f : Fields) (s t : Bytes) (rest : List Bytes) (e : Value) {g : Fields}
    → to_mapstr e ≡ ok (some g)
    → walk (some (insert s e f)) (s ∷ t ∷ rest) ≡ walk (some g) (t ∷ rest)
unfolding walk
walk-entry f s t rest e is = rw (lookup-insert_self s e f, is, ◌>>=◌) refl

Stored-entry :
    (b : Bool) (f : Fields) (s t : Bytes) (rest : List Bytes) (e v : Value) (h : Fields)
    {g : Fields}
    → to_mapstr e ≡ ok (some g)
    → Stored b (some h) (t ∷ rest) v
    → Stored b (store (some f) s (with_map e (some h))) (s ∷ t ∷ rest) v
Stored-entry false f s t rest e v h is w = walk-entry f s t rest _ (to_mapstr-with_map e h is) ∙ w
Stored-entry true f s t rest e v h is w =
    walk-entry f s t (rest ++ alternative_key ∷ []) _ (to_mapstr-with_map e h is) ∙ w

-- `Put` as one recursion.
unfoldable put_from : M → Bytes → List Bytes → Value → Result Error M
unfolding safe_find_from
put_from d s rest v = do
  r ← safe_find_from d s rest
  m ← assign r.sub_map r.sub_key v
  ok (r.rebuild m)

-- The write at a place.
abbrev write_at : Value → Place → Result Error M
write_at v r = do m ← assign r.sub_map r.sub_key v; ok (r.rebuild m)

abbrev inside : Fields → Bytes → Value → Place → Place
inside f s e r = record r { rebuild = λ x. store (some f) s (with_map e (r.rebuild x)) }

write-inside :
    (f : Fields) (s : Bytes) (e v : Value) (r : Place)
    → write_at v (inside f s e r) ≡ (write_at v r >>= λ x. ok (store (some f) s (with_map e x)))
write-inside f s e v r = sym (>>=_assoc (assign r.sub_map r.sub_key v) _ _)

regroup :
    (f : Fields) (s : Bytes) (v : Value) (entered : Result Error Value)
    (below : Value → Result Error Place)
    → ((entered >>= λ e. below e >>= λ r. ok (inside f s e r)) >>= write_at v)
      ≡ (entered >>= λ e. (below e >>= write_at v) >>= λ x. ok (store (some f) s (with_map e x)))
regroup f s v (err why) below = refl
regroup f s v (ok e) below = go (below e)
  where
    go :
        (found : Result Error Place)
        → ((found >>= λ r. ok (inside f s e r)) >>= write_at v)
          ≡ ((found >>= write_at v) >>= λ x. ok (store (some f) s (with_map e x)))
    go (err why) = refl
    go (ok r) = write-inside f s e v r

put_from-below :
    (f : Fields) (s t : Bytes) (rest : List Bytes) (v : Value)
    → lookup (join b'.' (s ∷ t ∷ rest)) f ≡ none
    → put_from (some f) s (t ∷ rest) v ≡ (do
      e ← enter (some f) s
      x ← put_from (content e) t rest v
      ok (store (some f) s (with_map e x)))
unfolding put_from safe_find_from
put_from-below f s t rest v absent =
    rw (absent, put_from, safe_find_from)
      (regroup f s v (enter (some f) s) (λ e. safe_find_from (content e) t rest))

put_from-none :
    (s : Bytes) (rest : List Bytes) (v : Value) {m : M} → put_from none s rest v ≡ ok m → ⊥
unfolding put_from safe_find_from enter
put_from-none s [] v h = cc
put_from-none s (t ∷ rest) v h = cc

-- A value at the key itself, and a map there, which takes the new value under the alternative key.
Stored-at :
    (f : Fields) (s : Bytes) (v old : Value) {m : M}
    → write_at v (place_at (some f) s old) ≡ ok m
    → Stored (leads_to_map (ok old)) m (s ∷ []) v
unfolding place_at
Stored-at f s v (mapstr g) h =
    subst (λ m. Stored true m (s ∷ []) v) (ok-injective h)
      (walk-entry f s alternative_key [] (mapstr (insert alternative_key v g)) refl
        ∙ walk-insert alternative_key v g)
Stored-at f s v (raw_map g) h =
    subst (λ m. Stored true m (s ∷ []) v) (ok-injective h)
      (walk-entry f s alternative_key [] (raw_map (insert alternative_key v g)) refl
        ∙ walk-insert alternative_key v g)
Stored-at f s v nil_mapstr h = cc
Stored-at f s v nil_raw_map h = cc
Stored-at f s v _ h = subst (λ m. Stored false m (s ∷ []) v) (ok-injective h) (walk-insert s v f)

Stored-here :
    (f : Fields) (s : Bytes) (v : Value) {m : M}
    → put_from (some f) s [] v ≡ ok m
    → Stored (leads_to_map (walk (some f) (s ∷ []))) m (s ∷ []) v
unfolding put_from safe_find_from walk
Stored-here f s v {m} h = elim (Option-cases (lookup s f)) [
  | inl gone ↦
      subst (λ o. Stored (leads_to_map (required o)) m (s ∷ []) v) (sym gone)
        (subst (λ m. Stored false m (s ∷ []) v)
          (ok-injective (rw (gone, put_from, safe_find_from) at h)) (walk-insert s v f))
  | inr (old, there) ↦
      subst (λ o. Stored (leads_to_map (required o)) m (s ∷ []) v) (sym there)
        (Stored-at f s v old (rw (there, put_from, safe_find_from) at h))
]

-- No walk finds anything in the empty map, and none finds a map in the map that a value which is no
-- map is put into.
walk-end : (t : Bytes) (rest : List Bytes) → leads_to_map (walk (some end) (t ∷ rest)) ≡ false
unfolding walk lookup
walk-end t [] = refl
walk-end t (u ∷ rest) = refl

walk-alone :
    (old : Value) (t : Bytes) (rest : List Bytes)
    → leads_to_map (ok old) ≡ false
    → try_to_mapstr old ≡ none
    → leads_to_map (walk (some (field alternative_key old end)) (t ∷ rest)) ≡ false
unfolding walk lookup
walk-alone old t [] no_map is = elim (Bool-cases (eq_bytes alternative_key t)) [
  | inl same ↦ rw (same, lookup) no_map
  | inr other ↦ rw (other, lookup) refl
]
walk-alone old t (u ∷ rest) no_map is = elim (Bool-cases (eq_bytes alternative_key t)) [
  | inl same ↦ rw (same, lookup, ◌>>=◌) (rw (is, ◌>>=◌) refl)
  | inr other ↦ rw (other, lookup, ◌>>=◌) refl
]

-- An entry that the loop goes through is a plain map, which may be nil.
abbrev IsWay : Value → Type 0
IsWay e = IsPlainMap (content e) × (to_mapstr e ≡ ok (content e))

-- The entry where the old value is there.
abbrev entered : Fields → Bytes → Value → Result Error Value
entered f s old = elim (try_to_mapstr old) [
  | some m ↦ ok old
  | none ↦ do let v = mapstr (field alternative_key old end); assign (some f) s v; ok v
]

entered-IsWay :
    (f : Fields) (s : Bytes) (old : Value) {e : Value}
    → IsPlainValue old
    → entered f s old ≡ ok e
    → IsWay e
unfolding contains
entered-IsWay f s (mapstr g) p h = subst IsWay (ok-injective h) (p, refl)
entered-IsWay f s (raw_map g) p h = subst IsWay (ok-injective h) (p, refl)
entered-IsWay f s nil_mapstr p h = subst IsWay (ok-injective h) (tt, refl)
entered-IsWay f s nil_raw_map p h = subst IsWay (ok-injective h) (tt, refl)
entered-IsWay f s _ p h = subst IsWay (ok-injective h) ((refl, p, tt), refl)

enter-IsWay : (f : Fields) (s : Bytes) {e : Value} → IsPlain f → enter (some f) s ≡ ok e → IsWay e
unfolding enter
enter-IsWay f s p h = elim (Option-cases (lookup s f)) [
  | inl gone ↦ subst IsWay (ok-injective (rw (gone, enter) at h)) (tt, refl)
  | inr (old, there) ↦
      entered-IsWay f s old (lookup-IsPlainValue s f p there) (rw (there, enter) at h)
]

-- Whether a walk leads to a map is the same below the entry that the loop goes through.
walk-entered :
    (f : Fields) (s t : Bytes) (rest : List Bytes) (old : Value) {e : Value}
    → entered f s old ≡ ok e
    → leads_to_map (to_mapstr old >>= λ m. walk m (t ∷ rest))
      ≡ leads_to_map (walk (content e) (t ∷ rest))
walk-entered f s t rest (mapstr g) h =
    ap (λ e. leads_to_map (walk (content e) (t ∷ rest))) (ok-injective h)
walk-entered f s t rest (raw_map g) h =
    ap (λ e. leads_to_map (walk (content e) (t ∷ rest))) (ok-injective h)
walk-entered f s t rest nil_mapstr h =
    ap (λ e. leads_to_map (walk (content e) (t ∷ rest))) (ok-injective h)
walk-entered f s t rest nil_raw_map h =
    ap (λ e. leads_to_map (walk (content e) (t ∷ rest))) (ok-injective h)
walk-entered f s t rest old h =
    sym (walk-alone old t rest refl refl)
    ∙ ap (λ e. leads_to_map (walk (content e) (t ∷ rest))) (ok-injective h)

enter-walk :
    (f : Fields) (s t : Bytes) (rest : List Bytes) {e : Value}
    → enter (some f) s ≡ ok e
    → leads_to_map (walk (some f) (s ∷ t ∷ rest)) ≡ leads_to_map (walk (content e) (t ∷ rest))
unfolding enter walk
enter-walk f s t rest h = elim (Option-cases (lookup s f)) [
  | inl gone ↦
      rw (gone, ◌>>=◌)
        (sym (walk-end t rest)
          ∙ ap (λ e. leads_to_map (walk (content e) (t ∷ rest)))
              (ok-injective (rw (gone, enter) at h)))
  | inr (old, there) ↦ rw (there, ◌>>=◌) (walk-entered f s t rest old (rw (there, enter) at h))
]

Stored-none :
    (b : Bool) (t : Bytes) (rest : List Bytes) (v : Value) → Stored b none (t ∷ rest) v → ⊥
unfolding walk
Stored-none false t [] v w = cc
Stored-none true t [] v w = cc
Stored-none false t (u ∷ rest) v w = cc
Stored-none true t (u ∷ rest) v w = cc

-- A value stored below an entry is stored.
through :
    (f : Fields) (s t : Bytes) (rest : List Bytes) (e v : Value) (c x : M)
    → IsPlainMap c
    → to_mapstr e ≡ ok c
    → put_from c t rest v ≡ ok x
    → ((g : Fields)
        → IsPlain g
        → put_from (some g) t rest v ≡ ok x
        → Stored (leads_to_map (walk (some g) (t ∷ rest))) x (t ∷ rest) v)
    → Stored (leads_to_map (walk c (t ∷ rest))) (store (some f) s (with_map e x)) (s ∷ t ∷ rest) v
through f s t rest e v none x plain is below later = absurd (put_from-none t rest v below)
through f s t rest e v (some g) none plain is below later =
    absurd (Stored-none (leads_to_map (walk (some g) (t ∷ rest))) t rest v (later g plain below))
through f s t rest e v (some g) (some y) plain is below later =
    Stored-entry (leads_to_map (walk (some g) (t ∷ rest))) f s t rest e v y is (later g plain below)

Stored-from :
    (rest : List Bytes) (f : Fields) (s : Bytes) (v : Value) {m : M}
    → IsPlain f
    → put_from (some f) s rest v ≡ ok m
    → Stored (leads_to_map (walk (some f) (s ∷ rest))) m (s ∷ rest) v
Stored-from [] f s v p h = Stored-here f s v h
Stored-from (t ∷ rest) f s v {m} p h =
    let (e, way, h₁) =
      >>=-eq-ok (enter (some f) s) _
        (rw (put_from-below f s t rest v (lookup-join s t rest f p)) at h) in
    let (x, below, h₂) = >>=-eq-ok (put_from (content e) t rest v) _ h₁ in
    let (plain, is) = enter-IsWay f s p way in
    subst (λ b. Stored b m (s ∷ t ∷ rest) v) (sym (enter-walk f s t rest way))
      (subst (λ m. Stored (leads_to_map (walk (content e) (t ∷ rest))) m (s ∷ t ∷ rest) v)
        (ok-injective h₂)
        (through f s t rest e v (content e) x plain is below (λ g q w. Stored-from rest g t v q w)))

-- On a map of which no key holds a dot, at any depth, a `Put` of safemapstr that succeeds leaves the
-- value under the key `value` in the map that the pieces of the key led to before, and where they led to no
-- map, it leaves the value where they lead.
pub safe_put-Stored :
    (f : Fields) (key : Bytes) (v : Value) {m : M}
    → IsPlain f
    → safe_put (some f) key v ≡ ok m
    → Stored (leads_to_map (walk (some f) (split b'.' key))) m (split b'.' key) v
unfolding safe_put put_from
safe_put-Stored f key v {m} p h = go (split b'.' key) h
  where
    go :
        (ps : List Bytes)
        → (safe_find_pieces (some f) ps >>= write_at v) ≡ ok m
        → Stored (leads_to_map (walk (some f) ps)) m ps v
    go [] h = cc
    go (s ∷ rest) h = Stored-from rest f s v p h
