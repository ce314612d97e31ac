-- ===== src/Monitoring/Registry/Added.antt =====
-- `Registry.Add` of monitoring/registry.go followed by a search for the name.
use elastic_agent_libs.Prelude.{
  Bytes, eq_bytes_refl, split, true, Bool-cases, List, [], ◌∷◌, Option, none, some, Option-cases,
  ok, >>=-eq-ok, ok-injective, ◌≡◌, inl, inr, refl, ap, sym, ◌∙◌, ◌==◌,
}
use elastic_agent_libs.Monitoring.Options.{Mode, reported, full, mode_number, Options}
use elastic_agent_libs.Monitoring.Registry.{
  Var, metric, sub, Registry, registry, Entries, no_entries, entries_of, opts_of, with_entries,
  lookup_entry, insert_entry, find_names, add_names, add_opts, add, lookup-insert_entry,
}

pub entries-with_entries : (r : Registry) (es : Entries) → entries_of (with_entries r es) ≡ es
entries-with_entries (registry name opts fs) es = refl

-- The entry that was inserted.
pub lookup-inserted :
    (r : Registry) (n : Bytes) (v : Var) (m : Mode)
    → lookup_entry n (entries_of (with_entries r (insert_entry n v m (entries_of r)))) ≡ some (v, m)
lookup-inserted r n v m =
    ap (lookup_entry n) (entries-with_entries r (insert_entry n v m (entries_of r)))
    ∙ lookup-insert_entry n n v m (entries_of r)
    ∙ rw (eq_bytes_refl n) refl

-- A search that goes through the entry of a registry.
pub find_names-through :
    (r s : Registry) (n t : Bytes) (rest : List Bytes) (m : Mode)
    → lookup_entry n (entries_of r) ≡ some (sub s, m)
    → find_names r (n ∷ t ∷ rest) ≡ find_names s (t ∷ rest)
unfolding find_names
find_names-through r s n t rest m h = rw (h, find_names) refl

pub find_names-last :
    (r : Registry) (n : Bytes) {e : Var × Mode}
    → lookup_entry n (entries_of r) ≡ some e
    → find_names r (n ∷ []) ≡ ok (some e)
unfolding find_names
find_names-last r n h = ap ok h

-- What an addition below the first level has done.
pub record AddsBelow (opts : Options) (v : Var) (r : Registry) (n : Bytes) (names : List Bytes)
    (r' : Registry) : Type 0 where
  pub below : Registry
  pub below' : Registry
  pub mode : Mode
  pub was : Option (Var × Mode)
  pub is_was : lookup_entry n (entries_of r) ≡ was
  pub from : (m : Mode) (w : Var) → was ≡ some (w, m) → w ≡ sub below
  pub runs : add_names opts v names below ≡ ok below'
  pub result : r' ≡ with_entries r (insert_entry n (sub below') mode (entries_of r))

var_same :
    {v w : Var} {m l : Mode} → ◌≡◌ {A = Option (Var × Mode)} (some (v, m)) (some (w, l)) → v ≡ w
var_same {v} h = ap (λ o. elim o [ some e ↦ e.0 | none ↦ v ]) h

pub add_names-AddsBelow :
    (opts : Options) (v : Var) (r : Registry) (n t : Bytes) (rest : List Bytes) {r' : Registry}
    → add_names opts v (n ∷ t ∷ rest) r ≡ ok r'
    → AddsBelow opts v r n (t ∷ rest) r'
unfolding add_names
add_names-AddsBelow opts v r n t rest h = elim (Option-cases (lookup_entry n (entries_of r))) [
  | inl absent ↦
      let (s', runs, end_here) =
        >>=-eq-ok (add_names opts v (t ∷ rest) (registry [] opts no_entries)) _
          (rw (absent, add_names) at h) in
      record {
        below = registry [] opts no_entries;
        below' = s';
        mode = opts.mode;
        was = none;
        is_was = absent;
        from = λ m w e. cc;
        runs = runs;
        result = sym (ok-injective end_here);
      }
  | inr ((metric i, m), there) ↦ cc (rw (there, add_names) at h)
  | inr ((sub s, m), there) ↦
      let (s', runs, end_here) =
        >>=-eq-ok (add_names opts v (t ∷ rest) s) _ (rw (there, add_names) at h) in
      record {
        below = s;
        below' = s';
        mode = m;
        was = some (sub s, m);
        is_was = there;
        from = λ l w e. sym (var_same e);
        runs = runs;
        result = sym (ok-injective end_here);
      }
]

pub add_names-last :
    (opts : Options) (v : Var) (r : Registry) (n : Bytes) {r' : Registry}
    → add_names opts v (n ∷ []) r ≡ ok r'
    → (lookup_entry n (entries_of r) ≡ none)
      × (r' ≡ with_entries r (insert_entry n v opts.mode (entries_of r)))
unfolding add_names
add_names-last opts v r n h = elim (Option-cases (lookup_entry n (entries_of r))) [
  | inl absent ↦ (absent, sym (ok-injective (rw (absent, add_names) at h)))
  | inr (e, there) ↦ cc (rw (there, add_names) at h)
]

find-add_names :
    (opts : Options) (v : Var) (names : List Bytes) (r : Registry) {r' : Registry}
    → add_names opts v names r ≡ ok r'
    → find_names r' names ≡ ok (some (v, opts.mode))
find-add_names opts v [] r h = unfold add_names in cc h
find-add_names opts v (n ∷ []) r h =
    ap (λ s. find_names s (n ∷ [])) (add_names-last opts v r n h).1
    ∙ find_names-last (with_entries r (insert_entry n v opts.mode (entries_of r))) n
        (lookup-inserted r n v opts.mode)
find-add_names opts v (n ∷ t ∷ rest) r h =
    let d = add_names-AddsBelow opts v r n t rest h in
    ap (λ s. find_names s (n ∷ t ∷ rest)) d.result
    ∙ find_names-through _ d.below' n t rest d.mode (lookup-inserted r n (sub d.below') d.mode)
    ∙ find-add_names opts v (t ∷ rest) d.below d.runs

add_opts-mode : (r : Registry) (m : Mode) → (add_opts r m).mode ≡ m
add_opts-mode r m = elim (Bool-cases (mode_number m == mode_number (opts_of r).mode)) [
  | inl same ↦ rw same (equal (opts_of r).mode m same)
  | inr other ↦ rw other refl
]
  where
    equal : (a b : Mode) → (mode_number b == mode_number a) ≡ true → a ≡ b
    equal reported reported e = refl
    equal full full e = refl
    equal reported full e = cc e
    equal full reported e = cc e

-- A variable that `Add` has added is found under its name, with its mode.
pub find-add :
    (r : Registry) (name : Bytes) (v : Var) (m : Mode) {r' : Registry}
    → add r name v m ≡ ok r'
    → find_names r' (split b'.' name) ≡ ok (some (v, m))
unfolding add
find-add r name v m h =
    find-add_names (add_opts r m) v (split b'.' name) r h
    ∙ ap (λ z. ok (some (v, z))) (add_opts-mode r m)
