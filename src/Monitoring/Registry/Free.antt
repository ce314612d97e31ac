-- ===== src/Monitoring/Registry/Free.antt =====
-- When `Registry.Add` of monitoring/registry.go panics.
use elastic_agent_libs.Prelude.{
  Bytes, split, split-ne-nil, List, [], ◌∷◌, Option, none, some, Option-cases, Result, ok, err,
  ◌>>=◌, >>=-eq-ok, ◌≡◌, ◌⊎◌, ◌↔◌, inl, inr, refl,
}
use elastic_agent_libs.Monitoring.Options.{Mode, Options}
use elastic_agent_libs.Monitoring.Registry.{
  Var, metric, sub, Registry, registry, RegistryError, not_found, invalid_name, already_used,
  no_entries, entries_of, with_entries, lookup_entry, insert_entry, find_names, add_names, add_opts,
  add,
}

-- A search that finds nothing: no entry with the last name, or none with a name in front of it.
abbrev pub FindsNothing : Result RegistryError (Option (Var × Mode)) → Type 0
FindsNothing found = (found ≡ ok none) ⊎ (found ≡ err not_found)

abbrev Adds : Options → Var → List Bytes → Registry → Type 0
Adds opts v names r = (r' : Registry) × (add_names opts v names r ≡ ok r')

found-FindsNothing : (e : Var × Mode) → FindsNothing (ok (some e)) → ⊥
found-FindsNothing e (inl h) = cc
found-FindsNothing e (inr h) = cc

invalid-FindsNothing : FindsNothing (err invalid_name) → ⊥
invalid-FindsNothing (inl h) = cc
invalid-FindsNothing (inr h) = cc

-- An empty registry takes every name.
fresh-Adds :
    (opts opts' : Options) (v : Var) (n : Bytes) (rest : List Bytes)
    → Adds opts v (n ∷ rest) (registry [] opts' no_entries)
unfolding add_names lookup_entry
fresh-Adds opts opts' v n [] = (registry [] opts' (insert_entry n v opts.mode no_entries), refl)
fresh-Adds opts opts' v n (t ∷ rest) =
    let (s', runs) = fresh-Adds opts opts v t rest in
    (registry [] opts' (insert_entry n (sub s') opts.mode no_entries), rw (runs, ◌>>=◌) refl)

last-FindsNothing :
    (opts : Options) (v : Var) (n : Bytes) (r : Registry)
    → Adds opts v (n ∷ []) r ↔ FindsNothing (find_names r (n ∷ []))
unfolding add_names find_names
last-FindsNothing opts v n r = elim (Option-cases (lookup_entry n (entries_of r))) [
  | inl absent ↦ (
    (λ a. inl (rw (absent, find_names) refl)),
    (λ f.
        (with_entries r (insert_entry n v opts.mode (entries_of r)), rw (absent, add_names) refl)),
  )
  | inr (e, there) ↦ (
    (λ a. absurd (adds-found e a.0 (rw (there, add_names) at a.1))),
    (λ f. absurd (found-FindsNothing e (rw (there, find_names) at f))),
  )
]
  where
    adds-found :
        (e : Var × Mode) (r' : Registry)
        → ◌≡◌ {A = Result RegistryError Registry} (err (already_used n)) (ok r')
        → ⊥
    adds-found e r' h = cc

-- A name goes on below the registry that its first piece has, and is free where that piece has nothing.
Adds-FindsNothing :
    (opts : Options) (v : Var) (n : Bytes) (rest : List Bytes) (r : Registry)
    → Adds opts v (n ∷ rest) r ↔ FindsNothing (find_names r (n ∷ rest))
unfolding add_names find_names
Adds-FindsNothing opts v n [] r = last-FindsNothing opts v n r
Adds-FindsNothing opts v n (t ∷ rest) r = elim (Option-cases (lookup_entry n (entries_of r))) [
  | inl absent ↦ (
    (λ a. inr (rw (absent, find_names) refl)),
    (λ f.
        let (s', runs) = fresh-Adds opts opts v t rest in
        (
          with_entries r (insert_entry n (sub s') opts.mode (entries_of r)),
          rw (absent, add_names) (rw (runs, ◌>>=◌) refl),
        )),
  )
  | inr ((metric i, m), there) ↦ (
    (λ a. cc (rw (there, add_names) at a.1)),
    (λ f. absurd (invalid-FindsNothing (rw (there, find_names) at f))),
  )
  | inr ((sub s, m), there) ↦
      let below = Adds-FindsNothing opts v t rest s in
      (
        (λ a.
            let (s', runs, end_here) =
              >>=-eq-ok (add_names opts v (t ∷ rest) s) _ (rw (there, add_names) at a.1) in
            rw (there, find_names) (below.0 (s', runs))),
        (λ f.
            let (s', runs) = below.1 (rw (there, find_names) at f) in
            (
              with_entries r (insert_entry n (sub s') m (entries_of r)),
              rw (there, add_names) (rw (runs, ◌>>=◌) refl),
            )),
      )
]

-- `Registry.Add` registers a variable, of whatever mode, exactly where a search for the name finds no
-- variable and does not come to a metric before the last piece of the name; else it panics.
pub add-FindsNothing :
    (r : Registry) (name : Bytes) (v : Var) (m : Mode)
    → ((r' : Registry) × (add r name v m ≡ ok r')) ↔ FindsNothing (find_names r (split b'.' name))
unfolding add
add-FindsNothing r name v m = go (split b'.' name) (split-ne-nil b'.' name)
  where
    go :
        (names : List Bytes)
        → (names ≡ [] → ⊥)
        → Adds (add_opts r m) v names r ↔ FindsNothing (find_names r names)
    go [] filled = absurd (filled refl)
    go (n ∷ rest) filled = Adds-FindsNothing (add_opts r m) v n rest r
