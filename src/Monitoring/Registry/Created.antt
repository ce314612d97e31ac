-- ===== src/Monitoring/Registry/Created.antt =====
-- `GetOrCreateRegistry` of monitoring/registry.go.
use elastic_agent_libs.Prelude.{
  Bytes, eq_bytes, split, split-ne-nil, Bool-cases, List, [], ◌∷◌, Option, none, some, some_inj,
  Option-cases, ok, ◌≡◌, inl, inr, refl, ap, sym, ◌∙◌,
}
use elastic_agent_libs.Monitoring.Options.{Mode, Options, apply_opts}
use elastic_agent_libs.Monitoring.Registry.{
  Var, metric, sub, Registry, registry, Entries, no_entries, entry, entries_of, opts_of, full_name,
  with_entries, lookup_entry, insert_entry, find_names, get, get_registry, var_of, registry_of,
  new_registry_chain, get_or_create_names, get_or_create_registry,
}
use elastic_agent_libs.Monitoring.Registry.Added.{
  lookup-inserted, find_names-through, find_names-last,
}

abbrev Finds : Registry → List Bytes → Registry → Type 0
Finds r names s = registry_of (var_of (find_names r names)) ≡ some s

chain-Finds :
    (rest : List Bytes) (n : Bytes) (opts : Options) (r : Registry)
    → Finds
        (new_registry_chain (n ∷ rest) opts r).0
        (n ∷ rest)
        (new_registry_chain (n ∷ rest) opts r).1
unfolding new_registry_chain
chain-Finds [] n opts r =
    ap (λ z. registry_of (var_of z))
      (find_names-last
        (with_entries r (
          insert_entry n (sub (registry (full_name r n) opts no_entries)) opts.mode (entries_of r)))
        n (lookup-inserted r n (sub (registry (full_name r n) opts no_entries)) opts.mode))
chain-Finds (t ∷ rest) n opts r =
    let below = new_registry_chain (t ∷ rest) opts (registry (full_name r n) opts no_entries) in
    ap (λ z. registry_of (var_of z))
      (find_names-through (with_entries r (insert_entry n (sub below.0) opts.mode (entries_of r)))
        below.0 n t rest opts.mode (lookup-inserted r n (sub below.0) opts.mode))
    ∙ chain-Finds rest t opts (registry (full_name r n) opts no_entries)

created-Finds :
    (rest : List Bytes) (n : Bytes) (opts : List (Options → Options)) (r : Registry) {s : Registry}
    → (get_or_create_names opts (n ∷ rest) r).1 ≡ some s
    → Finds (get_or_create_names opts (n ∷ rest) r).0 (n ∷ rest) s
unfolding get_or_create_names
created-Finds [] n opts r {s} h = elim (Option-cases (lookup_entry n (entries_of r))) [
  | inl absent ↦
      rw (absent, get_or_create_names)
        (chain-Finds [] n (apply_opts (some (opts_of r)) opts) r
          ∙ (rw (absent, get_or_create_names) at h))
  | inr ((metric i, m), there) ↦ cc (rw (there, get_or_create_names) at h)
  | inr ((sub u, m), there) ↦
      rw (there, get_or_create_names)
        (ap (λ z. registry_of (var_of z))
            (find_names-last (with_entries r (insert_entry n (sub u) m (entries_of r))) n
              (lookup-inserted r n (sub u) m))
          ∙ (rw (there, get_or_create_names) at h))
]
created-Finds (t ∷ rest) n opts r {s} h = elim (Option-cases (lookup_entry n (entries_of r))) [
  | inl absent ↦
      rw (absent, get_or_create_names)
        (chain-Finds (t ∷ rest) n (apply_opts (some (opts_of r)) opts) r
          ∙ (rw (absent, get_or_create_names) at h))
  | inr ((metric i, m), there) ↦ cc (rw (there, get_or_create_names) at h)
  | inr ((sub u, m), there) ↦
      let below = get_or_create_names opts (t ∷ rest) u in
      rw (there, get_or_create_names)
        (ap (λ z. registry_of (var_of z))
            (find_names-through (with_entries r (insert_entry n (sub below.0) m (entries_of r)))
              below.0 n t rest m (lookup-inserted r n (sub below.0) m))
          ∙ created-Finds rest t opts u (rw (there, get_or_create_names) at h))
]

-- The registry that `GetOrCreateRegistry` returns is the one that `GetRegistry` finds afterwards under the
-- name, whether it was there before or not.
pub get_registry-created :
    (r : Registry) (name : Bytes) (opts : List (Options → Options)) {s : Registry}
    → (get_or_create_registry r name opts).1 ≡ some s
    → get_registry (get_or_create_registry r name opts).0 name ≡ some s
unfolding get_or_create_registry get_registry get
get_registry-created r name opts {s} h = finds (split b'.' name) (split-ne-nil b'.' name) h
  where
    finds :
        (names : List Bytes)
        → (names ≡ [] → ⊥)
        → (get_or_create_names opts names r).1 ≡ some s
        → Finds (get_or_create_names opts names r).0 names s
    finds [] some_name e = absurd (some_name refl)
    finds (n ∷ rest) some_name e = created-Finds rest n opts r e

insert-same :
    (n : Bytes) (v : Var) (m : Mode) (es : Entries)
    → lookup_entry n es ≡ some (v, m)
    → insert_entry n v m es ≡ es
unfolding lookup_entry insert_entry
insert-same n v m no_entries h = cc h
insert-same n v m (entry k w l es) h = elim (Bool-cases (eq_bytes k n)) [
  | inl same ↦ rw same (let e = some_inj (rw same at h) in ap (λ z. entry k z.0 z.1 es) (sym e))
  | inr other ↦ rw other (ap (entry k w l) (insert-same n v m es (rw other at h)))
]

with_same : (r : Registry) (es : Entries) → es ≡ entries_of r → with_entries r es ≡ r
with_same (registry name opts fs) es e = ap (registry name opts) e

is_registry :
    (o : Option (Var × Mode)) {s : Registry}
    → registry_of (var_of (ok o)) ≡ some s
    → (m : Mode) × (o ≡ some (sub s, m))
is_registry none h = cc h
is_registry (some (metric i, m)) h = cc h
is_registry (some (sub s, m)) h = (m, ap (λ u. some (sub u, m)) (some_inj h))

found_again :
    (rest : List Bytes) (n : Bytes) (again : List (Options → Options)) (r : Registry) {s : Registry}
    → Finds r (n ∷ rest) s
    → get_or_create_names again (n ∷ rest) r ≡ (r, some s)
unfolding get_or_create_names find_names
found_again [] n again r {s} h =
    let (m, there) = is_registry (lookup_entry n (entries_of r)) h in
    rw (there, get_or_create_names)
      (ap (λ z. (z, some s))
        (with_same r (insert_entry n (sub s) m (entries_of r))
          (insert-same n (sub s) m (entries_of r) there)))
found_again (t ∷ rest) n again r {s} h = elim (Option-cases (lookup_entry n (entries_of r))) [
  | inl absent ↦ cc (rw (absent, find_names) at h)
  | inr ((metric i, m), there) ↦ cc (rw (there, find_names) at h)
  | inr ((sub u, m), there) ↦
      let below = found_again rest t again u (rw (there, find_names) at h) in
      rw (there, get_or_create_names)
        (rw below (
          ap (λ z. (z, some s))
            (with_same r (insert_entry n (sub u) m (entries_of r))
              (insert-same n (sub u) m (entries_of r) there))))
]

-- A registry that is there is not created again: a second call returns the same one, whatever its options
-- are, and changes nothing.
pub created_again :
    (r : Registry) (name : Bytes) (opts again : List (Options → Options)) {s : Registry}
    → (get_or_create_registry r name opts).1 ≡ some s
    → get_or_create_registry (get_or_create_registry r name opts).0 name again
      ≡ ((get_or_create_registry r name opts).0, some s)
unfolding get_or_create_registry get_registry get
created_again r name opts again {s} h =
    once (split b'.' name) (split-ne-nil b'.' name) (get_registry-created r name opts h)
  where
    once :
        (names : List Bytes)
        → (names ≡ [] → ⊥)
        → Finds (get_or_create_registry r name opts).0 names s
        → get_or_create_names again names (get_or_create_registry r name opts).0
          ≡ ((get_or_create_registry r name opts).0, some s)
    once [] some_name e = absurd (some_name refl)
    once (n ∷ rest) some_name e = found_again rest n again (get_or_create_registry r name opts).0 e
