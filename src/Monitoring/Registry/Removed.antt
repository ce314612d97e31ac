-- ===== src/Monitoring/Registry/Removed.antt =====
-- `Registry.Remove` of monitoring/registry.go.
use elastic_agent_libs.Prelude.{
  ℕ, Bytes, eq_bytes, eq_bytes_iff, eq_bytes_refl, split, split-ne-nil, Bool, true, false, ◌&&◌,
  Bool-cases, List, [], ◌∷◌, none, some, Option-cases, ok, ok-injective, ◌≡◌, inl, inr, refl, ap,
  sym, ◌∙◌, if◌then◌else◌, arith,
}
use elastic_agent_libs.Monitoring.Options.{Mode}
use elastic_agent_libs.Monitoring.Registry.{
  Var, metric, sub, Registry, Entries, no_entries, entry, entries_of, is_empty, with_entries,
  lookup_entry, insert_entry, erase_entry, find_names, var_of, get, remove_names, remove,
  lookup-erase_entry,
}
use elastic_agent_libs.Monitoring.Registry.Added.{
  entries-with_entries, lookup-inserted, find_names-through,
}
use elastic_agent_libs.Monitoring.Registry.Kept.{
  find_names-beside, find_names-metric, find_names-present, find_names-entry, sub-injective,
  found-not_sub, absent-present, var_in,
}

lookup-erased :
    (r : Registry) (n k : Bytes)
    → lookup_entry k (entries_of (with_entries r (erase_entry n (entries_of r))))
      ≡ (if eq_bytes n k then none else lookup_entry k (entries_of r))
lookup-erased r n k =
    ap (lookup_entry k) (entries-with_entries r (erase_entry n (entries_of r)))
    ∙ lookup-erase_entry n k (entries_of r)

-- Nothing is found below a name without an entry.
absent-find_names :
    (r : Registry) (n : Bytes) (rest : List Bytes)
    → lookup_entry n (entries_of r) ≡ none
    → var_of (find_names r (n ∷ rest)) ≡ none
unfolding find_names
absent-find_names r n [] h = ap (λ o. var_of (ok o)) h
absent-find_names r n (t ∷ rest) h = rw (h, find_names) refl

find_names-erased :
    (r : Registry) (n : Bytes) (rest : List Bytes)
    → var_of (find_names (with_entries r (erase_entry n (entries_of r))) (n ∷ rest)) ≡ none
find_names-erased r n rest =
    absent-find_names (with_entries r (erase_entry n (entries_of r))) n rest
      (lookup-erased r n n ∙ rw (eq_bytes_refl n) refl)

remove_names-gone :
    (n : Bytes) (rest : List Bytes) (r : Registry)
    → var_of (find_names (remove_names (n ∷ rest) r) (n ∷ rest)) ≡ none
unfolding remove_names find_names
remove_names-gone n [] r = find_names-erased r n []
remove_names-gone n (t ∷ rest) r = elim (Option-cases (lookup_entry n (entries_of r))) [
  | inl absent ↦ rw (absent, remove_names) (absent-find_names r n (t ∷ rest) absent)
  | inr ((metric i, m), there) ↦ rw (there, remove_names) (rw (there, find_names) refl)
  | inr ((sub s, m), there) ↦
      elim (Bool-cases (is_empty (entries_of (remove_names (t ∷ rest) s)))) [
        | inl empty ↦ rw (there, remove_names) (rw empty (find_names-erased r n (t ∷ rest)))
        | inr filled ↦
            rw (there, remove_names)
              (rw filled (
                ap var_of (
                  find_names-through
                    (with_entries r
                      (insert_entry n (sub (remove_names (t ∷ rest) s)) m (entries_of r)))
                    (remove_names (t ∷ rest) s) n t rest m
                    (lookup-inserted r n (sub (remove_names (t ∷ rest) s)) m))
                ∙ remove_names-gone t rest s))
      ]
]

-- After `Remove` of a name `Get` of that name returns nil.
pub get-remove : (r : Registry) (name : Bytes) → get (remove r name) name ≡ none
unfolding get remove
get-remove r name = gone (split b'.' name) (split-ne-nil b'.' name)
  where
    gone :
        (names : List Bytes)
        → (names ≡ [] → ⊥)
        → var_of (find_names (remove_names names r) names) ≡ none
    gone [] some_name = absurd (some_name refl)
    gone (n ∷ rest) some_name = remove_names-gone n rest r

-- The first list is the beginning of the second one.
unfoldable pub begins : List Bytes → List Bytes → Bool
begins [] q = true
begins (n ∷ names) [] = false
begins (n ∷ names) (k ∷ q) = eq_bytes n k && begins names q

empty-lookup : (es : Entries) (k : Bytes) → is_empty es ≡ true → lookup_entry k es ≡ none
unfolding lookup_entry
empty-lookup no_entries k h = refl
empty-lookup (entry n v m es) k h = cc h

find_names-beside_erased :
    (r : Registry) (n k : Bytes) (q : List Bytes)
    → eq_bytes n k ≡ false
    → find_names (with_entries r (erase_entry n (entries_of r))) (k ∷ q) ≡ find_names r (k ∷ q)
find_names-beside_erased r n k q other =
    find_names-entry (with_entries r (erase_entry n (entries_of r))) r k q
      (lookup-erased r n k ∙ rw other refl)

-- What the removal below an entry leaves of the other names.
removed-beside :
    (r s : Registry) (n t k : Bytes) (rest q : List Bytes) (m : Mode)
    → lookup_entry n (entries_of r) ≡ some (sub s, m)
    → eq_bytes n k ≡ false
    → find_names (remove_names (n ∷ t ∷ rest) r) (k ∷ q) ≡ find_names r (k ∷ q)
unfolding remove_names
removed-beside r s n t k rest q m there other =
    elim (Bool-cases (is_empty (entries_of (remove_names (t ∷ rest) s)))) [
      | inl empty ↦ rw (there, remove_names) (rw empty (find_names-beside_erased r n k q other))
      | inr filled ↦
          rw (there, remove_names)
            (rw filled (find_names-beside r n k (sub (remove_names (t ∷ rest) s)) m q other))
    ]

removed-below :
    (r s : Registry) (n t u : Bytes) (rest q : List Bytes) (m : Mode) {e : Var × Mode}
    → lookup_entry n (entries_of r) ≡ some (sub s, m)
    → find_names (remove_names (t ∷ rest) s) (u ∷ q) ≡ ok (some e)
    → find_names (remove_names (n ∷ t ∷ rest) r) (n ∷ u ∷ q) ≡ ok (some e)
unfolding remove_names
removed-below r s n t u rest q m there found =
    elim (Bool-cases (is_empty (entries_of (remove_names (t ∷ rest) s)))) [
      | inl empty ↦
          let (w, present) = find_names-present (remove_names (t ∷ rest) s) u q found in
          absurd
            (absent-present (empty-lookup (entries_of (remove_names (t ∷ rest) s)) u empty) present)
      | inr filled ↦
          rw (there, remove_names)
            (rw filled (
              find_names-through
                (with_entries r (insert_entry n (sub (remove_names (t ∷ rest) s)) m (entries_of r)))
                (remove_names (t ∷ rest) s) n u q m
                (lookup-inserted r n (sub (remove_names (t ∷ rest) s)) m)
              ∙ found))
    ]

remove_names-keeps :
    (names q : List Bytes) (r : Registry) {i : ℕ} {l : Mode}
    → find_names r q ≡ ok (some (metric i, l))
    → begins names q ≡ false
    → find_names (remove_names names r) q ≡ ok (some (metric i, l))
unfolding begins remove_names find_names
remove_names-keeps [] q r found apart = cc apart
remove_names-keeps (n ∷ names) [] r found apart = absurd (found-not_sub (ok-injective found))
remove_names-keeps (n ∷ []) (k ∷ q) r found apart =
    find_names-beside_erased r n k q (ground arith) ∙ found
remove_names-keeps (n ∷ t ∷ rest) (k ∷ []) r found apart =
    elim (Option-cases (lookup_entry n (entries_of r))) [
      | inl absent ↦ rw (absent, remove_names) found
      | inr ((metric i, m), there) ↦ rw (there, remove_names) found
      | inr ((sub s, m), there) ↦ elim (Bool-cases (eq_bytes n k)) [
        | inl same ↦ absurd (
            found-not_sub (
              sym there
              ∙ ap (λ z. lookup_entry z (entries_of r)) ((eq_bytes_iff n k).0 same)
              ∙ ok-injective found))
        | inr other ↦ removed-beside r s n t k rest [] m there other ∙ found
      ]
    ]
remove_names-keeps (n ∷ t ∷ rest) (k ∷ u ∷ q) r {i = i} {l = l} found apart =
    elim (Option-cases (lookup_entry n (entries_of r))) [
      | inl absent ↦ rw (absent, remove_names) found
      | inr ((metric j, m), there) ↦ rw (there, remove_names) found
      | inr ((sub s, m), there) ↦ elim (Bool-cases (eq_bytes n k)) [
        | inr other ↦ removed-beside r s n t k rest (u ∷ q) m there other ∙ found
        | inl same ↦
            let e : n ≡ k = (eq_bytes_iff n k).0 same in
            let (s', m', there', below) = find_names-metric r k u q found in
            let is_sub =
              sub-injective (
                ap var_in (sym there' ∙ ap (λ z. lookup_entry z (entries_of r)) (sym e) ∙ there)) in
            let later =
              remove_names-keeps (t ∷ rest) (u ∷ q) s
                (ap (λ z. find_names z (u ∷ q)) (sym is_sub) ∙ below) (rw same at apart) in
            ap (λ z. find_names (remove_names (n ∷ t ∷ rest) r) (z ∷ u ∷ q)) (sym e)
            ∙ removed-below r s n t u rest q m there later
      ]
    ]

-- `Remove` loses no metric whose name does not begin with the name removed.
pub find-remove_kept :
    (r : Registry) (name other : Bytes) {i : ℕ} {l : Mode}
    → find_names r (split b'.' other) ≡ ok (some (metric i, l))
    → begins (split b'.' name) (split b'.' other) ≡ false
    → find_names (remove r name) (split b'.' other) ≡ ok (some (metric i, l))
unfolding remove
find-remove_kept r name other found apart =
    remove_names-keeps (split b'.' name) (split b'.' other) r found apart
