-- ===== src/Monitoring/Registry/Kept.antt =====
-- The other metrics of a registry after `Registry.Add` of monitoring/registry.go.
use elastic_agent_libs.Prelude.{
  ℕ, Bytes, eq_bytes, eq_bytes_iff, split, false, Bool-cases, List, [], ◌∷◌, Option, none, some,
  Option-cases, ok, ok-injective, ◌≡◌, inl, inr, refl, ap, sym, ◌∙◌,
}
use elastic_agent_libs.Monitoring.Options.{Mode, Options}
use elastic_agent_libs.Monitoring.Registry.{
  Var, metric, sub, Registry, entries_of, with_entries, lookup_entry, insert_entry, find_names,
  add_names, add_opts, add, lookup-insert_entry,
}
use elastic_agent_libs.Monitoring.Registry.Added.{
  entries-with_entries, lookup-inserted, find_names-through, add_names-last, add_names-AddsBelow,
}

-- Registries with the same entry under a name are searched alike below it.
pub find_names-entry :
    (a b : Registry) (k : Bytes) (q : List Bytes)
    → lookup_entry k (entries_of a) ≡ lookup_entry k (entries_of b)
    → find_names a (k ∷ q) ≡ find_names b (k ∷ q)
unfolding find_names
find_names-entry a b k [] e = ap ok e
find_names-entry a b k (t ∷ q) e = rw (e, find_names) refl

-- The search for a name that begins elsewhere.
pub find_names-beside :
    (r : Registry) (n k : Bytes) (v : Var) (m : Mode) (q : List Bytes)
    → eq_bytes n k ≡ false
    → find_names (with_entries r (insert_entry n v m (entries_of r))) (k ∷ q) ≡ find_names r (k ∷ q)
find_names-beside r n k v m q other =
    find_names-entry (with_entries r (insert_entry n v m (entries_of r))) r k q (
      ap (lookup_entry k) (entries-with_entries r (insert_entry n v m (entries_of r)))
      ∙ lookup-insert_entry n k v m (entries_of r)
      ∙ rw other refl)

-- What a search that ends at a metric goes through.
pub find_names-metric :
    (r : Registry) (k t : Bytes) (q : List Bytes) {e : Var × Mode}
    → find_names r (k ∷ t ∷ q) ≡ ok (some e)
    → (s : Registry) × (m : Mode) × (lookup_entry k (entries_of r) ≡ some (sub s, m))
      × (find_names s (t ∷ q) ≡ ok (some e))
unfolding find_names
find_names-metric r k t q h = elim (Option-cases (lookup_entry k (entries_of r))) [
  | inl absent ↦ cc (rw (absent, find_names) at h)
  | inr ((metric i, m), there) ↦ cc (rw (there, find_names) at h)
  | inr ((sub s, m), there) ↦ (s, m, there, rw (there, find_names) at h)
]

pub find_names-present :
    (r : Registry) (k : Bytes) (q : List Bytes) {e : Var × Mode}
    → find_names r (k ∷ q) ≡ ok (some e)
    → (w : Var × Mode) × (lookup_entry k (entries_of r) ≡ some w)
find_names-present r k [] {e} h = unfold find_names in (e, ok-injective h)
find_names-present r k (t ∷ q) h =
    let (s, m, there, below) = find_names-metric r k t q h in ((sub s, m), there)

abbrev pub var_in : Option (Var × Mode) → Var
var_in none = metric 0
var_in (some e) = e.0

pub not_sub : {s : Registry} {i : ℕ} → sub s ≡ metric i → ⊥
not_sub h = cc h

pub found-not_sub :
    {s : Registry} {i : ℕ} {l m : Mode}
    → ◌≡◌ {A = Option (Var × Mode)} (some (sub s, l)) (some (metric i, m))
    → ⊥
found-not_sub h = not_sub (ap var_in h)

abbrev registry_in : Registry → Var → Registry
registry_in r (metric i) = r
registry_in r (sub s) = s

pub sub-injective : {s t : Registry} → sub s ≡ sub t → s ≡ t
sub-injective {s} h = ap (registry_in s) h

pub absent-present : {o : Option (Var × Mode)} {e : Var × Mode} → o ≡ none → o ≡ some e → ⊥
absent-present a b = cc (a, b)

add_names-keeps :
    (opts : Options) (v : Var) (names q : List Bytes) (r : Registry) {r' : Registry} {i : ℕ}
    {m : Mode}
    → find_names r q ≡ ok (some (metric i, m))
    → add_names opts v names r ≡ ok r'
    → find_names r' q ≡ ok (some (metric i, m))
add_names-keeps opts v [] q r found h = unfold add_names in cc h
add_names-keeps opts v (n ∷ names) [] r found h =
    unfold find_names in absurd (found-not_sub (ok-injective found))
add_names-keeps opts v (n ∷ []) (k ∷ q) r found h =
    let (absent, result) = add_names-last opts v r n h in
    elim (Bool-cases (eq_bytes n k)) [
      | inl same ↦
          let (w, there) = find_names-present r k q found in
          absurd (
            absent-present absent
              (ap (λ z. lookup_entry z (entries_of r)) ((eq_bytes_iff n k).0 same) ∙ there))
      | inr other ↦
          ap (λ s. find_names s (k ∷ q)) result
          ∙ find_names-beside r n k v opts.mode q other
          ∙ found
    ]
add_names-keeps opts v (n ∷ t ∷ names) (k ∷ []) r {i = i} {m = m} found h =
    let d = add_names-AddsBelow opts v r n t names h in
    elim (Bool-cases (eq_bytes n k)) [
      | inl same ↦
          let there : lookup_entry k (entries_of r) ≡ some (metric i, m) =
            unfold find_names in ok-injective found in
          absurd (
            not_sub (
              sym (
                d.from m (metric i) (
                  sym d.is_was
                  ∙ ap (λ z. lookup_entry z (entries_of r)) ((eq_bytes_iff n k).0 same)
                  ∙ there))))
      | inr other ↦
          ap (λ s. find_names s (k ∷ [])) d.result
          ∙ find_names-beside r n k (sub d.below') d.mode [] other
          ∙ found
    ]
add_names-keeps opts v (n ∷ t ∷ names) (k ∷ u ∷ q) r found h =
    let d = add_names-AddsBelow opts v r n t names h in
    elim (Bool-cases (eq_bytes n k)) [
      | inl same ↦
          let e : n ≡ k = (eq_bytes_iff n k).0 same in
          let (s, l, there, below) = find_names-metric r k u q found in
          let is_below =
            sub-injective (
              d.from l (sub s)
                (sym d.is_was ∙ ap (λ z. lookup_entry z (entries_of r)) e ∙ there)) in
          ap (λ s. find_names s (k ∷ u ∷ q)) d.result
          ∙ find_names-through
              (with_entries r (insert_entry n (sub d.below') d.mode (entries_of r))) d.below' k u q
              d.mode
              (ap
                  (λ z. lookup_entry z (
                    entries_of
                      (with_entries r (insert_entry n (sub d.below') d.mode (entries_of r)))))
                  (sym e)
                ∙ lookup-inserted r n (sub d.below') d.mode)
          ∙ add_names-keeps opts v (t ∷ names) (u ∷ q) d.below
              (ap (λ z. find_names z (u ∷ q)) (sym is_below) ∙ below) d.runs
      | inr other ↦
          ap (λ s. find_names s (k ∷ u ∷ q)) d.result
          ∙ find_names-beside r n k (sub d.below') d.mode (u ∷ q) other
          ∙ found
    ]

-- `Add` loses no metric: what a search found before it finds afterwards, with the same mode.
pub find-add_kept :
    (r : Registry) (name : Bytes) (v : Var) (m : Mode) (other : Bytes) {r' : Registry} {i : ℕ}
    {l : Mode}
    → find_names r (split b'.' other) ≡ ok (some (metric i, l))
    → add r name v m ≡ ok r'
    → find_names r' (split b'.' other) ≡ ok (some (metric i, l))
unfolding add
find-add_kept r name v m other found h =
    add_names-keeps (add_opts r m) v (split b'.' name) (split b'.' other) r found h
