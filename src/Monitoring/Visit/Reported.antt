-- ===== src/Monitoring/Visit/Reported.antt =====
-- `Do` of monitoring/registry.go against the search for a name.
use mathlib.Core.List.{append_assoc, Mem, mem-cons_self, mem-append_left, mem-append_right}
use mathlib.Core.Path.{subst}
use elastic_agent_libs.Prelude.{
  ℕ, Bytes, eq_bytes, eq_bytes_iff, split, join, join-split, true, false, not, Bool-cases, List, [],
  ◌∷◌, ◌++◌, some, some_inj, ok, ok-injective, ◌≡◌, inl, inr, refl, ap, sym, ◌∙◌,
}
use elastic_agent_libs.Monitoring.Options.{Mode, is_above}
use elastic_agent_libs.Monitoring.Registry.{
  Var, metric, sub, Registry, registry, Entries, no_entries, entry, lookup_entry, find_names,
}
use elastic_agent_libs.Monitoring.Registry.Kept.{find_names-metric, found-not_sub}
use elastic_agent_libs.Monitoring.Visit.{Value, Event, value, do_all}
use elastic_agent_libs.Monitoring.Visit.Leaves.{
  is_reported, is_reported-not_skipped, leaves, leaves_var, leaves_entries, do_all-leaves,
}

module _ (value_of : Mode → ℕ → Value) (mode : Mode) where
  mem-leaves_entries :
      (es : Entries) (k : Bytes) (v : Var) (m : Mode) (path : List Bytes) (x : Bytes × Value)
      → lookup_entry k es ≡ some (v, m)
      → is_reported mode v m ≡ true
      → Mem x (leaves_var value_of mode (path ++ k ∷ []) v)
      → Mem x (leaves_entries value_of mode path es)
  unfolding lookup_entry
  mem-leaves_entries no_entries k v m path x h shown w = cc h
  mem-leaves_entries (entry n u l es) k v m path x h shown w = elim (Bool-cases (eq_bytes n k)) [
    | inl same ↦
        let e = some_inj (rw same at h) in
        let is_u = ap (λ z. z.0) e in
        let is_l = ap (λ z. z.1) e in
        rw (ap (is_reported mode u) is_l ∙ ap (λ z. is_reported mode z m) is_u ∙ shown) (
          mem-append_left (leaves_entries value_of mode path es) (
            subst (λ z. Mem x (leaves_var value_of mode (path ++ z ∷ []) u))
              (sym ((eq_bytes_iff n k).0 same))
              (subst (λ z. Mem x (leaves_var value_of mode (path ++ k ∷ []) z)) (sym is_u) w)))
    | inr other ↦
        let later = mem-leaves_entries es k v m path x (rw other at h) shown w in
        elim (Bool-cases (is_reported mode u l)) [
          | inr skip ↦ rw skip later
          | inl visit ↦
              rw visit (mem-append_right (leaves_var value_of mode (path ++ n ∷ []) u) later)
        ]
  ]

  -- A metric that is found is among the leaves.
  found-leaves :
      (q : List Bytes) (k : Bytes) (r : Registry) (path : List Bytes) {i : ℕ} {m : Mode}
      → find_names r (k ∷ q) ≡ ok (some (metric i, m))
      → is_above m mode ≡ false
      → Mem (join b'.' (path ++ k ∷ q), value_of mode i) (leaves value_of mode path r)
  unfolding find_names
  found-leaves [] k (registry name opts es) path {i} {m} found shown =
      mem-leaves_entries es k (metric i) m path (join b'.' (path ++ k ∷ []), value_of mode i)
        (ok-injective found) (is_reported-not_skipped mode (metric i) m ∙ ap not shown)
        mem-cons_self
  found-leaves (t ∷ q) k (registry name opts es) path {i} {m} found shown =
      let (s, l, there, below) = find_names-metric (registry name opts es) k t q found in
      mem-leaves_entries es k (sub s) l path (join b'.' (path ++ k ∷ t ∷ q), value_of mode i) there
        refl
        (subst (λ z. Mem (join b'.' z, value_of mode i) (leaves value_of mode (path ++ k ∷ []) s))
          (append_assoc path (k ∷ []) (t ∷ q)) (found-leaves q t s (path ++ k ∷ []) below shown))

-- Where every metric reports one value, `Do` reports each metric that a search finds under a name and that
-- the mode reports, under that name and with its value.
pub do_all-found :
    (visit_metric : Mode → ℕ → List Event) (value_of : Mode → ℕ → Value) (mode : Mode)
    (r : Registry) (name : Bytes) {i : ℕ} {m : Mode}
    → ((i : ℕ) → visit_metric mode i ≡ value (value_of mode i) ∷ [])
    → find_names r (split b'.' name) ≡ ok (some (metric i, m))
    → is_above m mode ≡ false
    → (calls : List (Bytes × Value)) × (do_all visit_metric mode r ≡ ok calls)
      × Mem (name, value_of mode i) calls
do_all-found visit_metric value_of mode r name {i} {m} reports found shown = (
  leaves value_of mode [] r,
  do_all-leaves visit_metric value_of mode r reports,
  subst (λ z. Mem (z, value_of mode i) (leaves value_of mode [] r)) (join-split b'.' name)
      (mem_all (split b'.' name) found),
)
  where
    mem_all :
        (q : List Bytes)
        → find_names r q ≡ ok (some (metric i, m))
        → Mem (join b'.' q, value_of mode i) (leaves value_of mode [] r)
    mem_all [] h = unfold find_names in absurd (found-not_sub (ok-injective h))
    mem_all (k ∷ q) h = found-leaves value_of mode q k r [] h shown
