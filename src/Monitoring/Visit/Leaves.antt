-- ===== src/Monitoring/Visit/Leaves.antt =====
-- `Do` of monitoring/registry.go against the metrics of the tree with their full names.
use mathlib.Core.List.{append_assoc, append-nil}
use elastic_agent_libs.Prelude.{
  ℕ, Bytes, leb, Bool, true, not, arith, join, Bool-cases, List, [], ◌∷◌, ◌++◌, ok, ◌>>=◌,
  >>=_assoc, if◌then◌else◌, ◌≡◌, inl, inr, refl, ap, sym, ◌∙◌,
}
use elastic_agent_libs.Monitoring.Options.{Mode, mode_number}
use elastic_agent_libs.Monitoring.Registry.{
  Var, metric, sub, Registry, registry, Entries, no_entries, entry,
}
use elastic_agent_libs.Monitoring.Visit.{
  Value, Event, registry_finished, value, is_skipped, visit_var, visit_entries, KeyValueVisitor,
  drop_name, on_event, on_events, do_all,
}

-- A mode reports the metrics of a mode that is at most the given one, and goes through every registry.
abbrev pub is_reported : Mode → Var → Mode → Bool
is_reported mode (metric i) m = leb (mode_number m) (mode_number mode)
is_reported mode (sub r) m = true

pub is_reported-not_skipped :
    (mode : Mode) (v : Var) (m : Mode) → is_reported mode v m ≡ not (is_skipped mode v m)
is_reported-not_skipped mode (metric i) m = ground arith
is_reported-not_skipped mode (sub r) m = refl

module _ (value_of : Mode → ℕ → Value) (mode : Mode) where
  -- The metrics below a path that the mode reports, in the order of the tree.
  abbrev mutual
    pub leaves_var : List Bytes → Var → List (Bytes × Value)
    leaves_var path (metric i) = (join b'.' path, value_of mode i) ∷ []
    leaves_var path (sub r) = leaves path r

    pub leaves : List Bytes → Registry → List (Bytes × Value)
    leaves path (registry name opts es) = leaves_entries path es

    pub leaves_entries : List Bytes → Entries → List (Bytes × Value)
    leaves_entries path no_entries = []
    leaves_entries path (entry k v m es) =
        let rest = leaves_entries path es in
        let this = leaves_var (path ++ k ∷ []) v in
        if is_reported mode v m then this ++ rest else rest

drop_name-append : (names : List Bytes) (k : Bytes) → drop_name (names ++ k ∷ []) ≡ ok names
drop_name-append [] k = refl
drop_name-append (n ∷ []) k = refl
drop_name-append (n ∷ t ∷ names) k = rw (drop_name-append (t ∷ names) k, ◌>>=◌) refl

on_events-append :
    (a b : List Event) (vs : KeyValueVisitor)
    → on_events (a ++ b) vs ≡ (on_events a vs >>= on_events b)
unfolding on_events
on_events-append [] b vs = refl
on_events-append (e ∷ a) b vs =
    ap (λ f. on_event e vs >>= f) (λ i w. on_events-append a b w i)
    ∙ sym (>>=_assoc (on_event e vs) (on_events a) (on_events b))

on_finish :
    (names : List Bytes) (k : Bytes) (calls : List (Bytes × Value))
    → on_event registry_finished (record { level = names ++ k ∷ []; calls = calls })
      ≡ ok (record { level = names; calls = calls })
unfolding on_event
on_finish [] k calls = refl
on_finish (n ∷ names) k calls = rw (drop_name-append (n ∷ names) k, ◌>>=◌) refl

module _ (visit_metric : Mode → ℕ → List Event) (value_of : Mode → ℕ → Value) (mode : Mode)
    (reports : (i : ℕ) → visit_metric mode i ≡ value (value_of mode i) ∷ []) where
  mutual
    unfolding on_events on_event

    var-leaves :
        (v : Var) (path : List Bytes) (k : Bytes) (calls : List (Bytes × Value))
        → on_events
            (visit_var visit_metric mode v)
            (record { level = path ++ k ∷ []; calls = calls })
          ≡ ok (record {
            level = path;
            calls = calls ++ leaves_var value_of mode (path ++ k ∷ []) v;
          })
    var-leaves (metric i) path k calls = rw (reports i) (rw (drop_name-append path k, ◌>>=◌) refl)
    var-leaves (sub (registry name opts es)) path k calls =
        on_events-append (visit_entries visit_metric mode es) (registry_finished ∷ [])
          (record { level = path ++ k ∷ []; calls = calls })
        ∙ rw (entries-leaves es (path ++ k ∷ []) calls, ◌>>=◌)
            (rw
              (on_finish path k (calls ++ leaves_entries value_of mode (path ++ k ∷ []) es), ◌>>=◌)
              refl)

    entries-leaves :
        (es : Entries) (path : List Bytes) (calls : List (Bytes × Value))
        → on_events (visit_entries visit_metric mode es) (record { level = path; calls = calls })
          ≡ ok (record { level = path; calls = calls ++ leaves_entries value_of mode path es })
    entries-leaves no_entries path calls =
        ap (λ c. ok (record { level = path; calls = c })) (sym (append-nil calls))
    entries-leaves (entry k v m es) path calls = elim (Bool-cases (is_skipped mode v m)) [
      | inl skip ↦
          rw (skip, is_reported-not_skipped mode v m ∙ ap not skip) (entries-leaves es path calls)
      | inr visit ↦
          rw (visit, is_reported-not_skipped mode v m ∙ ap not visit)
            (on_events-append (visit_var visit_metric mode v) (visit_entries visit_metric mode es)
                (record { level = path ++ k ∷ []; calls = calls })
              ∙ rw (var-leaves v path k calls, ◌>>=◌)
                  (entries-leaves es path (calls ++ leaves_var value_of mode (path ++ k ∷ []) v)
                    ∙ ap (λ c. ok (record { level = path; calls = c }))
                        (append_assoc calls (leaves_var value_of mode (path ++ k ∷ []) v)
                          (leaves_entries value_of mode path es))))
    ]

-- Where every metric reports one value, `Do` does not panic, and calls the function with the metrics
-- of the tree whose mode is at most the given one, each once and in the order of the tree, under the names on
-- the way to it joined by dots. A registry is gone through whatever its mode is.
pub do_all-leaves :
    (visit_metric : Mode → ℕ → List Event) (value_of : Mode → ℕ → Value) (mode : Mode)
    (r : Registry)
    → ((i : ℕ) → visit_metric mode i ≡ value (value_of mode i) ∷ [])
    → do_all visit_metric mode r ≡ ok (leaves value_of mode [] r)
unfolding do_all on_events on_event
do_all-leaves visit_metric value_of mode (registry name opts es) reports =
    rw
      (
        on_events-append (visit_entries visit_metric mode es) (registry_finished ∷ [])
            (record { level = []; calls = [] }),
        entries-leaves visit_metric value_of mode reports es [] [],
      )
      refl
