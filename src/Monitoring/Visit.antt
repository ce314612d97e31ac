-- ===== src/Monitoring/Visit.antt =====
-- monitoring/registry.go: `doVisit` as the list of the calls of a visitor that it makes, and the visitor of
-- monitoring/visitor_kv.go, which `Do` runs. What the visit of a metric calls is an argument.
pub mod Leaves
pub mod Reported
use elastic_agent_libs.Prelude.{
  ℕ, Bytes, join, Bool, true, false, List, [], ◌∷◌, ◌++◌, Option, none, some, Result, ok, err,
  ◌>>=◌, if◌then◌else◌,
}
use elastic_agent_libs.Monitoring.Options.{Mode, is_above}
use elastic_agent_libs.Monitoring.Registry.{
  Var, metric, sub, Registry, registry, Entries, no_entries, entry,
}

-- The values that a `ValueVisitor` is given.
pub data Value : Type 0 where
  text : Bytes → Value
  bool : Bool → Value
  int : ℕ → Value
  float : ℕ → Value
  strings : List Bytes → Value

-- The calls of a `Visitor`.
pub data Event : Type 0 where
  registry_start registry_finished : Event
  key : Bytes → Event
  value : Value → Event

-- The test of `doVisit` that passes over an entry.
abbrev pub is_skipped : Mode → Var → Mode → Bool
is_skipped mode (metric i) m = is_above m mode
is_skipped mode (sub r) m = false

module _ (visit_metric : Mode → ℕ → List Event) (mode : Mode) where
  abbrev mutual
    pub visit_var : Var → List Event
    visit_var (metric i) = visit_metric mode i
    visit_var (sub r) = do_visit r

    -- `doVisit`.
    pub do_visit : Registry → List Event
    do_visit (registry name opts es) = registry_start ∷ visit_entries es ++ registry_finished ∷ []

    -- Its loop.
    pub visit_entries : Entries → List Event
    visit_entries no_entries = []
    visit_entries (entry k v m es) =
        let rest = visit_entries es in
        let this = visit_var v in if is_skipped mode v m then rest else key k ∷ this ++ rest

-- `KeyValueVisitor`: its level, and the calls of its callback so far.
pub record KeyValueVisitor : Type 0 where
  pub level : List Bytes
  pub calls : List (Bytes × Value)

pub data VisitError : Type 0 where
  -- the panic of a slice of an empty list
  no_level : VisitError

-- `l[:len(l)-1]`.
abbrev pub drop_name : List Bytes → Result VisitError (List Bytes)
drop_name [] = err no_level
drop_name (n ∷ []) = ok []
drop_name (n ∷ t ∷ names) = drop_name (t ∷ names) >>= λ rest. ok (n ∷ rest)

-- The methods of `KeyValueVisitor`.
unfoldable pub on_event : Event → KeyValueVisitor → Result VisitError KeyValueVisitor
on_event registry_start vs = ok vs
on_event registry_finished vs = elim vs.level [
  | [] ↦ ok vs
  | n ∷ names ↦ do level ← drop_name (n ∷ names); ok (record vs { level = level })
]
on_event (key name) vs = ok (record vs { level = vs.level ++ name ∷ [] })
on_event (value v) vs = do
  level ← drop_name vs.level
  ok (record { level = level; calls = vs.calls ++ (join b'.' vs.level, v) ∷ [] })

unfoldable pub on_events : List Event → KeyValueVisitor → Result VisitError KeyValueVisitor
unfolding on_event
on_events [] vs = ok vs
on_events (e ∷ events) vs = on_event e vs >>= on_events events

-- `Registry.Do`: the calls of the function.
unfoldable pub do_all :
    (Mode → ℕ → List Event) → Mode → Registry → Result VisitError (List (Bytes × Value))
unfolding on_events
do_all visit_metric mode r = do
  vs ← on_events (do_visit visit_metric mode r) (record { level = []; calls = [] })
  ok vs.calls
