-- ===== src/Tests/Registries.antt =====
-- monitoring on a small registry.
use mathlib.Core.List.{Mem}
use elastic_agent_libs.Prelude.{
  ℕ, Bytes, codes, split, eq_bytes, false, List, [], ◌∷◌, some, none, ok, err, ◌≡◌, ◌↔◌, refl,
}
use elastic_agent_libs.Monitoring.Options.{Mode, reported, full, default_options, report}
use elastic_agent_libs.Monitoring.Registry.{
  metric, sub, Registry, registry, no_entries, entry, lookup_entry, insert_entry, already_used,
  invalid_name, find_names, get, add_names, add, new_registry_chain, get_or_create_names,
  get_or_create_registry, remove,
}
use elastic_agent_libs.Monitoring.Registry.Free.{FindsNothing, add-FindsNothing}
use elastic_agent_libs.Monitoring.Registry.Added.{find-add}
use elastic_agent_libs.Monitoring.Registry.Kept.{find-add_kept}
use elastic_agent_libs.Monitoring.Registry.Removed.{begins, get-remove, find-remove_kept}
use elastic_agent_libs.Monitoring.Registry.Created.{created_again}
use elastic_agent_libs.Monitoring.Visit.{Value, int, Event, value, do_all}
use elastic_agent_libs.Monitoring.Visit.Leaves.{leaves, do_all-leaves}
use elastic_agent_libs.Monitoring.Visit.Reported.{do_all-found}

-- `a.b` and `c`.
abbrev stats : Registry
stats = registry [] default_options (
    entry (codes "a")
      (sub (registry [] default_options (entry (codes "b") (metric 1) full no_entries))) full
      (entry (codes "c") (metric 2) reported no_entries))

abbrev more_stats : Registry
more_stats = registry [] default_options (
    entry (codes "a")
      (sub (
        registry [] default_options
          (entry (codes "b") (metric 1) full (entry (codes "d") (metric 3) full no_entries))))
      full (entry (codes "c") (metric 2) reported no_entries))

add-stats : add stats (codes "a.d") (metric 3) full ≡ ok more_stats
unfolding add add_names lookup_entry insert_entry split eq_bytes
add-stats = refl

add-used : add stats (codes "c.d") (metric 3) full ≡ err (already_used (codes "c"))
unfolding add add_names lookup_entry insert_entry split eq_bytes
add-used = refl

found_b : find_names stats (split b'.' (codes "a.b")) ≡ ok (some (metric 1, full))
unfolding find_names lookup_entry split eq_bytes
found_b = refl

found_c : find_names stats (split b'.' (codes "c")) ≡ ok (some (metric 2, reported))
unfolding find_names lookup_entry split eq_bytes
found_c = refl

apart : begins (split b'.' (codes "a.b")) (split b'.' (codes "c")) ≡ false
unfolding begins split eq_bytes
apart = refl

find-add_example : find_names more_stats (split b'.' (codes "a.d")) ≡ ok (some (metric 3, full))
find-add_example = find-add stats (codes "a.d") (metric 3) full add-stats

find-add_kept_example :
    find_names more_stats (split b'.' (codes "a.b")) ≡ ok (some (metric 1, full))
find-add_kept_example =
    find-add_kept stats (codes "a.d") (metric 3) full (codes "a.b") found_b add-stats

get-remove_example : get (remove stats (codes "a.b")) (codes "a.b") ≡ none
get-remove_example = get-remove stats (codes "a.b")

find-remove_kept_example :
    find_names (remove stats (codes "a.b")) (split b'.' (codes "c"))
    ≡ ok (some (metric 2, reported))
find-remove_kept_example = find-remove_kept stats (codes "a.b") (codes "c") found_c apart

-- What `GetOrCreateRegistry` of `e` returns.
abbrev created : Registry
created = registry (codes "e") (report default_options) no_entries

creates_e : (get_or_create_registry stats (codes "e") (report ∷ [])).1 ≡ some created
unfolding get_or_create_registry get_or_create_names new_registry_chain lookup_entry insert_entry
    split eq_bytes
creates_e = refl

created_again_example :
    get_or_create_registry (get_or_create_registry stats (codes "e") (report ∷ [])).0 (codes "e") []
    ≡ ((get_or_create_registry stats (codes "e") (report ∷ [])).0, some created)
created_again_example = created_again stats (codes "e") (report ∷ []) [] creates_e

abbrev number : Mode → ℕ → Value
number mode i = int i

abbrev visit_number : Mode → ℕ → List Event
visit_number mode i = value (int i) ∷ []

-- `a` is a registry, so that `a.b.c` would have to go through the metric `a.b`.
add-FindsNothing_example :
    ((r' : Registry) × (add stats (codes "a.b.c") (metric 3) full ≡ ok r'))
    ↔ FindsNothing (find_names stats (split b'.' (codes "a.b.c")))
add-FindsNothing_example = add-FindsNothing stats (codes "a.b.c") (metric 3) full

add_below-metric : find_names stats (split b'.' (codes "a.b.c")) ≡ err invalid_name
unfolding find_names lookup_entry split eq_bytes
add_below-metric = refl

do_all-leaves_example : do_all visit_number reported stats ≡ ok (leaves number reported [] stats)
do_all-leaves_example = do_all-leaves visit_number number reported stats (λ i. refl)

do_all-found_example :
    (calls : List (Bytes × Value)) × (do_all visit_number full stats ≡ ok calls)
    × Mem (codes "a.b", int 1) calls
do_all-found_example =
    do_all-found visit_number number full stats (codes "a.b") (λ i. refl) found_b refl
