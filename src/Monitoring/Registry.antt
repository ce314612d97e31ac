-- ===== src/Monitoring/Registry.antt =====
-- monitoring/registry.go: the tree of registries and metrics. An operation that changes a registry
-- returns the changed one; each operation holds the locks on its way down, so that it is one step.
pub mod Free
pub mod Added
pub mod Kept
pub mod Removed
pub mod Created
use elastic_agent_libs.Prelude.{
  ℕ, Bytes, eq_bytes, eq_bytes_iff, split, Bool, true, false, List, [], ◌∷◌, ◌++◌, Option, none,
  some, Result, ok, err, ◌>>=◌, if◌then◌else◌, ◌==◌, ◌≡◌, refl, arith,
}
use elastic_agent_libs.Monitoring.Options.{Mode, mode_number, Options, apply_opts}

mutual
  -- A `Var`: a registry, or a metric, of which only its identity is kept here.
  pub data Var : Type 0 where
    metric : ℕ → Var
    sub : Registry → Var

  -- `Registry`: its name, its options and its entries.
  pub data Registry : Type 0 where
    registry : Bytes → Options → Entries → Registry

  -- The map of the entries, in the order of one iteration.
  pub data Entries : Type 0 where
    no_entries : Entries
    entry : Bytes → Var → Mode → Entries → Entries

abbrev pub name_of : Registry → Bytes
name_of (registry name opts es) = name

abbrev pub opts_of : Registry → Options
opts_of (registry name opts es) = opts

abbrev pub entries_of : Registry → Entries
entries_of (registry name opts es) = es

abbrev pub with_entries : Registry → Entries → Registry
with_entries (registry name opts es) fs = registry name opts fs

-- `r.entries[name]`.
unfoldable pub lookup_entry : Bytes → Entries → Option (Var × Mode)
lookup_entry n no_entries = none
lookup_entry n (entry k v m es) = if eq_bytes k n then some (v, m) else lookup_entry n es

-- `r.entries[name] = entry{v, m}`.
unfoldable pub insert_entry : Bytes → Var → Mode → Entries → Entries
insert_entry n v m no_entries = entry n v m no_entries
insert_entry n v m (entry k w l es) =
    if eq_bytes k n then entry k v m es else entry k w l (insert_entry n v m es)

-- `delete(r.entries, name)`.
unfoldable pub erase_entry : Bytes → Entries → Entries
erase_entry n no_entries = no_entries
erase_entry n (entry k w l es) =
    let rest = erase_entry n es in if eq_bytes k n then rest else entry k w l rest

abbrev pub is_empty : Entries → Bool
is_empty no_entries = true
is_empty (entry k v m es) = false

pub data RegistryError : Type 0 where
  -- errNotFound and errInvalidName
  not_found invalid_name : RegistryError
  already_used : Bytes → RegistryError
  cannot_clear : RegistryError
  -- the panic of an index out of range
  index_panic : RegistryError

-- The function `NewRegistry`.
abbrev pub new_registry : List (Options → Options) → Registry
new_registry opts = registry [] (apply_opts none opts) no_entries

-- `fullName` of monitoring/metrics.go.
abbrev pub full_name : Registry → Bytes → Bytes
full_name r name = if eq_bytes (name_of r) [] then name else name_of r ++ b'.' ∷ name

-- `findNames`; the value of a name without an entry is the zero entry, `none`.
unfoldable pub find_names : Registry → List Bytes → Result RegistryError (Option (Var × Mode))
unfolding lookup_entry
find_names r [] = ok (some (sub r, (opts_of r).mode))
find_names r (n ∷ []) = ok (lookup_entry n (entries_of r))
find_names r (n ∷ t ∷ rest) = elim (lookup_entry n (entries_of r)) [
  | none ↦ err not_found
  | some e ↦ elim e.0 [ metric i ↦ err invalid_name | sub s ↦ find_names s (t ∷ rest) ]
]

abbrev pub var_of : Result RegistryError (Option (Var × Mode)) → Option Var
var_of (ok (some e)) = some e.0
var_of (ok none) = none
var_of (err e) = none

-- `Registry.Get` and `Registry.GetRegistry`; `none` is nil.
unfoldable pub get : Registry → Bytes → Option Var
unfolding find_names
get r name = var_of (find_names r (split b'.' name))

abbrev pub registry_of : Option Var → Option Registry
registry_of (some (sub s)) = some s
registry_of (some (metric i)) = none
registry_of none = none

unfoldable pub get_registry : Registry → Bytes → Option Registry
unfolding get
get_registry r name = registry_of (get r name)

-- `addNames`.
unfoldable pub add_names : Options → Var → List Bytes → Registry → Result RegistryError Registry
unfolding lookup_entry insert_entry
add_names opts v [] r = err index_panic
add_names opts v (n ∷ []) r = elim (lookup_entry n (entries_of r)) [
  | some e ↦ err (already_used n)
  | none ↦ ok (with_entries r (insert_entry n v opts.mode (entries_of r)))
]
add_names opts v (n ∷ t ∷ rest) r = elim (lookup_entry n (entries_of r)) [
  | some e ↦ elim e.0 [
    | metric i ↦ err (already_used n)
    | sub s ↦ do
      s' ← add_names opts v (t ∷ rest) s
      ok (with_entries r (insert_entry n (sub s') e.1 (entries_of r)))
  ]
  | none ↦ do
    s' ← add_names opts v (t ∷ rest) (registry [] opts no_entries)
    ok (with_entries r (insert_entry n (sub s') opts.mode (entries_of r)))
]

-- The options of `Registry.Add`.
abbrev pub add_opts : Registry → Mode → Options
add_opts r m =
    if mode_number m == mode_number (opts_of r).mode
    then opts_of r
    else record (opts_of r) { mode = m }

-- `Registry.Add`; an error is a panic.
unfoldable pub add : Registry → Bytes → Var → Mode → Result RegistryError Registry
unfolding add_names
add r name v m = add_names (add_opts r m) v (split b'.' name) r

-- The method `NewRegistry`: the registry changed, and the new one.
unfoldable pub new_sub_registry :
    Registry → Bytes → List (Options → Options) → Result RegistryError (Registry × Registry)
unfolding add
new_sub_registry r name opts = do
  let v = registry (full_name r name) (apply_opts (some (opts_of r)) opts) no_entries
  r' ← add r name (sub v) (opts_of v).mode
  ok (r', v)

-- `newRegistryChainWithLock`: the registry changed, and the last of the new ones.
unfoldable pub new_registry_chain : List Bytes → Options → Registry → Registry × Registry
unfolding insert_entry
new_registry_chain [] opts r = (r, r)
new_registry_chain (n ∷ rest) opts r =
    let below = new_registry_chain rest opts (registry (full_name r n) opts no_entries) in
    (with_entries r (insert_entry n (sub below.0) opts.mode (entries_of r)), below.1)

-- `getOrCreateRegistry`.
unfoldable pub get_or_create_names :
    List (Options → Options) → List Bytes → Registry → Registry × Option Registry
unfolding lookup_entry insert_entry new_registry_chain
get_or_create_names opts [] r = (r, some r)
get_or_create_names opts (n ∷ rest) r = elim (lookup_entry n (entries_of r)) [
  | some e ↦ elim e.0 [
    | metric i ↦ (r, none)
    | sub s ↦
        let below = get_or_create_names opts rest s in
        (with_entries r (insert_entry n (sub below.0) e.1 (entries_of r)), below.1)
  ]
  | none ↦
      let chain = new_registry_chain (n ∷ rest) (apply_opts (some (opts_of r)) opts) r in
      (chain.0, some chain.1)
]

-- `GetOrCreateRegistry`.
unfoldable pub get_or_create_registry :
    Registry → Bytes → List (Options → Options) → Registry × Option Registry
unfolding get_or_create_names
get_or_create_registry r name opts = get_or_create_names opts (split b'.' name) r

-- `removeNames`.
unfoldable pub remove_names : List Bytes → Registry → Registry
unfolding lookup_entry insert_entry erase_entry
remove_names [] r = r
remove_names (n ∷ []) r = with_entries r (erase_entry n (entries_of r))
remove_names (n ∷ t ∷ rest) r = elim (lookup_entry n (entries_of r)) [
  | none ↦ r
  | some e ↦ elim e.0 [
    | metric i ↦ r
    | sub s ↦
        let s' = remove_names (t ∷ rest) s in
        if is_empty (entries_of s')
        then with_entries r (erase_entry n (entries_of r))
        else with_entries r (insert_entry n (sub s') e.1 (entries_of r))
  ]
]

-- `Registry.Remove`.
unfoldable pub remove : Registry → Bytes → Registry
unfolding remove_names
remove r name = remove_names (split b'.' name) r

-- `Registry.Clear`.
unfoldable pub clear : Registry → Result RegistryError Registry
clear r = if (opts_of r).publish_expvar then err cannot_clear else ok (with_entries r no_entries)

pub lookup-insert_entry :
    (n k : Bytes) (v : Var) (m : Mode) (es : Entries)
    → lookup_entry k (insert_entry n v m es)
      ≡ (if eq_bytes n k then some (v, m) else lookup_entry k es)
unfolding lookup_entry insert_entry
lookup-insert_entry n k v m no_entries = refl
lookup-insert_entry n k v m (entry i w l es) =
    ground
      (arith, eq_bytes_iff n k, eq_bytes_iff i n, eq_bytes_iff i k, lookup-insert_entry n k v m es)

pub lookup-erase_entry :
    (n k : Bytes) (es : Entries)
    → lookup_entry k (erase_entry n es) ≡ (if eq_bytes n k then none else lookup_entry k es)
unfolding lookup_entry erase_entry
lookup-erase_entry n k no_entries = ground arith
lookup-erase_entry n k (entry i w l es) =
    ground (arith, eq_bytes_iff n k, eq_bytes_iff i n, eq_bytes_iff i k, lookup-erase_entry n k es)
