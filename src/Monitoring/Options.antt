-- ===== src/Monitoring/Options.antt =====
-- monitoring/opts.go, and the modes of monitoring/monitoring.go.
use elastic_agent_libs.Prelude.{ℕ, Bool, true, false, List, [], ◌∷◌, Option, none, some, ltb}

-- `Mode`.
pub data Mode : Type 0 where
  reported full : Mode

abbrev pub mode_number : Mode → ℕ
mode_number reported = 0
mode_number full = 1

-- `a > b` of two modes.
abbrev pub is_above : Mode → Mode → Bool
is_above a b = ltb (mode_number b) (mode_number a)

-- `options`.
pub record Options : Type 0 where
  pub publish_expvar : Bool
  pub mode : Mode

abbrev pub default_options : Options
default_options = record { publish_expvar = false; mode = full }

-- The functions of type `Option`: `PublishExpvar`, `IgnorePublishExpvar`, `Report` and `DoNotReport`.
abbrev pub with_expvar : Options → Options
with_expvar o = record o { publish_expvar = true }

abbrev pub ignore_expvar : Options → Options
ignore_expvar o = record o { publish_expvar = false }

abbrev pub report : Options → Options
report o = record o { mode = reported }

abbrev pub do_not_report : Options → Options
do_not_report o = record o { mode = full }

-- `ensureOptions`; `none` is the nil pointer.
abbrev pub ensure_options : Option Options → Options
ensure_options (some o) = o
ensure_options none = default_options

abbrev pub apply_all : List (Options → Options) → Options → Options
apply_all [] o = o
apply_all (f ∷ fs) o = apply_all fs (f o)

-- `applyOpts`.
abbrev pub apply_opts : Option Options → List (Options → Options) → Options
apply_opts o opts = apply_all opts (ensure_options o)

-- `varOpts`.
abbrev pub var_opts : Option Options → List (Options → Options) → Options
var_opts (some o) [] = o
var_opts (some o) (f ∷ fs) = apply_all (f ∷ fs) o
var_opts none opts = apply_all opts default_options
