-- ===== src/Opt/Sum.antt =====
-- `SumOptUint` of opt/opt.go against the sum without a bound.
use elastic_agent_libs.Prelude.{ℕ, ◌+◌, ◌%◌, List, [], ◌∷◌, ◌≡◌, ◌∙◌, arith, if◌then◌else◌}
use elastic_agent_libs.Opt.{Uint, uint_mod, value_or, sum_from, sum_opt_uint}

-- The sum of the values that exist.
unfoldable pub total : List Uint → ℕ
total [] = 0
total (o ∷ os) = (if o.exists then o.value else 0) + total os

sum_from-total :
    (os : List Uint) (sum : ℕ) → sum_from (sum % uint_mod) os ≡ (sum + total os) % uint_mod
unfolding sum_from total value_or
sum_from-total [] sum = omega arith
sum_from-total (o ∷ os) sum =
    let v = if o.exists then o.value else 0 in sum_from-total os (sum % uint_mod + v) ∙ omega arith

-- `SumOptUint` is the sum of the values that exist, modulo 2^64.
pub sum_opt_uint-total : (os : List Uint) → sum_opt_uint os ≡ total os % uint_mod
unfolding sum_opt_uint
sum_opt_uint-total os = sum_from-total os 0 ∙ omega arith
