-- ===== src/Opt.antt =====
-- opt/opt.go: the optional unsigned integers. An `uint64` is a number below 2^64.
pub mod Sum
pub mod Arith
use elastic_agent_libs.Prelude.{
  ℕ, ◌+◌, ◌-◌, ◌*◌, ◌%◌, ◌^◌, Bool, true, false, not, ◌||◌, List, [], ◌∷◌, ◌==◌, ltb, if◌then◌else◌,
}

abbrev pub uint_mod : ℕ
uint_mod = 2 ^ 64

pub record Uint : Type 0 where
  pub exists : Bool
  pub value : ℕ

abbrev pub new_uint_none : Uint
new_uint_none = record { exists = false; value = 0 }

abbrev pub uint_with : ℕ → Uint
uint_with i = record { exists = true; value = i }

unfoldable pub is_zero : Uint → Bool
is_zero opt = not opt.exists

unfoldable pub value_or : Uint → ℕ → ℕ
value_or opt i = if opt.exists then opt.value else i

-- `MultUint64OrNone`.
unfoldable pub mult_or_none : Uint → ℕ → Uint
mult_or_none opt i =
    if not opt.exists
    then opt
    else if i == 0
    then record { exists = false; value = 0 }
    else record { exists = true; value = (opt.value * i) % uint_mod }

-- `SubtractOrNone`.
unfoldable pub subtract_or_none : Uint → Uint → Uint
unfolding value_or
subtract_or_none opt i =
    if not opt.exists || not i.exists
    then opt
    else if ltb opt.value (value_or i 0)
    then record { exists = false; value = 0 }
    else record { exists = true; value = (opt.value + uint_mod - value_or i 0) % uint_mod }

-- The loop of `SumOptUint`.
unfoldable pub sum_from : ℕ → List Uint → ℕ
sum_from sum [] = sum
sum_from sum (opt ∷ opts) = sum_from ((sum + value_or opt 0) % uint_mod) opts

-- `SumOptUint`.
unfoldable pub sum_opt_uint : List Uint → ℕ
unfolding sum_from value_or
sum_opt_uint opts = sum_from 0 opts

-- What `Fold` tells its visitor.
pub data Event : Type 0 where
  on_uint64 : ℕ → Event
  on_nil : Event

unfoldable pub fold : Uint → Event
fold opt = if opt.exists then on_uint64 opt.value else on_nil
