-- ===== src/Opt/Arith.antt =====
-- The guarded operations of opt/opt.go against arithmetic without a bound.
use elastic_agent_libs.Prelude.{ℕ, ◌-◌, ◌*◌, ◌<◌, leb, if◌then◌else◌, ◌==◌, ◌≡◌, arith}
use elastic_agent_libs.Opt.{uint_mod, uint_with, new_uint_none, subtract_or_none, mult_or_none}

-- `SubtractOrNone` of two values that exist, the first of 64 bits, is the difference where the second
-- does not exceed the first, and none where it does: it never wraps around.
pub subtract_or_none_exact :
    (x y : ℕ)
    → x < uint_mod
    → subtract_or_none (uint_with x) (uint_with y)
      ≡ (if leb y x then uint_with (x - y) else new_uint_none)
unfolding subtract_or_none
subtract_or_none_exact x y h = ground arith

-- `MultUint64OrNone` of a value that exists is the product where the factor is not zero and the product
-- fits 64 bits.
pub mult_or_none_exact :
    (x y : ℕ)
    → x * y < uint_mod
    → mult_or_none (uint_with x) y ≡ (if y == 0 then new_uint_none else uint_with (x * y))
unfolding mult_or_none
mult_or_none_exact x y h = ground arith
