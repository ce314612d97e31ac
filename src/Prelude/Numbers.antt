-- ===== src/Prelude/Numbers.antt =====
-- `strconv.Atoi` for texts without a minus sign, and the numbers that it reads.
use Prim.Native.Nat.{ℕ, ◌+◌, ◌-◌, ◌*◌, ◌^◌, ◌<◌}
use mathlib.Core.Path.{◌≡◌, refl}
use mathlib.Core.Bool.{Bool, false, ◌&&◌}
use mathlib.Core.Option.{Option, none, some}
use mathlib.Core.List.{[], ◌∷◌}
use native.Mathlib.Omega.{arith}
use elastic_agent_libs.Prelude.Tests.{leb, ltb, ◌==◌, if◌then◌else◌}
use elastic_agent_libs.Prelude.Strings.{Bytes, contains}

-- The first value past an `int` of 64 bits.
abbrev pub int_limit : ℕ
int_limit = 2 ^ 63

abbrev pub is_digit : ℕ → Bool
is_digit c = leb b'0' c && leb c b'9'

unfoldable pub digits_value : ℕ → Bytes → Option ℕ
digits_value n [] = some n
digits_value n (c ∷ cs) =
    let rest = digits_value (n * 10 + (c - b'0')) cs in if is_digit c then rest else none

-- At least one digit, and a value that an `int` holds.
unfoldable pub unsigned : Bytes → Option ℕ
unsigned [] = none
unsigned (c ∷ cs) = elim (digits_value 0 (c ∷ cs)) [
  | some n ↦ if ltb n int_limit then some n else none
  | none ↦ none
]

unfoldable pub atoi : Bytes → Option ℕ
unfolding unsigned digits_value
atoi [] = none
atoi (c ∷ cs) = if c == b'+' then unsigned cs else unsigned (c ∷ cs)

pub unsigned-lt : (s : Bytes) {n : ℕ} → unsigned s ≡ some n → n < int_limit
unfolding unsigned
unsigned-lt [] h = cc
unsigned-lt (c ∷ cs) h = ground arith

-- What `Atoi` returns fits an `int`.
pub atoi-lt : (s : Bytes) {n : ℕ} → atoi s ≡ some n → n < int_limit
unfolding atoi
atoi-lt [] h = cc
atoi-lt (c ∷ cs) h = ground (arith, unsigned-lt cs, unsigned-lt (c ∷ cs))

-- A text of digits holds none of the other bytes.
digits_value-free :
    (n : ℕ) (s : Bytes) (sep : ℕ) {k : ℕ}
    → is_digit sep ≡ false
    → digits_value n s ≡ some k
    → contains sep s ≡ false
unfolding digits_value contains
digits_value-free n [] sep h e = refl
digits_value-free n (c ∷ cs) sep {k} h e =
    ground (arith, digits_value-free (n * 10 + (c - b'0')) cs sep {k = k} h)

pub unsigned-free :
    (s : Bytes) (sep : ℕ) {k : ℕ}
    → is_digit sep ≡ false
    → unsigned s ≡ some k
    → contains sep s ≡ false
unfolding unsigned
unsigned-free [] sep h e = cc
unsigned-free (c ∷ cs) sep {k} h e = ground (arith, digits_value-free 0 (c ∷ cs) sep {k = k} h)

-- `Atoi` reads a text of digits alone as that number.
pub atoi-unsigned : (s : Bytes) {n : ℕ} → unsigned s ≡ some n → atoi s ≡ some n
unfolding atoi
atoi-unsigned [] h = cc
atoi-unsigned (c ∷ cs) h = ground arith
