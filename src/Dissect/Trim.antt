-- ===== src/Dissect/Trim.antt =====
-- processors/dissect/trim.go: the trimmer of ASCII characters. The trimmer of UTF-8 characters is not
-- modelled.
pub mod Stops
use elastic_agent_libs.Prelude.{
  ℕ, zero, suc, ◌+◌, ◌-◌, Bytes, Bool, true, false, ◌&&◌, ◌||◌, List, [], ◌∷◌, Option, none, some,
  Result, ok, err, ltb, ◌==◌, get_elem?, if◌then◌else◌,
}

abbrev pub ascii_limit : ℕ
ascii_limit = 128

-- `chars` lists the bytes whose entry in the table of the source is 1.
pub record AsciiTrimmer : Type 0 where
  pub chars : Bytes
  pub left : Bool
  pub right : Bool

abbrev is_ascii : Bytes → Bool
is_ascii [] = true
is_ascii (c ∷ cs) = ltb c ascii_limit && is_ascii cs

-- `newASCIITrimmer`; `none` is `errOnlyASCII`.
unfoldable pub new_ascii_trimmer : Bytes → Bool → Bool → Option AsciiTrimmer
new_ascii_trimmer chars left right =
    if is_ascii chars then some (record { chars = chars; left = left; right = right }) else none

abbrev pub is_one_of : ℕ → Bytes → Bool
is_one_of c [] = false
is_one_of c (x ∷ xs) = x == c || is_one_of c xs

-- `s[i] < asciiLimit && t.chars[s[i]] != 0`.
abbrev pub is_trimmed : AsciiTrimmer → Bytes → ℕ → Bool
is_trimmed t s i = elim (get_elem? s i) [
  | some c ↦ ltb c ascii_limit && is_one_of c t.chars
  | none ↦ false
]

-- The first loop of `Trim`, `count` being the length `end - start` of the range.
unfoldable pub trim_left : ℕ → AsciiTrimmer → Bytes → ℕ → ℕ
trim_left zero t s start = start
trim_left (suc count) t s start =
    let further = trim_left count t s (start + 1) in if is_trimmed t s start then further else start

-- The second loop.
unfoldable pub trim_right : ℕ → AsciiTrimmer → Bytes → ℕ → ℕ
trim_right zero t s stop = stop
trim_right (suc count) t s stop =
    let further = trim_right count t s (stop - 1) in
    if is_trimmed t s (stop - 1) then further else stop

-- `asciiTrimmer.Trim`.
unfoldable pub trim : AsciiTrimmer → Bytes → ℕ → ℕ → ℕ × ℕ
unfolding trim_left trim_right
trim t s start stop =
    let start' = if t.left then trim_left (stop - start) t s start else start in
    (start', if t.right then trim_right (stop - start') t s stop else stop)
