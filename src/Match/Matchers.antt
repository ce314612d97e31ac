-- ===== src/Match/Matchers.antt =====
-- match/matchers.go: the matchers and what each of them says of a text. A panic of an index out of range
-- is `none`.
use elastic_agent_libs.Prelude.{
  ℕ, zero, suc, Bytes, eq_bytes, Bool, true, false, ◌&&◌, ◌||◌, List, [], ◌∷◌, Option, none, some,
  length, take, drop, ltb, leb, ◌==◌, is_digit, if◌then◌else◌, Result, ok, err, ◌>>=◌,
}
use elastic_agent_libs.Match.Regex.{Regexp}

-- `prefixNumDate`; the first group of digits stands apart from those that a separator precedes.
pub record NumDate : Type 0 where
  pub min_len : ℕ
  pub prefix : Bytes
  pub first_digits : ℕ
  pub groups : List (Bytes × ℕ)
  pub suffix : Bytes

pub data Matcher : Type 0 where
  equals : Bytes → Matcher
  substring : Bytes → Matcher
  alt_substring : List Bytes → Matcher
  one_of : List Bytes → Matcher
  prefix : Bytes → Matcher
  alt_prefix : List Bytes → Matcher
  prefix_num_date : NumDate → Matcher
  empty_string : Matcher
  empty_white_string : Matcher
  match_any : Matcher
  -- the matcher of package regexp
  regexp : Regexp → Matcher

-- `len(s) >= len(p) && s[0:len(p)] == p`.
abbrev pub has_prefix : Bytes → Bytes → Bool
has_prefix s p = leb (length p) (length s) && eq_bytes (take (length p) s) p

-- `bytes.Contains`.
unfoldable pub contains_bytes : Bytes → Bytes → Bool
contains_bytes [] p = has_prefix [] p
contains_bytes (c ∷ s) p = has_prefix (c ∷ s) p || contains_bytes s p

abbrev pub any_literal : (Bytes → Bool) → List Bytes → Bool
any_literal test [] = false
any_literal test (literal ∷ literals) = test literal || any_literal test literals

-- The test of the loops of `emptyWhiteStringMatcher`.
abbrev pub is_white : ℕ → Bool
is_white r = r == 9 || r == 10 || r == 12 || r == 13 || r == 32

abbrev pub all_white : Bytes → Bool
all_white [] = true
all_white (r ∷ s) = is_white r && all_white s

-- Why a run of `prefixNumDate.Match` stops early.
pub data Stop : Type 0 where
  mismatch out_of_range : Stop

-- A loop over digits: what is left of the text behind them.
unfoldable pub skip_digits : ℕ → Bytes → Result Stop Bytes
skip_digits zero s = ok s
skip_digits (suc count) [] = err out_of_range
skip_digits (suc count) (v ∷ s) =
    let rest = skip_digits count s in if is_digit v then rest else err mismatch

-- `bytes.Equal(in[pos:pos+len(sep)], sep)`.
abbrev pub skip_bytes : Bytes → Bytes → Result Stop Bytes
skip_bytes sep s =
    if ltb (length s) (length sep)
    then err out_of_range
    else if eq_bytes (take (length sep) s) sep
    then ok (drop (length sep) s)
    else err mismatch

unfoldable pub skip_groups : List (Bytes × ℕ) → Bytes → Result Stop Bytes
unfolding skip_digits
skip_groups [] s = ok s
skip_groups ((sep, digits) ∷ groups) s = do
  after_sep ← skip_bytes sep s
  after_digits ← skip_digits digits after_sep
  skip_groups groups after_digits

-- `prefixNumDate.Match`.
unfoldable pub match_num_date : NumDate → Bytes → Result Stop Bool
unfolding skip_digits skip_groups
match_num_date m s = if ltb (length s) m.min_len then ok false else do
  after_prefix ← skip_bytes m.prefix s
  after_first ← skip_digits m.first_digits after_prefix
  after_groups ← skip_groups m.groups after_first
  ok (has_prefix after_groups m.suffix)

-- What the run says: nothing where it panics.
abbrev pub answer : Result Stop Bool → Option Bool
answer (ok b) = some b
answer (err mismatch) = some false
answer (err out_of_range) = none

-- `MatchString` and `Match`, with the engine of package regexp.
unfoldable pub match_string : (Regexp → Bytes → Bool) → Matcher → Bytes → Option Bool
unfolding contains_bytes match_num_date
match_string engine (equals s) text = some (eq_bytes s text)
match_string engine (substring s) text = some (contains_bytes text s)
match_string engine (alt_substring literals) text =
    some (any_literal (contains_bytes text) literals)
match_string engine (one_of literals) text = some (any_literal (eq_bytes text) literals)
match_string engine (prefix s) text = some (has_prefix text s)
match_string engine (alt_prefix literals) text = some (any_literal (has_prefix text) literals)
match_string engine (prefix_num_date m) text = answer (match_num_date m text)
match_string engine empty_string text = some (length text == 0)
match_string engine empty_white_string text = some (all_white text)
match_string engine match_any text = some true
match_string engine (regexp r) text = some (engine r text)

-- `matchAnyStrings` and `matchAllStrings`; an item that is no string is passed over.
unfoldable pub match_any_strings : (Bytes → Bool) → List (Option Bytes) → Bool
match_any_strings matches [] = false
match_any_strings matches (some s ∷ strs) = matches s || match_any_strings matches strs
match_any_strings matches (none ∷ strs) = match_any_strings matches strs

unfoldable pub match_all_strings : (Bytes → Bool) → List (Option Bytes) → Bool
match_all_strings matches [] = true
match_all_strings matches (some s ∷ strs) = matches s && match_all_strings matches strs
match_all_strings matches (none ∷ strs) = match_all_strings matches strs
