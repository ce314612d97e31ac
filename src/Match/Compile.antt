-- ===== src/Match/Compile.antt =====
-- match/compile.go and match/matcher.go: which matcher a regular expression is compiled to. The parser,
-- `Simplify` and the compiler of packages regexp and regexp/syntax are parameters.
pub mod Forms
pub mod Protos
pub mod Dates
pub mod Sound
use elastic_agent_libs.Prelude.{
  ℕ, suc, ◌+◌, Bytes, Bool, true, false, not, List, [], ◌∷◌, ◌++◌, Option, none, some, length, map,
  Result, ok, err, ◌>>=◌, ◌==◌, if◌then◌else◌,
}
use elastic_agent_libs.Match.Regex.{
  Op, literal, concat, Head, Regexp, node, Subs, no_subs, sub, op_code, op_of, head_of, subs_of,
  runes_of, items,
}
use elastic_agent_libs.Match.Classify.{
  Patterns, is_op, is_regular_literal, is_exact_literal, is_alt_literals, is_one_of_literals,
  is_prefix_literal, is_prefix_alt_literals, is_prefix_num_date, is_empty_text,
  is_empty_text_with_whitespace, is_any_match, subs_length, eq_prefix_regex, eq_suffix_regex,
}
use elastic_agent_libs.Match.Matchers.{
  NumDate, Matcher, equals, substring, alt_substring, one_of, prefix, alt_prefix, prefix_num_date,
  empty_string, empty_white_string, match_any, regexp,
}

-- The literals of the parts.
abbrev pub literals_of : Subs → List Bytes
literals_of no_subs = []
literals_of (sub r subs) = runes_of r ∷ literals_of subs

-- `r.Sub[1]`.
abbrev pub second : Regexp → Option Regexp
second (node op h (sub a (sub b subs))) = some b
second _ = none

-- `digitLen`.
abbrev pub digit_len : Regexp → ℕ
digit_len r = if is_op concat r then subs_length (subs_of r) else 1

-- The loop of `compilePrefixNumDate`: the groups with their separators, and the literal at the end.
unfoldable pub num_date_groups : Subs → List (Bytes × ℕ) × Bytes
num_date_groups no_subs = ([], [])
num_date_groups (sub lit no_subs) = ([], runes_of lit)
num_date_groups (sub lit (sub digits rest)) =
    let later = num_date_groups rest in ((runes_of lit, digit_len digits) ∷ later.0, later.1)

abbrev pub groups_length : List (Bytes × ℕ) → ℕ
groups_length [] = 0
groups_length (g ∷ groups) = length g.0 + g.1 + groups_length groups

abbrev pub num_date : Bytes → ℕ → List (Bytes × ℕ) × Bytes → NumDate
num_date start digits rest = record {
  min_len = length start + length rest.1 + digits + groups_length rest.0;
  prefix = start;
  first_digits = digits;
  groups = rest.0;
  suffix = rest.1;
}

-- `compilePrefixNumDate`; `none` is a panic.
unfoldable pub compile_prefix_num_date : Regexp → Option NumDate
unfolding num_date_groups
compile_prefix_num_date (node op h (sub a (sub b rest))) =
    if is_op literal b
    then elim rest [
      | no_subs ↦ none
      | sub digits more ↦ some (num_date (runes_of b) (digit_len digits) (num_date_groups more))
    ]
    else some (num_date [] (digit_len b) (num_date_groups rest))
compile_prefix_num_date _ = none

pub data CompileError : Type 0 where
  -- an error of package regexp
  bad_regexp : CompileError
  -- the panic of an index out of range
  index_panic : CompileError

abbrev pub or_panic : Option Regexp → (Regexp → Matcher) → Result CompileError Matcher
or_panic (some r) f = ok (f r)
or_panic none f = err index_panic

abbrev pub or_panic_num_date : Option NumDate → Result CompileError Matcher
or_panic_num_date (some m) = ok (prefix_num_date m)
or_panic_num_date none = err index_panic

-- The cases of `compile` behind `isPrefixNumDate`; `compiles` says of which expressions
-- `regexp.Compile` makes a matcher.
unfoldable pub compile_rest : Patterns → (Regexp → Bool) → Regexp → Result CompileError Matcher
compile_rest pats compiles r =
    if is_empty_text pats r
    then ok empty_string
    else if is_empty_text_with_whitespace pats r
    then ok empty_white_string
    else if is_any_match pats r
    then ok match_any
    else if compiles r
    then ok (regexp r)
    else err bad_regexp

-- `compile`.
unfoldable pub compile : Patterns → (Regexp → Bool) → Regexp → Result CompileError Matcher
unfolding compile_rest compile_prefix_num_date is_exact_literal is_alt_literals is_one_of_literals
    is_prefix_literal is_prefix_alt_literals is_prefix_num_date
compile pats compiles r =
    if is_regular_literal r
    then ok (substring (runes_of r))
    else if is_exact_literal r
    then or_panic (second r) (λ b. equals (runes_of b))
    else if is_alt_literals r
    then ok (alt_substring (literals_of (subs_of r)))
    else if is_one_of_literals r
    then or_panic (second r) (λ b. one_of (literals_of (subs_of b)))
    else if is_prefix_literal r
    then or_panic (second r) (λ b. prefix (runes_of b))
    else if is_prefix_alt_literals r
    then or_panic (second r) (λ b. alt_prefix (literals_of (subs_of b)))
    else elim (is_prefix_num_date pats r) [
      | none ↦ err index_panic
      | some true ↦ or_panic_num_date (compile_prefix_num_date r)
      | some false ↦ compile_rest pats compiles r
    ]

-- `CompileString`.
unfoldable pub compile_string : Bytes → Matcher
compile_string [] = empty_string
compile_string (c ∷ s) = substring (c ∷ s)
