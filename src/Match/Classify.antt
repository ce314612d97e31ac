-- ===== src/Match/Classify.antt =====
-- match/cmp.go: the forms of a regular expression for which there are cheaper matchers. `none` is the
-- panic of an index out of range.
use elastic_agent_libs.Prelude.{
  ℕ, zero, suc, ◌-◌, ltb, Bool, true, false, ◌&&◌, ◌||◌, Option, none, some, ◌==◌, if◌then◌else◌,
}
use elastic_agent_libs.Match.Regex.{
  Op, literal, begin_text, end_text, concat, alternate, Regexp, node, Subs, no_subs, sub, op_code,
  op_of, head_of, subs_of, is_regular, eq_regex,
}

-- The patterns that `mustParse` makes of constants.
pub record Patterns : Type 0 where
  pub dot_star : Regexp
  pub null_begin_dot_star : Regexp
  pub null_end_dot_star : Regexp
  pub empty_text : Regexp
  pub empty_white_text : Regexp
  pub any_whole : Regexp
  pub begin : Regexp
  pub finish : Regexp
  pub digit : Regexp

abbrev pub is_op : Op → Regexp → Bool
is_op op r = op_code (op_of r) == op_code op

-- `isRegularLiteral` and `isSubstringLiteral`.
abbrev pub is_regular_literal : Regexp → Bool
is_regular_literal r = is_op literal r && is_regular r

abbrev pub all_regular_literals : Subs → Bool
all_regular_literals no_subs = true
all_regular_literals (sub r subs) = is_regular_literal r && all_regular_literals subs

unfoldable pub is_prefix_literal : Regexp → Bool
is_prefix_literal (node op h (sub a (sub b no_subs))) =
    op_code op == op_code concat
    && is_op begin_text a
    && is_regular_literal b
    && is_regular (node op h (sub a (sub b no_subs)))
is_prefix_literal _ = false

unfoldable pub is_alt_literals : Regexp → Bool
is_alt_literals r = is_op alternate r && all_regular_literals (subs_of r)

unfoldable pub is_exact_literal : Regexp → Bool
is_exact_literal (node op h (sub a (sub b (sub c no_subs)))) =
    op_code op == op_code concat
    && is_op begin_text a
    && is_regular_literal b
    && is_op end_text c
    && is_regular (node op h (sub a (sub b (sub c no_subs))))
is_exact_literal _ = false

unfoldable pub is_one_of_literals : Regexp → Bool
unfolding is_alt_literals
is_one_of_literals (node op h (sub a (sub b (sub c no_subs)))) =
    op_code op == op_code concat && is_op begin_text a && is_alt_literals b && is_op end_text c
is_one_of_literals _ = false

unfoldable pub is_prefix_alt_literals : Regexp → Bool
is_prefix_alt_literals (node op h (sub a (sub b no_subs))) =
    op_code op == op_code concat
    && is_op begin_text a
    && is_op alternate b
    && all_regular_literals (subs_of b)
is_prefix_alt_literals _ = false

-- `isConcatRepetition`: all parts are the same object, so one tree at one address.
unfoldable pub all_same : Regexp → Subs → Bool
unfolding eq_regex
all_same first no_subs = true
all_same first (sub r subs) =
    (head_of r).address == (head_of first).address && eq_regex r first && all_same first subs

unfoldable pub is_concat_repetition : Regexp → Option Bool
unfolding all_same
is_concat_repetition (node op h subs) =
    if op_code op == op_code concat
    then elim subs [ no_subs ↦ none | sub first rest ↦ some (all_same first rest) ]
    else some false

-- `isMultiDigits`.
unfoldable pub is_multi_digits : Patterns → Regexp → Option Bool
unfolding is_concat_repetition eq_regex
is_multi_digits pats r = elim (is_concat_repetition r) [
  | none ↦ none
  | some false ↦ some false
  | some true ↦ elim (subs_of r) [
    | no_subs ↦ none
    | sub first rest ↦ some (eq_regex first pats.digit)
  ]
]

-- The loop of `isPrefixNumDate`: a separator and digits by turns, and perhaps a last literal.
unfoldable pub separated_digits : Patterns → Subs → Option Bool
unfolding is_multi_digits
separated_digits pats no_subs = some true
separated_digits pats (sub lit no_subs) = some (is_regular_literal lit)
separated_digits pats (sub lit (sub digits rest)) =
    let later = separated_digits pats rest in
    if is_regular_literal lit
    then elim (is_multi_digits pats digits) [
      | some true ↦ later
      | some false ↦ some false
      | none ↦ none
    ]
    else some false

abbrev pub digits_first : Patterns → Subs → Option Bool
digits_first pats no_subs = none
digits_first pats (sub digits rest) = elim (is_multi_digits pats digits) [
  | some true ↦ separated_digits pats rest
  | some false ↦ some false
  | none ↦ none
]

-- `isPrefixNumDate`.
unfoldable pub is_prefix_num_date : Patterns → Regexp → Option Bool
unfolding separated_digits
is_prefix_num_date pats (node op h subs) =
    if op_code op == op_code concat
    then elim subs [
      | no_subs ↦ none
      | sub a rest ↦
          if is_op begin_text a
          then elim rest [
            | no_subs ↦ none
            | sub b more ↦
                if is_regular_literal b
                then digits_first pats more
                else digits_first pats (sub b more)
          ]
          else some false
    ]
    else some false

-- `isEmptyText`, `isEmptyTextWithWhitespace` and `isAnyMatch`.
abbrev pub is_empty_text : Patterns → Regexp → Bool
is_empty_text pats r = eq_regex r pats.empty_text

abbrev pub is_empty_text_with_whitespace : Patterns → Regexp → Bool
is_empty_text_with_whitespace pats r = eq_regex r pats.empty_white_text

abbrev pub is_any_match : Patterns → Regexp → Bool
is_any_match pats r =
    eq_regex r pats.dot_star
    || eq_regex r pats.null_begin_dot_star
    || eq_regex r pats.any_whole
    || eq_regex r pats.null_end_dot_star

-- `eqPrefixRegex`.
abbrev pub eq_prefix_subs : Subs → Subs → Bool
eq_prefix_subs subs no_subs = true
eq_prefix_subs no_subs (sub p protos) = false
eq_prefix_subs (sub r subs) (sub p protos) = eq_regex r p && eq_prefix_subs subs protos

abbrev pub eq_first : Subs → Regexp → Bool
eq_first no_subs proto = false
eq_first (sub r subs) proto = eq_regex r proto

unfoldable pub eq_prefix_regex : Regexp → Regexp → Bool
unfolding eq_regex
eq_prefix_regex r proto =
    if is_op concat r
    then (if is_op concat proto
        then eq_prefix_subs (subs_of r) (subs_of proto)
        else eq_first (subs_of r) proto)
    else false

-- `eqSuffixRegex`.
abbrev pub subs_length : Subs → ℕ
subs_length no_subs = 0
subs_length (sub r subs) = suc (subs_length subs)

abbrev pub drop_subs : ℕ → Subs → Subs
drop_subs zero subs = subs
drop_subs (suc n) no_subs = no_subs
drop_subs (suc n) (sub r subs) = drop_subs n subs

abbrev pub last_sub : Regexp → Subs → Regexp
last_sub r no_subs = r
last_sub r (sub s subs) = last_sub s subs

abbrev pub eq_last : Subs → Regexp → Bool
eq_last no_subs proto = false
eq_last (sub r subs) proto = eq_regex (last_sub r subs) proto

unfoldable pub eq_suffix_regex : Regexp → Regexp → Bool
unfolding eq_regex
eq_suffix_regex r proto =
    if is_op concat r
    then (if is_op concat proto
        then (if ltb (subs_length (subs_of r)) (subs_length (subs_of proto))
            then false
            else eq_prefix_subs
                (drop_subs (subs_length (subs_of r) - subs_length (subs_of proto)) (subs_of r))
                (subs_of proto))
        else eq_last (subs_of r) proto)
    else false
