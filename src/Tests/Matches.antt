-- ===== src/Tests/Matches.antt =====
-- match on small expressions.
use elastic_agent_libs.Prelude.{
  ℕ, Bytes, codes, Bool, true, false, not, length, ◌==◌, [], some, none, eq_bytes, ok, ◌≡◌, ◌↔◌,
  refl,
}
use elastic_agent_libs.Match.Regex.{
  literal, char_class, any_char_not_nl, any_char, begin_text, end_text, concat, Head, Regexp, node,
  no_subs, sub, eq_regex,
}
use elastic_agent_libs.Match.Classify.{
  Patterns, is_exact_literal, is_alt_literals, is_one_of_literals, is_prefix_literal,
  is_prefix_alt_literals, is_prefix_num_date,
}
use elastic_agent_libs.Match.Matchers.{prefix, regexp, match_string}
use elastic_agent_libs.Match.Compile.{compile, compile_rest}
use elastic_agent_libs.Match.Meaning.{Finds}
use elastic_agent_libs.Match.Meaning.Equal.{eq_regex-Finds}
use elastic_agent_libs.Match.Compile.Protos.{
  leaf, empty_form, star_form, whole_form, begin_form, end_form, white_class,
}
use elastic_agent_libs.Match.Compile.Dates.Group.{digit_class}
use elastic_agent_libs.Match.Compile.Sound.{compile-Finds}
use elastic_agent_libs.Match.Compile.Sound.Rest.{Parses}

abbrev at_place : ℕ → Bytes → Head
at_place place runes = record { address = place; flags = 212; min = 0; max = none; runes = runes }

abbrev head : Head
head = at_place 1 []

abbrev dot_node : Regexp
dot_node = leaf any_char_not_nl head

abbrev perl : Patterns
perl = record {
  dot_star = star_form head dot_node;
  null_begin_dot_star = begin_form head head (star_form head dot_node);
  null_end_dot_star = end_form head (star_form head dot_node) head;
  empty_text = empty_form head head head;
  empty_white_text =
      whole_form head head (star_form head (leaf char_class (at_place 1 white_class))) head;
  any_whole = whole_form head head (star_form head dot_node) head;
  begin = leaf begin_text head;
  finish = leaf end_text head;
  digit = leaf char_class (at_place 1 digit_class);
}

abbrev perl-Parses : Parses perl
perl-Parses = record {
  dot = head;
  space = at_place 1 white_class;
  number = at_place 1 digit_class;
  star_head = head;
  begin_head = head;
  end_head = head;
  concat_head = head;
  is_dot_star = refl;
  is_begin = refl;
  is_end = refl;
  is_whole = refl;
  is_empty = refl;
  is_white = refl;
  is_digit = refl;
  spaces = refl;
  digits = refl;
}

-- `^ab`.
abbrev starts_ab : Regexp
starts_ab =
    node concat head
      (sub (leaf begin_text (at_place 2 [])) (sub (leaf literal (at_place 3 (codes "ab"))) no_subs))

abbrev same_case : ℕ → ℕ
same_case c = c

abbrev no_boundary : Bytes → Bytes → Bool
no_boundary before behind = false

compile-starts_ab : compile perl (λ r. false) starts_ab ≡ ok (prefix (codes "ab"))
unfolding compile is_exact_literal is_alt_literals is_one_of_literals is_prefix_literal
compile-starts_ab = refl

-- An engine for the expressions of one node that any character matches.
abbrev is_any_char : Regexp → Bool
is_any_char (node any_char h subs) = true
is_any_char _ = false

abbrev finds_char : Regexp → Bytes → Bool
finds_char r text = not (length text == 0)

finds_char-Finds :
    (q : Regexp)
    → is_any_char q ≡ true
    → (finds_char q (codes "abc") ≡ true) ↔ Finds same_case no_boundary q (codes "abc")
finds_char-Finds (node any_char h subs) is =
    ((λ e. ([], codes "a", codes "bc", refl, (97, refl, tt))), (λ w. refl))
finds_char-Finds _ is = cc

abbrev any_node : Regexp
any_node = leaf any_char head

compile-any_node : compile perl is_any_char any_node ≡ ok (regexp any_node)
unfolding compile is_exact_literal is_alt_literals is_one_of_literals is_prefix_literal
    is_prefix_alt_literals is_prefix_num_date compile_rest eq_regex
compile-any_node = refl

compile-Finds_example :
    (match_string finds_char (regexp any_node) (codes "abc") ≡ some true)
    ↔ Finds same_case no_boundary any_node (codes "abc")
unfolding eq_regex
compile-Finds_example =
    compile-Finds same_case no_boundary perl perl-Parses is_any_char finds_char any_node
      (codes "abc") finds_char-Finds (λ whole. cc) compile-any_node

-- Two nodes that differ in their place alone.
same_dot : eq_regex (leaf any_char_not_nl (at_place 7 [])) dot_node ≡ true
unfolding eq_regex eq_bytes
same_dot = refl

eq_regex-Finds_example :
    Finds same_case no_boundary dot_node (codes "a")
    ↔ Finds same_case no_boundary (leaf any_char_not_nl (at_place 7 [])) (codes "a")
eq_regex-Finds_example =
    eq_regex-Finds same_case no_boundary (leaf any_char_not_nl (at_place 7 [])) dot_node (codes "a")
      same_dot
