-- ===== src/Match/Regex.antt =====
-- The syntax trees of package regexp/syntax that the module match works on, and the comparison of trees
-- in match/cmp.go. A text is the list of its code points; the code compares the UTF-8 encodings,
-- which agree where the texts do.
use elastic_agent_libs.Prelude.{
  ℕ, ◌%◌, Bytes, eq_bytes, Bool, true, false, ◌&&◌, List, [], ◌∷◌, Option, none, some, ◌==◌,
}

-- `syntax.Op`.
pub data Op : Type 0 where
  no_match empty_match literal char_class any_char_not_nl any_char : Op
  begin_line end_line begin_text end_text word_boundary no_word_boundary : Op
  capture star plus quest repeat concat alternate : Op

-- The fields of a `syntax.Regexp` besides its operator and its parts. The address tells two nodes apart
-- that are equal otherwise; a maximum of none is -1.
pub record Head : Type 0 where
  pub address : ℕ
  pub flags : ℕ
  pub min : ℕ
  pub max : Option ℕ
  pub runes : Bytes

mutual
  pub data Regexp : Type 0 where
    node : Op → Head → Subs → Regexp

  pub data Subs : Type 0 where
    no_subs : Subs
    sub : Regexp → Subs → Subs

abbrev pub op_code : Op → ℕ
op_code no_match = 1
op_code empty_match = 2
op_code literal = 3
op_code char_class = 4
op_code any_char_not_nl = 5
op_code any_char = 6
op_code begin_line = 7
op_code end_line = 8
op_code begin_text = 9
op_code end_text = 10
op_code word_boundary = 11
op_code no_word_boundary = 12
op_code capture = 13
op_code star = 14
op_code plus = 15
op_code quest = 16
op_code repeat = 17
op_code concat = 18
op_code alternate = 19

abbrev pub op_of : Regexp → Op
op_of (node op h subs) = op

abbrev pub head_of : Regexp → Head
head_of (node op h subs) = h

abbrev pub subs_of : Regexp → Subs
subs_of (node op h subs) = subs

abbrev pub runes_of : Regexp → Bytes
runes_of r = (head_of r).runes

abbrev pub items : Subs → List Regexp
items no_subs = []
items (sub r subs) = r ∷ items subs

abbrev pub to_subs : List Regexp → Subs
to_subs [] = no_subs
to_subs (r ∷ rs) = sub r (to_subs rs)

-- `isRegular`: the flag `FoldCase` is the lowest bit.
abbrev pub is_regular : Regexp → Bool
is_regular r = (head_of r).flags % 2 == 0

abbrev pub eq_max : Option ℕ → Option ℕ → Bool
eq_max none none = true
eq_max (some a) (some b) = a == b
eq_max _ _ = false

-- `eqRegex`: the trees but for their addresses.
unfoldable mutual
  pub eq_regex : Regexp → Regexp → Bool
  eq_regex (node op h subs) (node op' h' subs') =
      (op_code op == op_code op'
        && h.flags == h'.flags
        && h.min == h'.min
        && eq_max h.max h'.max
        && eq_bytes h.runes h'.runes)
      && eq_subs subs subs'

  pub eq_subs : Subs → Subs → Bool
  eq_subs no_subs no_subs = true
  eq_subs (sub r subs) (sub r' subs') = eq_regex r r' && eq_subs subs subs'
  eq_subs _ _ = false
