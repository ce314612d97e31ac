-- ===== src/Match/Compile/Sound/Rest.antt =====
-- The last cases of `compile` of match/compile.go: the dates, and the expressions compared as a whole.
use mathlib.Core.Path.{subst}
use elastic_agent_libs.Prelude.{
  ℕ, Bytes, Bool, true, false, Bool-cases, Option, none, some, some_inj, contains, length, ok,
  ok-injective, ◌==◌, ◌≡◌, ◌↔◌, inl, inr, refl, ap, sym, ◌∙◌,
}
use elastic_agent_libs.Match.Regex.{char_class, any_char_not_nl, Head, Regexp, eq_regex}
use elastic_agent_libs.Match.Classify.{
  Patterns, is_prefix_num_date, is_any_match, is_empty_text, is_empty_text_with_whitespace,
}
use elastic_agent_libs.Match.Matchers.{Matcher, all_white, match_string, NumDate, prefix_num_date}
use elastic_agent_libs.Match.Compile.{
  or_panic, or_panic_num_date, compile_rest, compile_prefix_num_date,
}
use elastic_agent_libs.Match.Meaning.{Finds}
use elastic_agent_libs.Match.Meaning.Equal.{eq_regex-Finds}
use elastic_agent_libs.Match.Compile.Forms.{}
use elastic_agent_libs.Match.Compile.Protos.{
  leaf, empty_form, star_form, whole_form, begin_form, end_form, white_class, empty-Finds,
  white-Finds, dot_star-Finds, begin_star-Finds, end_star-Finds, whole_star-Finds,
}
use elastic_agent_libs.Match.Compile.Dates.Group.{digit_class}
use elastic_agent_libs.Match.Compile.Dates.{num_date-Finds}

-- What `syntax.Parse` makes of the constants, the flags of the nodes left open: `.*`, `^.*`, `.*$`,
-- `^.*$`, `^$`, `^\s*$` and `\d`.
pub record Parses (p : Patterns) : Type 0 where
  pub dot : Head
  pub space : Head
  pub number : Head
  pub star_head : Head
  pub begin_head : Head
  pub end_head : Head
  pub concat_head : Head
  pub is_dot_star : p.dot_star ≡ star_form star_head (leaf any_char_not_nl dot)
  pub is_begin :
      p.null_begin_dot_star
      ≡ begin_form concat_head begin_head (star_form star_head (leaf any_char_not_nl dot))
  pub is_end :
      p.null_end_dot_star
      ≡ end_form concat_head (star_form star_head (leaf any_char_not_nl dot)) end_head
  pub is_whole :
      p.any_whole
      ≡ whole_form concat_head begin_head (star_form star_head (leaf any_char_not_nl dot)) end_head
  pub is_empty : p.empty_text ≡ empty_form concat_head begin_head end_head
  pub is_white :
      p.empty_white_text
      ≡ whole_form concat_head begin_head (star_form star_head (leaf char_class space)) end_head
  pub is_digit : p.digit ≡ leaf char_class number
  pub spaces : space.runes ≡ white_class
  pub digits : number.runes ≡ digit_class

pub some_iff : (b : Bool) → (some b ≡ some true) ↔ (b ≡ true)
some_iff b = ((λ h. some_inj h), (λ h. ap some h))

pub iff_trans {ℓ} : {A B C : Type ℓ} → A ↔ B → B ↔ C → A ↔ C
iff_trans p q = ((λ a. q.0 (p.0 a)), (λ c. p.1 (q.1 c)))

iff_sym {ℓ} : {A B : Type ℓ} → A ↔ B → B ↔ A
iff_sym p = (p.1, p.0)

pub or_panic-ok :
    (o : Option Regexp) (f : Regexp → Matcher) {m : Matcher}
    → or_panic o f ≡ ok m
    → (b : Regexp) × (o ≡ some b) × (f b ≡ m)
or_panic-ok (some b) f h = (b, refl, ok-injective h)
or_panic-ok none f h = cc

or_panic_num_date-ok :
    (o : Option NumDate) {m : Matcher}
    → or_panic_num_date o ≡ ok m
    → (d : NumDate) × (o ≡ some d) × (prefix_num_date d ≡ m)
or_panic_num_date-ok (some d) h = (d, refl, ok-injective h)
or_panic_num_date-ok none h = cc

module _ (fold : ℕ → ℕ) (boundary : Bytes → Bytes → Bool) (pats : Patterns) (parsed : Parses pats)
    (compiles : Regexp → Bool) (engine : Regexp → Bytes → Bool) (text : Bytes) where
  -- The matcher is right about the expression on the text.
  abbrev pub Agrees : Matcher → Regexp → Type 0
  Agrees m r = (match_string engine m text ≡ some true) ↔ Finds fold boundary r text

  -- The text has no newline where the expression is `^.*$`, which is compiled to the matcher that says yes
  -- of every text.
  abbrev pub LineWhere : Regexp → Type 0
  LineWhere r = eq_regex r pats.any_whole ≡ true → contains 10 text ≡ false

  like :
      (r p q : Regexp)
      → eq_regex r p ≡ true
      → p ≡ q
      → Finds fold boundary q text ↔ Finds fold boundary r text
  like r p q e same =
      iff_sym (eq_regex-Finds fold boundary r q text (ap (eq_regex r) (sym same) ∙ e))

  any-Finds : (r : Regexp) → is_any_match pats r ≡ true → LineWhere r → Finds fold boundary r text
  any-Finds r e line = elim (Bool-cases (eq_regex r pats.dot_star)) [
    | inl a ↦
        (like r pats.dot_star any_star a parsed.is_dot_star).0
          (dot_star-Finds fold boundary parsed.star_head dot_leaf text)
    | inr na ↦ elim (Bool-cases (eq_regex r pats.null_begin_dot_star)) [
      | inl b ↦
          (like r pats.null_begin_dot_star (begin_form h l any_star) b parsed.is_begin).0
            (begin_star-Finds fold boundary h l parsed.star_head dot_leaf text)
      | inr nb ↦ elim (Bool-cases (eq_regex r pats.any_whole)) [
        | inl c ↦
            (like r pats.any_whole (whole_form h l any_star x) c parsed.is_whole).0
              ((whole_star-Finds fold boundary h l parsed.star_head parsed.dot x text).0 (line c))
        | inr nc ↦
            (like r pats.null_end_dot_star (end_form h any_star x) (rw (na, nb, nc) at e)
                parsed.is_end).0
              (end_star-Finds fold boundary h parsed.star_head dot_leaf x text)
      ]
    ]
  ]
    where
      h : Head
      h = parsed.concat_head

      l : Head
      l = parsed.begin_head

      x : Head
      x = parsed.end_head

      dot_leaf : Regexp
      dot_leaf = leaf any_char_not_nl parsed.dot

      any_star : Regexp
      any_star = star_form parsed.star_head dot_leaf

  pub rest-Agrees :
      (r : Regexp) {m : Matcher}
      → ((q : Regexp) → compiles q ≡ true → (engine q text ≡ true) ↔ Finds fold boundary q text)
      → LineWhere r
      → compile_rest pats compiles r ≡ ok m
      → Agrees m r
  unfolding compile_rest match_string
  rest-Agrees r right line e = elim (Bool-cases (is_empty_text pats r)) [
    | inl a ↦
        subst (λ m. Agrees m r) (ok-injective (rw a at e))
          (iff_trans (some_iff (length text == 0)) (
            iff_trans (empty-Finds fold boundary h l x text)
              (like r pats.empty_text (empty_form h l x) a parsed.is_empty)))
    | inr na ↦ elim (Bool-cases (is_empty_text_with_whitespace pats r)) [
      | inl b ↦
          subst (λ m. Agrees m r) (ok-injective (rw (na, b) at e))
            (iff_trans (some_iff (all_white text)) (
              iff_trans
                (white-Finds fold boundary h l parsed.star_head parsed.space x text parsed.spaces)
                (like r pats.empty_white_text
                  (whole_form h l (star_form parsed.star_head (leaf char_class parsed.space)) x) b
                  parsed.is_white)))
      | inr nb ↦ elim (Bool-cases (is_any_match pats r)) [
        | inl c ↦
            subst (λ m. Agrees m r) (ok-injective (rw (na, nb, c) at e))
              ((λ _. any-Finds r c line), (λ w. refl))
        | inr nc ↦ elim (Bool-cases (compiles r)) [
          | inl d ↦
              subst (λ m. Agrees m r) (ok-injective (rw (na, nb, nc, d) at e))
                (iff_trans (some_iff (engine r text)) (right r d))
          | inr nd ↦ cc (rw (na, nb, nc, nd) at e)
        ]
      ]
    ]
  ]
    where
      h : Head
      h = parsed.concat_head

      l : Head
      l = parsed.begin_head

      x : Head
      x = parsed.end_head

  pub date-Agrees :
      (r : Regexp) {m : Matcher}
      → is_prefix_num_date pats r ≡ some true
      → or_panic_num_date (compile_prefix_num_date r) ≡ ok m
      → Agrees m r
  unfolding match_string
  date-Agrees r is e =
      let (d, c, same) = or_panic_num_date-ok (compile_prefix_num_date r) e in
      subst (λ m. Agrees m r) same
        (num_date-Finds fold boundary pats parsed.number parsed.is_digit parsed.digits r text is c)
