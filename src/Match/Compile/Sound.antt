-- ===== src/Match/Compile/Sound.antt =====
-- `compile` of match/compile.go: whatever matcher an expression is compiled to, it finds what the
-- expression means.
pub mod Rest
use mathlib.Core.Path.{subst}
use elastic_agent_libs.Prelude.{
  ℕ, Bytes, eq_bytes, Bool, true, false, Bool-cases, Option, none, some, some_inj, contains, length,
  ok, err, ok-injective, ◌==◌, ◌≡◌, ◌↔◌, inl, inr, refl, ap, sym, ◌∙◌,
}
use elastic_agent_libs.Match.Regex.{
  char_class, any_char_not_nl, Head, Regexp, runes_of, subs_of, eq_regex,
}
use elastic_agent_libs.Match.Classify.{
  Patterns, is_regular_literal, is_exact_literal, is_alt_literals, is_one_of_literals,
  is_prefix_literal, is_prefix_alt_literals, is_prefix_num_date, is_any_match, is_empty_text,
  is_empty_text_with_whitespace,
}
use elastic_agent_libs.Match.Matchers.{
  Matcher, has_prefix, contains_bytes, any_literal, all_white, equals, one_of, prefix, alt_prefix,
  match_string, NumDate, prefix_num_date,
}
use elastic_agent_libs.Match.Compile.{
  index_panic, literals_of, second, or_panic, or_panic_num_date, compile_rest, compile,
  compile_prefix_num_date,
}
use elastic_agent_libs.Match.Meaning.{Finds}
use elastic_agent_libs.Match.Meaning.Equal.{eq_regex-Finds}
use elastic_agent_libs.Match.Compile.Forms.{
  substring-Finds, alt_substring-Finds, equals-Finds, one_of-Finds, prefix-Finds, alt_prefix-Finds,
}
use elastic_agent_libs.Match.Compile.Protos.{
  leaf, empty_form, star_form, whole_form, begin_form, end_form, white_class, empty-Finds,
  white-Finds, dot_star-Finds, begin_star-Finds, end_star-Finds, whole_star-Finds,
}
use elastic_agent_libs.Match.Compile.Dates.Group.{digit_class}
use elastic_agent_libs.Match.Compile.Dates.{num_date-Finds}
use elastic_agent_libs.Match.Compile.Sound.Rest.{
  Parses, some_iff, iff_trans, or_panic-ok, LineWhere, Agrees, date-Agrees, rest-Agrees,
}

module _ (fold : ℕ → ℕ) (boundary : Bytes → Bytes → Bool) (pats : Patterns) (parsed : Parses pats)
    (compiles : Regexp → Bool) (engine : Regexp → Bytes → Bool) (text : Bytes) where
  parts-Agrees :
      (r : Regexp) {m : Matcher}
      → is_regular_literal r ≡ false
      → ((q : Regexp) → compiles q ≡ true → (engine q text ≡ true) ↔ Finds fold boundary q text)
      → LineWhere fold boundary pats parsed compiles engine text r
      → compile pats compiles r ≡ ok m
      → Agrees fold boundary pats parsed compiles engine text m r
  unfolding compile match_string
  parts-Agrees r {m} nl right line e = elim (Bool-cases (is_exact_literal r)) [
    | inl a ↦
        let (b, s, same) = or_panic-ok (second r) (λ b. equals (runes_of b)) (rw (nl, a) at e) in
        subst (λ m. Agrees fold boundary pats parsed compiles engine text m r) same
          (iff_trans (some_iff (eq_bytes (runes_of b) text))
            (equals-Finds fold boundary r text a s))
    | inr na ↦ elim (Bool-cases (is_alt_literals r)) [
      | inl a ↦
          subst (λ m. Agrees fold boundary pats parsed compiles engine text m r)
            (ok-injective (rw (nl, na, a) at e))
            (iff_trans (some_iff (any_literal (contains_bytes text) (literals_of (subs_of r))))
              (alt_substring-Finds fold boundary r text a))
      | inr nb ↦ elim (Bool-cases (is_one_of_literals r)) [
        | inl a ↦
            let (b, s, same) =
              or_panic-ok (second r) (λ b. one_of (literals_of (subs_of b)))
                (rw (nl, na, nb, a) at e) in
            subst (λ m. Agrees fold boundary pats parsed compiles engine text m r) same
              (iff_trans (some_iff (any_literal (eq_bytes text) (literals_of (subs_of b))))
                (one_of-Finds fold boundary r text a s))
        | inr nc ↦ elim (Bool-cases (is_prefix_literal r)) [
          | inl a ↦
              let (b, s, same) =
                or_panic-ok (second r) (λ b. prefix (runes_of b)) (rw (nl, na, nb, nc, a) at e) in
              subst (λ m. Agrees fold boundary pats parsed compiles engine text m r) same
                (iff_trans (some_iff (has_prefix text (runes_of b)))
                  (prefix-Finds fold boundary r text a s))
          | inr nd ↦ elim (Bool-cases (is_prefix_alt_literals r)) [
            | inl a ↦
                let (b, s, same) =
                  or_panic-ok (second r) (λ b. alt_prefix (literals_of (subs_of b)))
                    (rw (nl, na, nb, nc, nd, a) at e) in
                subst (λ m. Agrees fold boundary pats parsed compiles engine text m r) same
                  (iff_trans (some_iff (any_literal (has_prefix text) (literals_of (subs_of b))))
                    (alt_prefix-Finds fold boundary r text a s))
            | inr ne ↦ dated (is_prefix_num_date pats r) refl (rw (nl, na, nb, nc, nd, ne) at e)
          ]
        ]
      ]
    ]
  ]
    where
      dated :
          (o : Option Bool)
          → is_prefix_num_date pats r ≡ o
          → (elim o [
            | none ↦ err index_panic
            | some true ↦ or_panic_num_date (compile_prefix_num_date r)
            | some false ↦ compile_rest pats compiles r
          ])
            ≡ ok m
          → Agrees fold boundary pats parsed compiles engine text m r
      dated none is x = cc
      dated (some true) is x = date-Agrees fold boundary pats parsed compiles engine text r is x
      dated (some false) is x =
          rest-Agrees fold boundary pats parsed compiles engine text r right line x

-- Whatever matcher `compile` chooses, `MatchString` says yes exactly of the texts in which the
-- expression, read as a set of texts, is found: for an engine that is right about the expressions that it
-- compiles, and, where the expression is `^.*$`, for texts without a newline.
pub compile-Finds :
    (fold : ℕ → ℕ) (boundary : Bytes → Bytes → Bool) (pats : Patterns)
    → Parses pats
    → (compiles : Regexp → Bool) (engine : Regexp → Bytes → Bool) (r : Regexp) (text : Bytes)
      {m : Matcher}
    → ((q : Regexp) → compiles q ≡ true → (engine q text ≡ true) ↔ Finds fold boundary q text)
    → (eq_regex r pats.any_whole ≡ true → contains 10 text ≡ false)
    → compile pats compiles r ≡ ok m
    → (match_string engine m text ≡ some true) ↔ Finds fold boundary r text
unfolding compile match_string
compile-Finds fold boundary pats parsed compiles engine r text right line e =
    elim (Bool-cases (is_regular_literal r)) [
      | inl a ↦
          subst (λ m. (match_string engine m text ≡ some true) ↔ Finds fold boundary r text)
            (ok-injective (rw a at e))
            (iff_trans (some_iff (contains_bytes text (runes_of r)))
              (substring-Finds fold boundary r text a))
      | inr na ↦ parts-Agrees fold boundary pats parsed compiles engine text r na right line e
    ]
