-- ===== src/Match/Compile/Forms.antt =====
-- The matchers of literals in match/matchers.go against what the expressions mean that they stand for.
use mathlib.Core.List.{append-nil}
use mathlib.Core.Path.{subst}
use elastic_agent_libs.Prelude.{
  ℕ, Bytes, eq_bytes, eq_bytes_iff, Bool, true, [], ◌++◌, some, some_inj, ◌≡◌, ◌↔◌, refl, ap, sym,
  ◌∙◌, arith,
}
use elastic_agent_libs.Match.Regex.{
  Op, begin_text, end_text, concat, Head, Regexp, node, no_subs, sub, runes_of, subs_of,
}
use elastic_agent_libs.Match.Classify.{
  is_op, is_regular_literal, is_exact_literal, is_alt_literals, is_one_of_literals,
  is_prefix_literal, is_prefix_alt_literals,
}
use elastic_agent_libs.Match.Matchers.{has_prefix, contains_bytes, any_literal}
use elastic_agent_libs.Match.Compile.{literals_of, second}
use elastic_agent_libs.Match.Meaning.{Means, Finds}
use elastic_agent_libs.Match.Meaning.Texts.{has_prefix_iff, contains_bytes_iff}
use elastic_agent_libs.Match.Meaning.Literal.{literal-Means, alternate-Means}
use elastic_agent_libs.Match.Meaning.Cases.{
  IsOneOf, any_literal_iff, alternate_literals, single-Means, begin-Finds, end-Means,
}

module _ (fold : ℕ → ℕ) (boundary : Bytes → Bytes → Bool) where
  -- A literal is found where the text contains it.
  pub substring-Finds :
      (r : Regexp) (text : Bytes)
      → is_regular_literal r ≡ true
      → (contains_bytes text (runes_of r) ≡ true) ↔ Finds fold boundary r text
  substring-Finds r text lit = (
    λ h.
        let (b, a, e) = (contains_bytes_iff text (runes_of r)).0 h in
        (b, runes_of r, a, e, (literal-Means fold boundary r b (runes_of r) a lit).1 refl),
    λ w.
        let (b, t, a, e, m) = w in
        (contains_bytes_iff text (runes_of r)).1
          (b, a, ap (λ z. b ++ (z ++ a)) (sym ((literal-Means fold boundary r b t a lit).0 m)) ∙ e),
  )

  pub alt_substring-Finds :
      (r : Regexp) (text : Bytes)
      → is_alt_literals r ≡ true
      → (any_literal (contains_bytes text) (literals_of (subs_of r)) ≡ true)
        ↔ Finds fold boundary r text
  unfolding is_alt_literals
  alt_substring-Finds r text alt = (
    λ h.
        let (l, one, has) = (any_literal_iff (contains_bytes text) (literals_of (subs_of r))).0 h in
        let (b, a, e) = (contains_bytes_iff text l).0 has in
        (
          b,
          l,
          a,
          e,
          (alternate-Means fold boundary r b l a (ground arith)).1
              ((alternate_literals fold boundary (subs_of r) b l a (ground arith)).1 one),
        ),
    λ w.
        let (b, t, a, e, m) = w in
        (any_literal_iff (contains_bytes text) (literals_of (subs_of r))).1 (
          t,
          (alternate_literals fold boundary (subs_of r) b t a (ground arith)).0
              ((alternate-Means fold boundary r b t a (ground arith)).0 m),
          (contains_bytes_iff text t).1 (b, a, e),
        ),
  )

  -- An expression between the beginning and the end of the text.
  pub whole-Finds :
      (op : Op) (h : Head) (a b c : Regexp) (text : Bytes)
      → is_op concat (node op h (sub a (sub b (sub c no_subs)))) ≡ true
      → is_op begin_text a ≡ true
      → is_op end_text c ≡ true
      → Means fold boundary b [] text []
        ↔ Finds fold boundary (node op h (sub a (sub b (sub c no_subs)))) text
  whole-Finds op h a b c text con beg fin = (
    λ m.
        (begin-Finds fold boundary op h a (sub b (sub c no_subs)) text con beg).1
          (text, [], append-nil text, (end-Means fold boundary b c text [] fin).1 (m, refl)),
    λ w.
        let (t, behind, e, m) =
          (begin-Finds fold boundary op h a (sub b (sub c no_subs)) text con beg).0 w in
        let (means, ends) = (end-Means fold boundary b c t behind fin).0 m in
        subst (λ z. Means fold boundary b [] z [])
          (sym (append-nil t) ∙ ap (λ z. t ++ z) (sym ends) ∙ e) means,
  )

  -- An expression at the beginning of the text.
  pub start-Finds :
      (op : Op) (h : Head) (a b : Regexp) (text : Bytes)
      → is_op concat (node op h (sub a (sub b no_subs))) ≡ true
      → is_op begin_text a ≡ true
      → ((t : Bytes) × (behind : Bytes) × (t ++ behind ≡ text) × Means fold boundary b [] t behind)
        ↔ Finds fold boundary (node op h (sub a (sub b no_subs))) text
  start-Finds op h a b text con beg = (
    λ w.
        let (t, behind, e, m) = w in
        (begin-Finds fold boundary op h a (sub b no_subs) text con beg).1
          (t, behind, e, (single-Means fold boundary b [] t behind).1 m),
    λ w.
        let (t, behind, e, m) =
          (begin-Finds fold boundary op h a (sub b no_subs) text con beg).0 w in
        (t, behind, e, (single-Means fold boundary b [] t behind).0 m),
  )

  pub equals-Finds :
      (r : Regexp) (text : Bytes) {b : Regexp}
      → is_exact_literal r ≡ true
      → second r ≡ some b
      → (eq_bytes (runes_of b) text ≡ true) ↔ Finds fold boundary r text
  unfolding is_exact_literal
  equals-Finds (node op h (sub a (sub c (sub d no_subs)))) text {b} form s =
      subst
        (λ z.
          (eq_bytes (runes_of z) text ≡ true)
          ↔ Finds fold boundary (node op h (sub a (sub c (sub d no_subs)))) text)
        (some_inj s)
        (
          (λ e. (whole-Finds op h a c d text (ground arith) (ground arith) (ground arith)).0 (
              (literal-Means fold boundary c [] text [] (ground arith)).1
                (sym ((eq_bytes_iff (runes_of c) text).0 e)))),
          (λ w. (eq_bytes_iff (runes_of c) text).1 (
              sym (
                (literal-Means fold boundary c [] text [] (ground arith)).0 (
                  (whole-Finds op h a c d text (ground arith) (ground arith) (ground arith)).1
                    w)))),
        )
  equals-Finds _ text form s = cc

  pub one_of-Finds :
      (r : Regexp) (text : Bytes) {b : Regexp}
      → is_one_of_literals r ≡ true
      → second r ≡ some b
      → (any_literal (eq_bytes text) (literals_of (subs_of b)) ≡ true) ↔ Finds fold boundary r text
  unfolding is_one_of_literals is_alt_literals
  one_of-Finds (node op h (sub a (sub c (sub d no_subs)))) text {b} form s =
      subst
        (λ z.
          (any_literal (eq_bytes text) (literals_of (subs_of z)) ≡ true)
          ↔ Finds fold boundary (node op h (sub a (sub c (sub d no_subs)))) text)
        (some_inj s)
        (
          (λ e.
              let (l, one, same) =
                (any_literal_iff (eq_bytes text) (literals_of (subs_of c))).0 e in
              (whole-Finds op h a c d text (ground arith) (ground arith) (ground arith)).0 (
                (alternate-Means fold boundary c [] text [] (ground arith)).1 (
                  (alternate_literals fold boundary (subs_of c) [] text [] (ground arith)).1 (
                    subst (λ z. IsOneOf z (literals_of (subs_of c)))
                      (sym ((eq_bytes_iff text l).0 same)) one)))),
          (λ w. (any_literal_iff (eq_bytes text) (literals_of (subs_of c))).1 (
            text,
            (alternate_literals fold boundary (subs_of c) [] text [] (ground arith)).0 (
                (alternate-Means fold boundary c [] text [] (ground arith)).0
                  ((whole-Finds op h a c d text (ground arith) (ground arith) (ground arith)).1 w)),
            (eq_bytes_iff text text).1 refl,
          )),
        )
  one_of-Finds _ text form s = cc

  pub prefix-Finds :
      (r : Regexp) (text : Bytes) {b : Regexp}
      → is_prefix_literal r ≡ true
      → second r ≡ some b
      → (has_prefix text (runes_of b) ≡ true) ↔ Finds fold boundary r text
  unfolding is_prefix_literal
  prefix-Finds (node op h (sub a (sub c no_subs))) text {b} form s =
      subst
        (λ z.
          (has_prefix text (runes_of z) ≡ true)
          ↔ Finds fold boundary (node op h (sub a (sub c no_subs))) text)
        (some_inj s)
        (
          (λ e.
              let (behind, same) = (has_prefix_iff text (runes_of c)).0 e in
              (start-Finds op h a c text (ground arith) (ground arith)).0 (
                runes_of c,
                behind,
                same,
                (literal-Means fold boundary c [] (runes_of c) behind (ground arith)).1 refl,
              )),
          (λ w.
              let (t, behind, same, m) =
                (start-Finds op h a c text (ground arith) (ground arith)).1 w in
              (has_prefix_iff text (runes_of c)).1 (
                behind,
                ap (λ z. z ++ behind)
                      (sym ((literal-Means fold boundary c [] t behind (ground arith)).0 m))
                    ∙ same,
              )),
        )
  prefix-Finds _ text form s = cc

  pub alt_prefix-Finds :
      (r : Regexp) (text : Bytes) {b : Regexp}
      → is_prefix_alt_literals r ≡ true
      → second r ≡ some b
      → (any_literal (has_prefix text) (literals_of (subs_of b)) ≡ true)
        ↔ Finds fold boundary r text
  unfolding is_prefix_alt_literals
  alt_prefix-Finds (node op h (sub a (sub c no_subs))) text {b} form s =
      subst
        (λ z.
          (any_literal (has_prefix text) (literals_of (subs_of z)) ≡ true)
          ↔ Finds fold boundary (node op h (sub a (sub c no_subs))) text)
        (some_inj s)
        (
          (λ e.
              let (l, one, starts) =
                (any_literal_iff (has_prefix text) (literals_of (subs_of c))).0 e in
              let (behind, same) = (has_prefix_iff text l).0 starts in
              (start-Finds op h a c text (ground arith) (ground arith)).0 (
                l,
                behind,
                same,
                (alternate-Means fold boundary c [] l behind (ground arith)).1 (
                    (alternate_literals fold boundary (subs_of c) [] l behind (ground arith)).1
                      one),
              )),
          (λ w.
              let (t, behind, same, m) =
                (start-Finds op h a c text (ground arith) (ground arith)).1 w in
              (any_literal_iff (has_prefix text) (literals_of (subs_of c))).1 (
                t,
                (alternate_literals fold boundary (subs_of c) [] t behind (ground arith)).0
                    ((alternate-Means fold boundary c [] t behind (ground arith)).0 m),
                (has_prefix_iff text t).1 (behind, same),
              )),
        )
  alt_prefix-Finds _ text form s = cc
