-- ===== src/Match/Meaning/Literal.antt =====
-- What the operators mean of which the forms of match/cmp.go are made.
use elastic_agent_libs.Prelude.{ℕ, ◌%◌, Bytes, Bool, true, [], ==_iff, ◌≡◌, ◌↔◌, inl, inr, arith}
use elastic_agent_libs.Match.Regex.{
  literal, begin_text, end_text, concat, alternate, Regexp, node, head_of, subs_of, runes_of,
}
use elastic_agent_libs.Match.Classify.{is_op, is_regular_literal}
use elastic_agent_libs.Match.Meaning.{Means, MeansAll, MeansAny}

pub literal_regular : (r : Regexp) → is_regular_literal r ≡ true → (head_of r).flags % 2 ≡ 0
literal_regular r h = ground (arith, ==_iff ((head_of r).flags % 2) 0)

module _ (fold : ℕ → ℕ) (boundary : Bytes → Bytes → Bool) where
  pub literal-Means :
      (r : Regexp) (b t a : Bytes)
      → is_regular_literal r ≡ true
      → Means fold boundary r b t a ↔ (t ≡ runes_of r)
  literal-Means (node literal h subs) b t a e =
      let regular = literal_regular (node literal h subs) e in
      ((λ m. elim m [ inl w ↦ w.1 | inr w ↦ absurd (w.0 regular) ]), (λ w. inl (regular, w)))
  literal-Means (node _ h subs) b t a e = cc

  pub concat-Means :
      (r : Regexp) (b t a : Bytes)
      → is_op concat r ≡ true
      → Means fold boundary r b t a ↔ MeansAll fold boundary (subs_of r) b t a
  concat-Means (node concat h subs) b t a e = (λ x. x, λ x. x)
  concat-Means (node _ h subs) b t a e = cc

  pub alternate-Means :
      (r : Regexp) (b t a : Bytes)
      → is_op alternate r ≡ true
      → Means fold boundary r b t a ↔ MeansAny fold boundary (subs_of r) b t a
  alternate-Means (node alternate h subs) b t a e = (λ x. x, λ x. x)
  alternate-Means (node _ h subs) b t a e = cc

  pub begin_text-Means :
      (r : Regexp) (b t a : Bytes)
      → is_op begin_text r ≡ true
      → Means fold boundary r b t a ↔ ((t ≡ []) × (b ≡ []))
  begin_text-Means (node begin_text h subs) b t a e = (λ x. x, λ x. x)
  begin_text-Means (node _ h subs) b t a e = cc

  pub end_text-Means :
      (r : Regexp) (b t a : Bytes)
      → is_op end_text r ≡ true
      → Means fold boundary r b t a ↔ ((t ≡ []) × (a ≡ []))
  end_text-Means (node end_text h subs) b t a e = (λ x. x, λ x. x)
  end_text-Means (node _ h subs) b t a e = cc
