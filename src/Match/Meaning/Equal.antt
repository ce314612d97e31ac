-- ===== src/Match/Meaning/Equal.antt =====
-- `eqRegex` of match/cmp.go: equal trees mean the same.
use mathlib.Core.Path.{subst}
use elastic_agent_libs.Prelude.{
  ℕ, zero, suc, Bytes, eq_bytes_iff, Bool, true, List, [], ◌∷◌, ◌++◌, get_elem?, Option, none, some,
  ==_iff, ◌≡◌, ◌↔◌, inl, inr, refl, ap, sym, ◌∙◌, arith,
}
use elastic_agent_libs.Match.Regex.{
  Op, no_match, empty_match, literal, char_class, any_char_not_nl, any_char, begin_line, end_line,
  begin_text, end_text, word_boundary, no_word_boundary, capture, star, plus, quest, repeat, concat,
  alternate, Head, Regexp, node, Subs, no_subs, sub, op_code, eq_max, eq_regex, eq_subs,
}
use elastic_agent_libs.Match.Meaning.{Language, Times, Means, MeansAll, MeansAny, Finds}

abbrev all_ops : List Op
all_ops =
    no_match ∷ no_match ∷ empty_match ∷ literal ∷ char_class ∷ any_char_not_nl ∷ any_char
    ∷ begin_line ∷ end_line ∷ begin_text ∷ end_text ∷ word_boundary ∷ no_word_boundary ∷ capture
    ∷ star ∷ plus ∷ quest ∷ repeat ∷ concat ∷ alternate ∷ []

op_of_code : ℕ → Op
op_of_code n = elim (get_elem? all_ops n) [ some o ↦ o | none ↦ no_match ]

op_of_code-op_code : (op : Op) → op_of_code (op_code op) ≡ op
unfolding op_of_code
op_of_code-op_code no_match = refl
op_of_code-op_code _ = refl

op_code-injective : (o p : Op) → op_code o ≡ op_code p → o ≡ p
op_code-injective o p e = sym (op_of_code-op_code o) ∙ ap op_of_code e ∙ op_of_code-op_code p

eq_max-eq : (m n : Option ℕ) → eq_max m n ≡ true → m ≡ n
eq_max-eq none none h = refl
eq_max-eq (some a) (some b) h = ap some ((==_iff a b).0 h)
eq_max-eq none (some b) h = cc
eq_max-eq (some a) none h = cc

abbrev moved : Head → ℕ → Head
moved h k = record h { address = k }

moved-eq :
    (h h' : Head)
    → h.flags ≡ h'.flags
    → h.min ≡ h'.min
    → h.max ≡ h'.max
    → h.runes ≡ h'.runes
    → moved h h'.address ≡ h'
moved-eq h h' a b c d =
    λ i. record { address = h'.address; flags = a i; min = b i; max = c i; runes = d i }

Times_congr :
    (P Q : Language) (n : ℕ) (b t a : Bytes)
    → ((b t a : Bytes) → P b t a ↔ Q b t a)
    → Times P n b t a
    → Times Q n b t a
Times_congr P Q zero b t a same w = w
Times_congr P Q (suc n) b t a same (x, y, e, p, q) =
    (x, y, e, (same b x (y ++ a)).0 p, Times_congr P Q n (b ++ x) y a same q)

iff_sym {ℓ} : {A B : Type ℓ} → A ↔ B → B ↔ A
iff_sym p = (p.1, p.0)

module _ (fold : ℕ → ℕ) (boundary : Bytes → Bytes → Bool) where
  same-Means :
      (op : Op) (h : Head) (k : ℕ) (s s' : Subs)
      → ((b t a : Bytes) → MeansAll fold boundary s b t a ↔ MeansAll fold boundary s' b t a)
      → ((b t a : Bytes) → MeansAny fold boundary s b t a ↔ MeansAny fold boundary s' b t a)
      → (b t a : Bytes) → Means fold boundary (node op h s) b t a
      → Means fold boundary (node op (moved h k) s') b t a
  same-Means capture h k s s' all any b t a m = (all b t a).0 m
  same-Means concat h k s s' all any b t a m = (all b t a).0 m
  same-Means alternate h k s s' all any b t a m = (any b t a).0 m
  same-Means star h k s s' all any b t a (n, m) = (n, Times_congr _ _ n b t a all m)
  same-Means plus h k s s' all any b t a (n, m) = (n, Times_congr _ _ (suc n) b t a all m)
  same-Means repeat h k s s' all any b t a (n, low, high, m) =
      (n, low, high, Times_congr _ _ n b t a all m)
  same-Means quest h k s s' all any b t a (inl empty) = inl empty
  same-Means quest h k s s' all any b t a (inr m) = inr ((all b t a).0 m)
  same-Means _ h k s s' all any b t a m = m

  Same-node :
      (op op' : Op) (h h' : Head) (s s' : Subs)
      → op ≡ op'
      → moved h h'.address ≡ h'
      → moved h' h.address ≡ h
      → ((b t a : Bytes) → MeansAll fold boundary s b t a ↔ MeansAll fold boundary s' b t a)
      → ((b t a : Bytes) → MeansAny fold boundary s b t a ↔ MeansAny fold boundary s' b t a)
      → (b t a : Bytes)
      → Means fold boundary (node op h s) b t a ↔ Means fold boundary (node op' h' s') b t a
  Same-node op op' h h' s s' o e e' all any b t a =
      subst
        (λ z. Means fold boundary (node op h s) b t a ↔ Means fold boundary (node z h' s') b t a) o
        (
          (λ m.
              subst (λ z. Means fold boundary (node op z s') b t a) e
                (same-Means op h h'.address s s' all any b t a m)),
          (λ m.
              subst (λ z. Means fold boundary (node op z s) b t a) e'
                (same-Means op h' h.address s' s (λ b t a. iff_sym (all b t a))
                  (λ b t a. iff_sym (any b t a)) b t a m)),
        )

  mutual
    unfolding eq_regex

    -- Trees that `eqRegex` takes for equal mean the same.
    pub eq_regex-Means :
        (r p : Regexp)
        → eq_regex r p ≡ true
        → (b t a : Bytes) → Means fold boundary r b t a ↔ Means fold boundary p b t a
    eq_regex-Means (node op h s) (node op' h' s') e =
        let codes : op_code op ≡ op_code op' = ground (arith, ==_iff (op_code op) (op_code op')) in
        let flags : h.flags ≡ h'.flags = ground (arith, ==_iff h.flags h'.flags) in
        let low : h.min ≡ h'.min = ground (arith, ==_iff h.min h'.min) in
        let high : h.max ≡ h'.max = eq_max-eq h.max h'.max (ground arith) in
        let runes : h.runes ≡ h'.runes = (eq_bytes_iff h.runes h'.runes).0 (ground arith) in
        Same-node op op' h h' s s' (op_code-injective op op' codes)
          (moved-eq h h' flags low high runes)
          (moved-eq h' h (sym flags) (sym low) (sym high) (sym runes))
          (eq_subs-MeansAll s s' (ground arith)) (eq_subs-MeansAny s s' (ground arith))

    eq_subs-MeansAll :
        (s s' : Subs)
        → eq_subs s s' ≡ true
        → (b t a : Bytes) → MeansAll fold boundary s b t a ↔ MeansAll fold boundary s' b t a
    eq_subs-MeansAll no_subs no_subs e b t a = ((λ m. m), (λ m. m))
    eq_subs-MeansAll (sub r s) (sub r' s') e b t a = (
      λ m.
          let (x, y, w, p, q) = m in
          (
            x,
            y,
            w,
            (eq_regex-Means r r' (ground arith) b x (y ++ a)).0 p,
            (eq_subs-MeansAll s s' (ground arith) (b ++ x) y a).0 q,
          ),
      λ m.
          let (x, y, w, p, q) = m in
          (
            x,
            y,
            w,
            (eq_regex-Means r r' (ground arith) b x (y ++ a)).1 p,
            (eq_subs-MeansAll s s' (ground arith) (b ++ x) y a).1 q,
          ),
    )
    eq_subs-MeansAll no_subs (sub r' s') e b t a = cc
    eq_subs-MeansAll (sub r s) no_subs e b t a = cc

    eq_subs-MeansAny :
        (s s' : Subs)
        → eq_subs s s' ≡ true
        → (b t a : Bytes) → MeansAny fold boundary s b t a ↔ MeansAny fold boundary s' b t a
    eq_subs-MeansAny no_subs no_subs e b t a = ((λ m. m), (λ m. m))
    eq_subs-MeansAny (sub r s) (sub r' s') e b t a = (
      λ m. elim m [
        | inl p ↦ inl ((eq_regex-Means r r' (ground arith) b t a).0 p)
        | inr q ↦ inr ((eq_subs-MeansAny s s' (ground arith) b t a).0 q)
      ],
      λ m. elim m [
        | inl p ↦ inl ((eq_regex-Means r r' (ground arith) b t a).1 p)
        | inr q ↦ inr ((eq_subs-MeansAny s s' (ground arith) b t a).1 q)
      ],
    )
    eq_subs-MeansAny no_subs (sub r' s') e b t a = cc
    eq_subs-MeansAny (sub r s) no_subs e b t a = cc

  -- Two expressions that `eqRegex` takes for equal are found in the same texts.
  pub eq_regex-Finds :
      (r p : Regexp) (text : Bytes)
      → eq_regex r p ≡ true
      → Finds fold boundary r text ↔ Finds fold boundary p text
  eq_regex-Finds r p text e = (
    λ w. let (b, t, a, s, m) = w in (b, t, a, s, (eq_regex-Means r p e b t a).0 m),
    λ w. let (b, t, a, s, m) = w in (b, t, a, s, (eq_regex-Means r p e b t a).1 m),
  )
