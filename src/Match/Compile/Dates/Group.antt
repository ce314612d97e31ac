-- ===== src/Match/Compile/Dates/Group.antt =====
-- `isMultiDigits` of match/cmp.go: what a group of digits means.
use mathlib.Core.Path.{subst}
use elastic_agent_libs.Prelude.{
  ℕ, suc, ◌+◌, Bytes, Bool, true, ◌&&◌, [], ◌∷◌, ◌++◌, some, length, length-append, is_digit, ◌≡◌,
  ◌↔◌, refl, ap, sym, ◌∙◌, arith,
}
use elastic_agent_libs.Match.Regex.{
  char_class, concat, Head, Regexp, node, Subs, no_subs, sub, subs_of, eq_regex,
}
use elastic_agent_libs.Match.Classify.{
  Patterns, is_op, all_same, is_concat_repetition, is_multi_digits, subs_length,
}
use elastic_agent_libs.Match.Compile.{digit_len}
use elastic_agent_libs.Match.Meaning.{Means, MeansAll, in_class}
use elastic_agent_libs.Match.Meaning.Literal.{concat-Means}
use elastic_agent_libs.Match.Meaning.Equal.{eq_regex-Means}
use elastic_agent_libs.Match.Compile.Protos.{leaf}
use elastic_agent_libs.Match.Compile.Dates.Scan.{all_digits, Digits}

-- The class of the digits.
abbrev pub digit_class : Bytes
digit_class = 48 ∷ 57 ∷ []

in_digit_class : (c : ℕ) → in_class c digit_class ≡ is_digit c
in_digit_class c = ground arith

one_digit : (t : Bytes) → ((c : ℕ) × (t ≡ c ∷ []) × (is_digit c ≡ true)) ↔ Digits 1 t
one_digit [] = ((λ w. cc w.1), (λ w. absurd (no_length w.0)))
  where
    no_length : ◌≡◌ {A = ℕ} 0 1 → ⊥
    no_length e = omega (arith, e)
one_digit (c ∷ s) = (
  λ w. (ap length w.1, ap all_digits w.1 ∙ ground (arith, w.2)),
  λ w. (c, ap (◌∷◌ c) (empty s (omega (arith, w.0))), ground (arith, w.1)),
)
  where
    empty : (s : Bytes) → length s ≡ 0 → s ≡ []
    empty [] e = refl
    empty (x ∷ s) e = absurd (omega arith)

all_digits-append : (x y : Bytes) → all_digits (x ++ y) ≡ (all_digits x && all_digits y)
all_digits-append [] y = refl
all_digits-append (c ∷ x) y = ground (arith, all_digits-append x y)

Digits-append : (m n : ℕ) (x y : Bytes) → Digits m x → Digits n y → Digits (m + n) (x ++ y)
Digits-append m n x y p q =
    (omega (arith, length-append x y, p.0, q.0), all_digits-append x y ∙ ground (arith, p.1, q.1))

Digits-suc :
    (n : ℕ) (t : Bytes)
    → Digits (suc n) t
    → (x : Bytes) × (y : Bytes) × (t ≡ x ++ y) × Digits 1 x × Digits n y
Digits-suc n [] w = absurd (omega (arith, w.0))
Digits-suc n (c ∷ s) w =
    (c ∷ [], s, refl, (refl, ground (arith, w.1)), (omega (arith, w.0), ground (arith, w.1)))

module _ (fold : ℕ → ℕ) (boundary : Bytes → Bytes → Bool) (pats : Patterns) (d : Head)
    (is : pats.digit ≡ leaf char_class d) (class : d.runes ≡ digit_class) where
  class-Digits : (b t a : Bytes) → Means fold boundary (leaf char_class d) b t a ↔ Digits 1 t
  class-Digits b t a = (
    λ m. (one_digit t).0 (m.0, m.1, sym (in_digit_class m.0) ∙ ap (in_class m.0) (sym class) ∙ m.2),
    λ w.
        let m = (one_digit t).1 w in (m.0, m.1, ap (in_class m.0) class ∙ in_digit_class m.0 ∙ m.2),
  )

  digit-Means :
      (r : Regexp) (b t a : Bytes)
      → eq_regex r pats.digit ≡ true
      → Means fold boundary r b t a ↔ Digits 1 t
  digit-Means r b t a e =
      let same =
        eq_regex-Means fold boundary r (leaf char_class d) (ap (eq_regex r) (sym is) ∙ e) b t a in
      ((λ m. (class-Digits b t a).0 (same.0 m)), (λ w. same.1 ((class-Digits b t a).1 w)))

  copies-Means :
      (first : Regexp) (subs : Subs) (b t a : Bytes)
      → eq_regex first pats.digit ≡ true
      → all_same first subs ≡ true
      → MeansAll fold boundary subs b t a ↔ Digits (subs_length subs) t
  unfolding all_same
  copies-Means first no_subs b t a e s =
      ((λ w. (ap length w, ap all_digits w)), (λ w. no_length t w.0))
    where
      no_length : (t : Bytes) → length t ≡ 0 → t ≡ []
      no_length [] e = refl
      no_length (x ∷ s) e = absurd (omega arith)
  copies-Means first (sub r subs) b t a e s = (
    λ m.
        let (x, y, w, p, q) = m in
        subst (Digits (suc (subs_length subs))) (sym w) (
          subst (λ n. Digits n (x ++ y)) (omega arith)
            (Digits-append 1 (subs_length subs) x y
              ((class-Digits b x (y ++ a)).0 ((like_first r b x (y ++ a) (ground arith)).0 p))
              ((copies-Means first subs (b ++ x) y a e (ground arith)).0 q))),
    λ w.
        let (x, y, split, one, more) = Digits-suc (subs_length subs) t w in
        (
          x,
          y,
          split,
          (like_first r b x (y ++ a) (ground arith)).1 ((class-Digits b x (y ++ a)).1 one),
          (copies-Means first subs (b ++ x) y a e (ground arith)).1 more,
        ),
  )
    where
      like_first :
          (r : Regexp) (b t a : Bytes)
          → eq_regex r first ≡ true
          → Means fold boundary r b t a ↔ Means fold boundary (leaf char_class d) b t a
      like_first r b t a h =
          let p = eq_regex-Means fold boundary r first h b t a in
          let q =
            eq_regex-Means fold boundary first (leaf char_class d)
              (ap (eq_regex first) (sym is) ∙ e) b t a in
          ((λ m. q.0 (p.0 m)), (λ m. p.1 (q.1 m)))

  -- What `isMultiDigits` tells of an expression.
  pub record MultiDigits (r : Regexp) : Type 0 where
    pub first : Regexp
    pub rest : Subs
    pub parts : subs_of r ≡ sub first rest
    pub con : is_op concat r ≡ true
    pub same : all_same first rest ≡ true
    pub digit : eq_regex first pats.digit ≡ true

  pub multi_digits : (r : Regexp) → is_multi_digits pats r ≡ some true → MultiDigits r
  unfolding is_multi_digits is_concat_repetition
  multi_digits (node op h no_subs) e = absurd (ground arith)
  multi_digits (node op h (sub first rest)) e = record {
    first = first;
    rest = rest;
    parts = refl;
    con = ground arith;
    same = ground arith;
    digit = ground arith;
  }

  copies_all :
      (first : Regexp) (rest : Subs) (b t a : Bytes)
      → eq_regex first pats.digit ≡ true
      → all_same first rest ≡ true
      → MeansAll fold boundary (sub first rest) b t a ↔ Digits (suc (subs_length rest)) t
  copies_all first rest b t a e s = (
    λ m.
        let (x, y, w, p, q) = m in
        subst (Digits (suc (subs_length rest))) (sym w) (
          subst (λ n. Digits n (x ++ y)) (omega arith)
            (Digits-append 1 (subs_length rest) x y ((digit-Means first b x (y ++ a) e).0 p)
              ((copies-Means first rest (b ++ x) y a e s).0 q))),
    λ w.
        let (x, y, split, one, more) = Digits-suc (subs_length rest) t w in
        (
          x,
          y,
          split,
          (digit-Means first b x (y ++ a) e).1 one,
          (copies-Means first rest (b ++ x) y a e s).1 more,
        ),
  )

  -- A group of digits means as many digits as it has parts.
  pub multi-Means :
      (r : Regexp) (b t a : Bytes)
      → is_multi_digits pats r ≡ some true
      → Means fold boundary r b t a ↔ Digits (digit_len r) t
  multi-Means r b t a e =
      let w = multi_digits r e in
      let con = concat-Means fold boundary r b t a w.con in
      let all = copies_all w.first w.rest b t a w.digit w.same in
      let len : digit_len r ≡ suc (subs_length w.rest) = rw w.con (ap subs_length w.parts) in
      (
        (λ m.
            subst (λ n. Digits n t) (sym len)
              (all.0 (subst (λ s. MeansAll fold boundary s b t a) w.parts (con.0 m)))),
        (λ k. con.1 (
            subst (λ s. MeansAll fold boundary s b t a) (sym w.parts)
              (all.1 (subst (λ n. Digits n t) len k)))),
      )
