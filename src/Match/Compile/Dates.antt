-- ===== src/Match/Compile/Dates.antt =====
-- `prefixNumDate` of match/matchers.go against the expressions that it stands for: digits between
-- literals at the beginning of the text.
pub mod Scan
pub mod Group
use mathlib.Core.List.{append-nil, append_assoc}
use mathlib.Core.Path.{subst, ap₂}
use elastic_agent_libs.Prelude.{
  ℕ, zero, suc, ◌+◌, ◌≤◌, ◌<◌, Bytes, eq_bytes, eq_bytes_iff, Bool, true, false, ◌&&◌, Bool-cases,
  List, [], ◌∷◌, ◌++◌, Option, none, some, some_inj, length, length-append, take, drop, ltb, leb,
  is_digit, if◌then◌else◌, Result, ok, err, ◌>>=◌, >>=-eq-ok, ok-injective, ◌==◌, ==_iff, ◌≡◌, ◌↔◌,
  ◌⊎◌, inl, inr, refl, ap, sym, ◌∙◌, arith,
}
use elastic_agent_libs.Match.Regex.{
  Op, literal, char_class, begin_text, concat, Head, Regexp, node, Subs, no_subs, sub, head_of,
  runes_of, subs_of, op_code, op_of, eq_regex,
}
use elastic_agent_libs.Match.Classify.{
  Patterns, is_op, is_regular_literal, all_same, is_concat_repetition, is_multi_digits,
  separated_digits, digits_first, is_prefix_num_date, subs_length,
}
use elastic_agent_libs.Match.Matchers.{
  Stop, mismatch, out_of_range, NumDate, has_prefix, skip_digits, skip_bytes, skip_groups,
  match_num_date, answer,
}
use elastic_agent_libs.Match.Compile.{
  digit_len, num_date_groups, groups_length, num_date, compile_prefix_num_date,
}
use elastic_agent_libs.Match.Meaning.{Means, MeansAll, Finds, in_class}
use elastic_agent_libs.Match.Meaning.Texts.{take-append, drop-append, take-drop, has_prefix_iff}
use elastic_agent_libs.Match.Meaning.Literal.{literal-Means, concat-Means}
use elastic_agent_libs.Match.Meaning.Cases.{begin-Finds, single-Means}
use elastic_agent_libs.Match.Meaning.Equal.{eq_regex-Means}
use elastic_agent_libs.Match.Compile.Protos.{leaf}
use elastic_agent_libs.Match.Compile.Dates.Scan.{Digits, Dates, HasDate, num_date_iff}
use elastic_agent_libs.Match.Compile.Dates.Group.{digit_class, multi_digits, multi-Means}

digits_then :
    (o later : Option Bool)
    → (elim o [ some true ↦ later | some false ↦ some false | none ↦ none ]) ≡ some true
    → (o ≡ some true) × (later ≡ some true)
digits_then (some true) later h = (refl, h)
digits_then (some false) later h = cc
digits_then none later h = cc

separated_parts :
    (pats : Patterns) (lit digits : Regexp) (rest : Subs)
    → separated_digits pats (sub lit (sub digits rest)) ≡ some true
    → (is_regular_literal lit ≡ true)
      × (is_multi_digits pats digits ≡ some true)
      × (separated_digits pats rest ≡ some true)
unfolding separated_digits
separated_parts pats lit digits rest h = elim (Bool-cases (is_regular_literal lit)) [
  | inl yes_lit ↦
      let p =
        digits_then (is_multi_digits pats digits) (separated_digits pats rest) (rw yes_lit at h) in
      (yes_lit, p.0, p.1)
  | inr no_lit ↦ cc (rw no_lit at h)
]

-- What `isPrefixNumDate` tells of an expression of two parts or more.
date_parts :
    (pats : Patterns) (op : Op) (h : Head) (a b : Regexp) (rest : Subs)
    → is_prefix_num_date pats (node op h (sub a (sub b rest))) ≡ some true
    → (is_op concat (node op h (sub a (sub b rest))) ≡ true)
      × (is_op begin_text a ≡ true)
      × (((is_regular_literal b ≡ true) × (digits_first pats rest ≡ some true))
          ⊎ ((is_regular_literal b ≡ false) × (digits_first pats (sub b rest) ≡ some true)))
unfolding is_prefix_num_date
date_parts pats op h a b rest e = elim (Bool-cases (op_code op == op_code concat)) [
  | inr other ↦ cc (rw other at e)
  | inl con ↦ elim (Bool-cases (is_op begin_text a)) [
    | inr other ↦ cc (rw (con, other) at e)
    | inl beg ↦ elim (Bool-cases (is_regular_literal b)) [
      | inl lit ↦ (con, beg, inl (lit, rw (con, beg, lit) at e))
      | inr no_lit ↦ (con, beg, inr (no_lit, rw (con, beg, no_lit) at e))
    ]
  ]
]

module _ (fold : ℕ → ℕ) (boundary : Bytes → Bytes → Bool) (pats : Patterns) (d : Head)
    (is : pats.digit ≡ leaf char_class d) (class : d.runes ≡ digit_class) where
  separated-Means :
      (rest : Subs) (b t a : Bytes)
      → separated_digits pats rest ≡ some true
      → MeansAll fold boundary rest b t a
        ↔ Dates (num_date_groups rest).0 (num_date_groups rest).1 t
  unfolding separated_digits num_date_groups
  separated-Means no_subs b t a e = ((λ w. w), (λ w. w))
  separated-Means (sub lit no_subs) b t a e =
      let one = single-Means fold boundary lit b t a in
      let means = literal-Means fold boundary lit b t a (some_inj e) in
      ((λ m. means.0 (one.0 m)), (λ w. one.1 (means.1 w)))
  separated-Means (sub lit (sub digits rest)) b t a e =
      let (is_lit, is_digits, later) = separated_parts pats lit digits rest e in
      (
        λ m.
            let (x, y, w, p, more) = m in
            let (z, v, u, q, k) = more in
            (
              z,
              v,
              w ∙ ap₂ ◌++◌ ((literal-Means fold boundary lit b x (y ++ a) is_lit).0 p) u,
              (multi-Means fold boundary pats d is class digits (b ++ x) z (v ++ a) is_digits).0 q,
              (separated-Means rest ((b ++ x) ++ z) v a later).0 k,
            ),
        λ u.
            let (z, v, w, k, g) = u in
            (
              runes_of lit,
              z ++ v,
              w,
              (literal-Means fold boundary lit b (runes_of lit) ((z ++ v) ++ a) is_lit).1 refl,
              (
                z,
                v,
                refl,
                (multi-Means fold boundary pats d is class digits (b ++ runes_of lit) z (v ++ a)
                      is_digits).1
                    k,
                (separated-Means rest ((b ++ runes_of lit) ++ z) v a later).1 g,
              ),
            ),
      )

  first-Means :
      (digits : Regexp) (more : Subs) (b t a : Bytes)
      → digits_first pats (sub digits more) ≡ some true
      → MeansAll fold boundary (sub digits more) b t a
        ↔ HasDate [] (digit_len digits) (num_date_groups more) t
  first-Means digits more b t a h =
      let p = digits_then (is_multi_digits pats digits) (separated_digits pats more) h in
      (
        λ m.
            let (x, y, w, q, k) = m in
            (
              x,
              y,
              w,
              (multi-Means fold boundary pats d is class digits b x (y ++ a) p.0).0 q,
              (separated-Means more (b ++ x) y a p.1).0 k,
            ),
        λ g.
            let (x, y, w, q, k) = g in
            (
              x,
              y,
              w,
              (multi-Means fold boundary pats d is class digits b x (y ++ a) p.0).1 q,
              (separated-Means more (b ++ x) y a p.1).1 k,
            ),
      )

  literal_first-Means :
      (lit digits : Regexp) (more : Subs) (b t a : Bytes)
      → is_regular_literal lit ≡ true
      → digits_first pats (sub digits more) ≡ some true
      → MeansAll fold boundary (sub lit (sub digits more)) b t a
        ↔ HasDate (runes_of lit) (digit_len digits) (num_date_groups more) t
  unfolding separated_digits num_date_groups
  literal_first-Means lit digits more b t a is_lit h =
      let p = digits_then (is_multi_digits pats digits) (separated_digits pats more) h in
      separated-Means (sub lit (sub digits more)) b t a (rw is_lit (rw p.0 p.1))

  -- What the matcher answers of the expression that `begin-Finds` speaks of.
  date-Finds :
      (op : Op) (h : Head) (r : Regexp) (rest : Subs) (text start : Bytes) (digits : ℕ)
      (groups : List (Bytes × ℕ) × Bytes)
      → is_op concat (node op h (sub r rest)) ≡ true
      → is_op begin_text r ≡ true
      → ((t a : Bytes) → MeansAll fold boundary rest [] t a ↔ HasDate start digits groups t)
      → (answer (match_num_date (num_date start digits groups) text) ≡ some true)
        ↔ Finds fold boundary (node op h (sub r rest)) text
  date-Finds op h r rest text start digits groups con beg means = (
    λ e.
        let (t, behind, w, k) = (num_date_iff start digits groups text).0 e in
        (begin-Finds fold boundary op h r rest text con beg).1 (t, behind, w, (means t behind).1 k),
    λ f.
        let (t, behind, w, m) = (begin-Finds fold boundary op h r rest text con beg).0 f in
        (num_date_iff start digits groups text).1 (t, behind, w, (means t behind).0 m),
  )

  not_literal : (r : Regexp) → is_multi_digits pats r ≡ some true → is_op literal r ≡ false
  not_literal r e =
      let w = multi_digits fold boundary pats d is class r e in
      let c = w.con in ground (arith, ==_iff (op_code (op_of r)) 18)

  -- `prefixNumDate` is right about the expressions that it is made for.
  pub num_date-Finds :
      (r : Regexp) (text : Bytes) {m : NumDate}
      → is_prefix_num_date pats r ≡ some true
      → compile_prefix_num_date r ≡ some m
      → (answer (match_num_date m text) ≡ some true) ↔ Finds fold boundary r text
  unfolding is_prefix_num_date compile_prefix_num_date
  num_date-Finds (node op h no_subs) text e c = cc
  num_date-Finds (node op h (sub a no_subs)) text e c = cc
  num_date-Finds (node op h (sub a (sub b no_subs))) text {m} e c =
      let (con, beg, which) = date_parts pats op h a b no_subs e in
      elim which [
        | inl w ↦ absurd (no_digits w.1)
        | inr w ↦
            let multi =
              (digits_then (is_multi_digits pats b) (separated_digits pats no_subs) w.1).0 in
            subst
              (λ m.
                (answer (match_num_date m text) ≡ some true)
                ↔ Finds fold boundary (node op h (sub a (sub b no_subs))) text)
              (some_inj (rw (not_literal b multi) at c))
              (date-Finds op h a (sub b no_subs) text [] (digit_len b) (num_date_groups no_subs) con
                beg (λ t z. first-Means b no_subs [] t z w.1))
      ]
    where
      no_digits : ◌≡◌ {A = Option Bool} none (some true) → ⊥
      no_digits x = cc
  num_date-Finds (node op h (sub a (sub b (sub digits more)))) text {m} e c =
      let (con, beg, which) = date_parts pats op h a b (sub digits more) e in
      elim which [
        | inl w ↦
            subst
              (λ m.
                (answer (match_num_date m text) ≡ some true)
                ↔ Finds fold boundary (node op h (sub a (sub b (sub digits more)))) text)
              (some_inj (rw (is_literal b w.0) at c))
              (date-Finds op h a (sub b (sub digits more)) text (runes_of b) (digit_len digits)
                (num_date_groups more) con beg
                (λ t z. literal_first-Means b digits more [] t z w.0 w.1))
        | inr w ↦
            let multi =
              (digits_then (is_multi_digits pats b) (separated_digits pats (sub digits more))
                w.1).0 in
            subst
              (λ m.
                (answer (match_num_date m text) ≡ some true)
                ↔ Finds fold boundary (node op h (sub a (sub b (sub digits more)))) text)
              (some_inj (rw (not_literal b multi) at c))
              (date-Finds op h a (sub b (sub digits more)) text [] (digit_len b)
                (num_date_groups (sub digits more)) con beg
                (λ t z. first-Means b (sub digits more) [] t z w.1))
      ]
    where
      is_literal : (r : Regexp) → is_regular_literal r ≡ true → is_op literal r ≡ true
      is_literal r l = ground arith
