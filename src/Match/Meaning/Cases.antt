-- ===== src/Match/Meaning/Cases.antt =====
-- The forms of match/cmp.go: what each of them finds in a text.
use mathlib.Core.List.{append-nil}
use mathlib.Core.Path.{subst, ap₂}
use elastic_agent_libs.Prelude.{
  ℕ, Bytes, Bool, true, Bool-cases, List, [], ◌∷◌, ◌++◌, ◌≡◌, ◌↔◌, ◌⊎◌, inl, inr, refl, ap, sym,
  ◌∙◌, arith,
}
use elastic_agent_libs.Match.Regex.{
  Op, begin_text, end_text, concat, Head, Regexp, node, Subs, no_subs, sub,
}
use elastic_agent_libs.Match.Classify.{is_op, all_regular_literals}
use elastic_agent_libs.Match.Matchers.{any_literal}
use elastic_agent_libs.Match.Compile.{literals_of}
use elastic_agent_libs.Match.Meaning.{Means, MeansAll, MeansAny, Finds}
use elastic_agent_libs.Match.Meaning.Literal.{
  literal-Means, concat-Means, begin_text-Means, end_text-Means,
}

-- The text is one of the literals.
abbrev pub IsOneOf : Bytes → List Bytes → Type 0
IsOneOf t [] = ⊥
IsOneOf t (l ∷ ls) = (t ≡ l) ⊎ IsOneOf t ls

any_literal-some :
    (test : Bytes → Bool) (ls : List Bytes)
    → any_literal test ls ≡ true
    → (l : Bytes) × IsOneOf l ls × (test l ≡ true)
any_literal-some test [] h = cc
any_literal-some test (l ∷ ls) h = elim (Bool-cases (test l)) [
  | inl here ↦ (l, inl refl, here)
  | inr later ↦ let w = any_literal-some test ls (ground arith) in (w.0, inr w.1, w.2)
]

any_literal-one :
    (test : Bytes → Bool) (ls : List Bytes) (k : Bytes)
    → IsOneOf k ls
    → test k ≡ true
    → any_literal test ls ≡ true
any_literal-one test [] k one h = absurd one
any_literal-one test (l ∷ ls) k (inl e) h = rw (ap test (sym e) ∙ h) refl
any_literal-one test (l ∷ ls) k (inr one) h = ground (arith, any_literal-one test ls k one h)

pub any_literal_iff :
    (test : Bytes → Bool) (ls : List Bytes)
    → (any_literal test ls ≡ true) ↔ ((l : Bytes) × IsOneOf l ls × (test l ≡ true))
any_literal_iff test ls = (any_literal-some test ls, λ w. any_literal-one test ls w.0 w.1 w.2)

either_iff {ℓ} : {A B C D : Type ℓ} → A ↔ B → C ↔ D → (A ⊎ C) ↔ (B ⊎ D)
either_iff p q = (
  λ w. elim w [ inl a ↦ inl (p.0 a) | inr c ↦ inr (q.0 c) ],
  λ w. elim w [ inl b ↦ inl (p.1 b) | inr d ↦ inr (q.1 d) ],
)

module _ (fold : ℕ → ℕ) (boundary : Bytes → Bytes → Bool) where
  pub alternate_literals :
      (subs : Subs) (b t a : Bytes)
      → all_regular_literals subs ≡ true
      → MeansAny fold boundary subs b t a ↔ IsOneOf t (literals_of subs)
  alternate_literals no_subs b t a h = ((λ w. w), (λ w. w))
  alternate_literals (sub r subs) b t a h =
      either_iff (literal-Means fold boundary r b t a (ground arith))
        (alternate_literals subs b t a (ground arith))

  pub single-Means :
      (r : Regexp) (b t a : Bytes)
      → MeansAll fold boundary (sub r no_subs) b t a ↔ Means fold boundary r b t a
  single-Means r b t a = (there, λ m. (t, [], sym (append-nil t), m, refl))
    where
      there : MeansAll fold boundary (sub r no_subs) b t a → Means fold boundary r b t a
      there (x, y, e, m, none) =
          let same : t ≡ x = e ∙ ap (λ z. x ++ z) none ∙ append-nil x in
          subst (λ z. Means fold boundary r b z a) (sym same)
            (subst (λ z. Means fold boundary r b x (z ++ a)) none m)

  -- A concatenation that begins at the beginning of the text.
  pub begin-Finds :
      (op : Op) (h : Head) (r : Regexp) (rest : Subs) (text : Bytes)
      → is_op concat (node op h (sub r rest)) ≡ true
      → is_op begin_text r ≡ true
      → Finds fold boundary (node op h (sub r rest)) text ↔ (
          (t : Bytes) × (behind : Bytes) × (t ++ behind ≡ text)
          × MeansAll fold boundary rest [] t behind)
  begin-Finds op h r rest text con beg = (there, back)
    where
      there :
          Finds fold boundary (node op h (sub r rest)) text
          → (t : Bytes) × (behind : Bytes) × (t ++ behind ≡ text)
            × MeansAll fold boundary rest [] t behind
      there (before, found, behind, e, m) =
          let (x, y, e₁, first, later) =
            (concat-Means fold boundary (node op h (sub r rest)) before found behind con).0 m in
          let (none, start) =
            (begin_text-Means fold boundary r before x (y ++ behind) beg).0 first in
          (
            y,
            behind,
            sym (ap₂ (λ b f. b ++ (f ++ behind)) start (e₁ ∙ ap (λ z. z ++ y) none)) ∙ e,
            subst (λ z. MeansAll fold boundary rest z y behind) (ap₂ ◌++◌ start none) later,
          )

      back :
          ((t : Bytes) × (behind : Bytes) × (t ++ behind ≡ text)
            × MeansAll fold boundary rest [] t behind)
          → Finds fold boundary (node op h (sub r rest)) text
      back (t, behind, e, m) = (
        [],
        t,
        behind,
        e,
        (concat-Means fold boundary (node op h (sub r rest)) [] t behind con).1 (
          [],
          t,
          refl,
          (begin_text-Means fold boundary r [] [] (t ++ behind) beg).1 (refl, refl),
          m,
        ),
      )

  -- A part before the end of the text.
  pub end-Means :
      (r last : Regexp) (t behind : Bytes)
      → is_op end_text last ≡ true
      → MeansAll fold boundary (sub r (sub last no_subs)) [] t behind
        ↔ (Means fold boundary r [] t [] × (behind ≡ []))
  end-Means r last t behind fin = (there, back)
    where
      there :
          MeansAll fold boundary (sub r (sub last no_subs)) [] t behind
          → Means fold boundary r [] t [] × (behind ≡ [])
      there (x, y, e, m, rest) =
          let (none, ends) =
            (end_text-Means fold boundary last x y behind fin).0
              ((single-Means last x y behind).0 rest) in
          (
            subst (λ z. Means fold boundary r [] z [])
                (sym (e ∙ ap (λ z. x ++ z) none ∙ append-nil x))
                (subst (λ z. Means fold boundary r [] x z) (ap₂ ◌++◌ none ends) m),
            ends,
          )

      back :
          Means fold boundary r [] t [] × (behind ≡ [])
          → MeansAll fold boundary (sub r (sub last no_subs)) [] t behind
      back (m, ends) = (
        t,
        [],
        sym (append-nil t),
        subst (λ z. Means fold boundary r [] t z) (sym ends) m,
        (single-Means last t [] behind).1
            ((end_text-Means fold boundary last t [] behind fin).1 (refl, ends)),
      )
