-- ===== src/Match/Compile/Protos.antt =====
-- The expressions of match/cmp.go that are compared as a whole: no text, white space, and any text.
use mathlib.Core.List.{append-nil}
use mathlib.Core.Path.{ap₂}
use elastic_agent_libs.Prelude.{
  ℕ, zero, suc, Bytes, Bool, true, false, ◌&&◌, not, [], ◌∷◌, ◌++◌, length, contains, ◌==◌, ◌≡◌,
  ◌≢◌, ◌↔◌, refl, ap, sym, ◌∙◌, arith,
}
use elastic_agent_libs.Match.Regex.{
  Op, char_class, any_char_not_nl, begin_text, end_text, star, concat, Head, Regexp, node, no_subs,
  sub,
}
use elastic_agent_libs.Match.Matchers.{all_white, is_white}
use elastic_agent_libs.Match.Meaning.{Language, Times, MeansAll, Finds, in_class}
use elastic_agent_libs.Match.Meaning.Cases.{single-Means}
use elastic_agent_libs.Match.Compile.Forms.{whole-Finds, start-Finds}

abbrev pub leaf : Op → Head → Regexp
leaf op h = node op h no_subs

-- `^$`, `^x*$`, `x*`, `^x*` and `x*$`.
abbrev pub empty_form : Head → Head → Head → Regexp
empty_form h a b = node concat h (sub (leaf begin_text a) (sub (leaf end_text b) no_subs))

abbrev pub star_form : Head → Regexp → Regexp
star_form h x = node star h (sub x no_subs)

abbrev pub whole_form : Head → Head → Regexp → Head → Regexp
whole_form h a x b = node concat h (sub (leaf begin_text a) (sub x (sub (leaf end_text b) no_subs)))

abbrev pub begin_form : Head → Head → Regexp → Regexp
begin_form h a x = node concat h (sub (leaf begin_text a) (sub x no_subs))

abbrev pub end_form : Head → Regexp → Head → Regexp
end_form h x b = node concat h (sub x (sub (leaf end_text b) no_subs))

-- The class `\s`.
abbrev pub white_class : Bytes
white_class = 9 ∷ 10 ∷ 12 ∷ 13 ∷ 32 ∷ 32 ∷ []

abbrev all_chars : (ℕ → Bool) → Bytes → Bool
all_chars test [] = true
all_chars test (c ∷ s) = test c && all_chars test s

-- A language of single characters, repeated.
Times-all_chars :
    (L : Language) (test : ℕ → Bool) (n : ℕ) (b t a : Bytes)
    → ((b t a : Bytes) → L b t a → (c : ℕ) × (t ≡ c ∷ []) × (test c ≡ true))
    → Times L n b t a
    → all_chars test t ≡ true
Times-all_chars L test zero b t a one w = ap (all_chars test) w
Times-all_chars L test (suc n) b t a one (x, y, e, p, q) =
    let (c, same, ok_c) = one b x (y ++ a) p in
    let rest = Times-all_chars L test n (b ++ x) y a one q in
    ap (all_chars test) (e ∙ ap (λ z. z ++ y) same) ∙ ground arith

all_chars-Times :
    (L : Language) (test : ℕ → Bool) (b t a : Bytes)
    → ((b a : Bytes) (c : ℕ) → test c ≡ true → L b (c ∷ []) a)
    → all_chars test t ≡ true
    → Times L (length t) b t a
all_chars-Times L test b [] a one h = refl
all_chars-Times L test b (c ∷ t) a one h = (
  c ∷ [],
  t,
  refl,
  one b (t ++ a) c (ground arith),
  all_chars-Times L test (b ++ c ∷ []) t a one (ground arith),
)

white-in_class : (c : ℕ) → is_white c ≡ in_class c white_class
white-in_class c = ground arith

all_white-all_chars : (t : Bytes) → all_white t ≡ all_chars (λ c. in_class c white_class) t
all_white-all_chars [] = refl
all_white-all_chars (c ∷ t) = ground (arith, white-in_class c, all_white-all_chars t)

ne_iff : (k : ℕ) → (not (k == 10) ≡ true) ↔ (k ≢ 10)
ne_iff k = ((λ h e. ground arith), (λ h. ground arith))

newline_free : (t : Bytes) → all_chars (λ c. not (c == 10)) t ≡ not (contains 10 t)
unfolding contains
newline_free [] = refl
newline_free (c ∷ t) = ground (arith, newline_free t)

no_newline_iff : (t : Bytes) → (contains 10 t ≡ false) ↔ (all_chars (λ c. not (c == 10)) t ≡ true)
no_newline_iff t = ((λ h. newline_free t ∙ ap not h), (λ h. ground (arith, newline_free t)))

empty_iff : (text : Bytes) → ((length text == 0) ≡ true) ↔ (text ≡ [])
empty_iff [] = ((λ e. refl), (λ e. refl))
empty_iff (c ∷ text) = ((λ e. absurd (suc-ne_zero e)), (λ e. cc))
  where
    suc-ne_zero : ((suc (length text) == 0) ≡ true) → ⊥
    suc-ne_zero e = ground arith

module _ (fold : ℕ → ℕ) (boundary : Bytes → Bytes → Bool) where
  -- `^$` is found in the empty text alone.
  pub empty-Finds :
      (h a b : Head) (text : Bytes)
      → ((length text == 0) ≡ true) ↔ Finds fold boundary (empty_form h a b) text
  empty-Finds h a b text = (
    λ e.
        (start-Finds fold boundary concat h (leaf begin_text a) (leaf end_text b) text refl refl).0
          ([], [], sym ((empty_iff text).0 e), (refl, refl)),
    λ w.
        let (t, behind, e, m) =
          (start-Finds fold boundary concat h (leaf begin_text a) (leaf end_text b) text refl
              refl).1
            w in
        (empty_iff text).1 (sym e ∙ ap₂ ◌++◌ m.0 m.1),
  )

  -- `^\s*$` is found in the texts of white space.
  pub white-Finds :
      (h a s c b : Head) (text : Bytes)
      → c.runes ≡ white_class
      → (all_white text ≡ true)
        ↔ Finds fold boundary (whole_form h a (star_form s (leaf char_class c)) b) text
  white-Finds h a s c b text class = (
    λ e.
        (whole-Finds fold boundary concat h (leaf begin_text a) x (leaf end_text b) text refl refl
            refl).0
          (
            length text,
            all_chars-Times
                (λ b t a. MeansAll fold boundary (sub (leaf char_class c) no_subs) b t a)
                (λ k. in_class k white_class) [] text []
                (λ b a k white.
                  (single-Means fold boundary (leaf char_class c) b (k ∷ []) a).1
                    (k, refl, ap (in_class k) class ∙ white))
                (sym (all_white-all_chars text) ∙ e),
          ),
    λ w.
        let (n, times) =
          (whole-Finds fold boundary concat h (leaf begin_text a) x (leaf end_text b) text refl refl
              refl).1
            w in
        all_white-all_chars text
        ∙ Times-all_chars _ (λ k. in_class k white_class) n [] text []
            (λ b t a m.
              let (k, e, white) = (single-Means fold boundary (leaf char_class c) b t a).0 m in
              (k, e, ap (in_class k) (sym class) ∙ white))
            times,
  )
    where
      x : Regexp
      x = star_form s (leaf char_class c)

  -- `.*`, `^.*` and `.*$` are found in every text.
  pub dot_star-Finds :
      (s : Head) (x : Regexp) (text : Bytes) → Finds fold boundary (star_form s x) text
  dot_star-Finds s x text = ([], [], text, refl, (0, refl))

  pub begin_star-Finds :
      (h a s : Head) (x : Regexp) (text : Bytes)
      → Finds fold boundary (begin_form h a (star_form s x)) text
  begin_star-Finds h a s x text =
      (start-Finds fold boundary concat h (leaf begin_text a) (star_form s x) text refl refl).0
        ([], text, refl, (0, refl))

  pub end_star-Finds :
      (h s : Head) (x : Regexp) (b : Head) (text : Bytes)
      → Finds fold boundary (end_form h (star_form s x) b) text
  end_star-Finds h s x b text =
      (text, [], [], append-nil text, ([], [], refl, (0, refl), ([], [], refl, (refl, refl), refl)))

  -- `^.*$` is found in the texts without a newline.
  pub whole_star-Finds :
      (h a s d b : Head) (text : Bytes)
      → (contains 10 text ≡ false)
        ↔ Finds fold boundary (whole_form h a (star_form s (leaf any_char_not_nl d)) b) text
  whole_star-Finds h a s d b text = (
    λ e.
        (whole-Finds fold boundary concat h (leaf begin_text a) x (leaf end_text b) text refl refl
            refl).0
          (
            length text,
            all_chars-Times
                (λ b t a. MeansAll fold boundary (sub (leaf any_char_not_nl d) no_subs) b t a)
                (λ k. not (k == 10)) [] text []
                (λ b a k other.
                  (single-Means fold boundary (leaf any_char_not_nl d) b (k ∷ []) a).1
                    (k, refl, (ne_iff k).0 other))
                ((no_newline_iff text).0 e),
          ),
    λ w.
        let (n, times) =
          (whole-Finds fold boundary concat h (leaf begin_text a) x (leaf end_text b) text refl refl
              refl).1
            w in
        (no_newline_iff text).1 (
          Times-all_chars _ (λ k. not (k == 10)) n [] text []
            (λ b t a m.
              let (k, e, other) = (single-Means fold boundary (leaf any_char_not_nl d) b t a).0 m in
              (k, e, (ne_iff k).1 other))
            times),
  )
    where
      x : Regexp
      x = star_form s (leaf any_char_not_nl d)
