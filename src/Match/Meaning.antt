-- ===== src/Match/Meaning.antt =====
-- What a syntax tree of package regexp/syntax matches, with no search order in it: the reference that
-- the matchers of the module match are compared with. `fold` is the folding of case, and `boundary` says
-- whether there is a word boundary between two texts.
pub mod Literal
pub mod Texts
pub mod Cases
pub mod Equal
use elastic_agent_libs.Prelude.{
  ℕ, zero, suc, ◌%◌, ◌≤◌, Bytes, Bool, true, false, ◌&&◌, ◌||◌, List, [], ◌∷◌, ◌++◌, Option, none,
  some, map, leb, ◌==◌, ◌≡◌, ◌≢◌, ◌⊎◌,
}
use elastic_agent_libs.Match.Regex.{
  Op, no_match, empty_match, literal, char_class, any_char_not_nl, any_char, begin_line, end_line,
  begin_text, end_text, word_boundary, no_word_boundary, capture, star, plus, quest, repeat, concat,
  alternate, Head, Regexp, node, Subs, no_subs, sub,
}

-- A language says of a text whether it may stand between two others.
abbrev pub Language : Type 1
Language = Bytes → Bytes → Bytes → Type 0

-- Two languages one behind the other.
abbrev pub Then : Language → Language → Language
Then P Q before text behind =
    (x : Bytes) × (y : Bytes) × (text ≡ x ++ y)
    × P before x (y ++ behind)
    × Q (before ++ x) y behind

abbrev pub Times : Language → ℕ → Language
Times P zero before text behind = text ≡ []
Times P (suc n) before text behind = Then P (Times P n) before text behind

abbrev pub AtMost : ℕ → Option ℕ → Type 0
AtMost n none = Unit
AtMost n (some m) = n ≤ m

-- The ranges of a character class.
abbrev pub in_class : ℕ → Bytes → Bool
in_class c (lo ∷ hi ∷ ranges) = (leb lo c && leb c hi) || in_class c ranges
in_class c _ = false

abbrev pub OneChar : (ℕ → Type 0) → Language
OneChar P before text behind = (c : ℕ) × (text ≡ c ∷ []) × P c

abbrev pub ends_line : Bytes → Bool
ends_line [] = true
ends_line (c ∷ []) = c == 10
ends_line (c ∷ d ∷ s) = ends_line (d ∷ s)

abbrev pub starts_with_newline : Bytes → Bool
starts_with_newline [] = true
starts_with_newline (c ∷ s) = c == 10

module _ (fold : ℕ → ℕ) (boundary : Bytes → Bytes → Bool) where
  abbrev mutual
    pub Means : Regexp → Language
    Means (node no_match h subs) before text behind = ⊥
    Means (node empty_match h subs) before text behind = text ≡ []
    Means (node literal h subs) before text behind =
        ((h.flags % 2 ≡ 0) × (text ≡ h.runes))
        ⊎ ((h.flags % 2 ≢ 0) × (map fold text ≡ map fold h.runes))
    Means (node char_class h subs) before text behind =
        OneChar (λ c. in_class c h.runes ≡ true) before text behind
    Means (node any_char_not_nl h subs) before text behind =
        OneChar (λ c. c ≢ 10) before text behind
    Means (node any_char h subs) before text behind = OneChar (λ c. Unit) before text behind
    Means (node begin_line h subs) before text behind = (text ≡ []) × (ends_line before ≡ true)
    Means (node end_line h subs) before text behind =
        (text ≡ []) × (starts_with_newline behind ≡ true)
    Means (node begin_text h subs) before text behind = (text ≡ []) × (before ≡ [])
    Means (node end_text h subs) before text behind = (text ≡ []) × (behind ≡ [])
    Means (node word_boundary h subs) before text behind =
        (text ≡ []) × (boundary before behind ≡ true)
    Means (node no_word_boundary h subs) before text behind =
        (text ≡ []) × (boundary before behind ≡ false)
    Means (node capture h subs) before text behind = MeansAll subs before text behind
    Means (node star h subs) before text behind =
        (n : ℕ) × Times (λ b t a. MeansAll subs b t a) n before text behind
    Means (node plus h subs) before text behind =
        (n : ℕ) × Times (λ b t a. MeansAll subs b t a) (suc n) before text behind
    Means (node quest h subs) before text behind = (text ≡ []) ⊎ MeansAll subs before text behind
    Means (node repeat h subs) before text behind =
        (n : ℕ) × (h.min ≤ n)
        × AtMost n h.max
        × Times (λ b t a. MeansAll subs b t a) n before text behind
    Means (node concat h subs) before text behind = MeansAll subs before text behind
    Means (node alternate h subs) before text behind = MeansAny subs before text behind

    -- The parts one behind the other.
    pub MeansAll : Subs → Language
    MeansAll no_subs before text behind = text ≡ []
    MeansAll (sub r subs) before text behind =
        (x : Bytes) × (y : Bytes) × (text ≡ x ++ y)
        × Means r before x (y ++ behind)
        × MeansAll subs (before ++ x) y behind

    -- One of the parts.
    pub MeansAny : Subs → Language
    MeansAny no_subs before text behind = ⊥
    MeansAny (sub r subs) before text behind =
        Means r before text behind ⊎ MeansAny subs before text behind

  -- The expression matches somewhere in the text, as `regexp.MatchString` says.
  abbrev pub Finds : Regexp → Bytes → Type 0
  Finds r text =
      (before : Bytes) × (found : Bytes) × (behind : Bytes) × (before ++ (found ++ behind) ≡ text)
      × Means r before found behind
