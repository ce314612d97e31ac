-- ===== src/Match/Compile/Dates/Scan.antt =====
-- The loops of `prefixNumDate.Match` in match/matchers.go: which texts they go through.
use mathlib.Core.List.{append_assoc}
use mathlib.Core.Path.{ap₂}
use elastic_agent_libs.Prelude.{
  ℕ, zero, suc, ◌+◌, Bytes, eq_bytes, eq_bytes_iff, Bool, true, false, ◌&&◌, Bool-cases, List, [],
  ◌∷◌, ◌++◌, some, some_inj, length, length-append, take, ltb, is_digit, Result, ok, err, ◌>>=◌,
  >>=-eq-ok, ok-injective, ◌≡◌, ◌↔◌, inl, inr, refl, ap, sym, ◌∙◌, arith,
}
use elastic_agent_libs.Match.Matchers.{
  Stop, mismatch, out_of_range, has_prefix, skip_digits, skip_bytes, skip_groups, match_num_date,
  answer,
}
use elastic_agent_libs.Match.Compile.{groups_length, num_date}
use elastic_agent_libs.Match.Meaning.Texts.{take-append, drop-append, take-drop, has_prefix_iff}

abbrev pub all_digits : Bytes → Bool
all_digits [] = true
all_digits (c ∷ s) = is_digit c && all_digits s

-- A number of digits.
abbrev pub Digits : ℕ → Bytes → Type 0
Digits n x = (length x ≡ n) × (all_digits x ≡ true)

-- Groups of digits behind their separators, and the literal at the end.
abbrev pub Dates : List (Bytes × ℕ) → Bytes → Bytes → Type 0
Dates [] suffix t = t ≡ suffix
Dates ((sep, n) ∷ groups) suffix t =
    (x : Bytes) × (y : Bytes) × (t ≡ sep ++ (x ++ y)) × Digits n x × Dates groups suffix y

skip_bytes-append : (p r : Bytes) → skip_bytes p (p ++ r) ≡ ok r
skip_bytes-append p r =
    let whole : eq_bytes (take (length p) (p ++ r)) p ≡ true =
      (eq_bytes_iff (take (length p) (p ++ r)) p).1 (take-append p r) in
    let room : ltb (length (p ++ r)) (length p) ≡ false = ground (arith, length-append p r) in
    rw room (rw whole (ap ok (drop-append p r)))

skip_bytes-split : (p s : Bytes) {r : Bytes} → skip_bytes p s ≡ ok r → s ≡ p ++ r
skip_bytes-split p s h = elim (Bool-cases (ltb (length s) (length p))) [
  | inl short ↦ absurd (no_ok (rw short at h))
  | inr room ↦ elim (Bool-cases (eq_bytes (take (length p) s) p)) [
    | inl same ↦
        sym (take-drop (length p) s)
        ∙ ap₂ ◌++◌ ((eq_bytes_iff (take (length p) s) p).0 same)
            (ok-injective (rw (room, same) at h))
    | inr other ↦ absurd (no_match (rw (room, other) at h))
  ]
]
  where
    no_ok : {r : Bytes} → ◌≡◌ {A = Result Stop Bytes} (err out_of_range) (ok r) → ⊥
    no_ok e = cc

    no_match : {r : Bytes} → ◌≡◌ {A = Result Stop Bytes} (err mismatch) (ok r) → ⊥
    no_match e = cc

skip_digits-append : (x r : Bytes) → all_digits x ≡ true → skip_digits (length x) (x ++ r) ≡ ok r
unfolding skip_digits
skip_digits-append [] r h = refl
skip_digits-append (c ∷ x) r h = ground (arith, skip_digits-append x r)

skip_digits-split :
    (n : ℕ) (s : Bytes) {r : Bytes}
    → skip_digits n s ≡ ok r
    → (x : Bytes) × (s ≡ x ++ r) × Digits n x
unfolding skip_digits
skip_digits-split zero s h = ([], ok-injective h, (refl, refl))
skip_digits-split (suc n) [] h = cc
skip_digits-split (suc n) (c ∷ s) h = elim (Bool-cases (is_digit c)) [
  | inl digit ↦
      let (x, e, d) = skip_digits-split n s (rw (digit, skip_digits) at h) in
      (c ∷ x, ap (◌∷◌ c) e, (ap suc d.0, ground arith))
  | inr other ↦ cc (rw (other, skip_digits) at h)
]

skip_groups-append :
    (groups : List (Bytes × ℕ)) (suffix t behind : Bytes)
    → Dates groups suffix t
    → skip_groups groups (t ++ behind) ≡ ok (suffix ++ behind)
unfolding skip_groups
skip_groups-append [] suffix t behind w = ap (λ z. ok (z ++ behind)) w
skip_groups-append ((sep, n) ∷ groups) suffix t behind (x, y, e, d, w) =
    let split : t ++ behind ≡ sep ++ (x ++ (y ++ behind)) =
      ap (λ z. z ++ behind) e
      ∙ append_assoc sep (x ++ y) behind
      ∙ ap (λ z. sep ++ z) (append_assoc x y behind) in
    rw split (
      rw (skip_bytes-append sep (x ++ (y ++ behind)), ◌>>=◌)
        (rw (← d.0) (
          rw (skip_digits-append x (y ++ behind) d.1, ◌>>=◌)
            (skip_groups-append groups suffix y behind w))))

-- What the groups leave begins with the literal at the end.
skip_groups-split :
    (groups : List (Bytes × ℕ)) (s suffix behind : Bytes)
    → skip_groups groups s ≡ ok (suffix ++ behind)
    → (t : Bytes) × (s ≡ t ++ behind) × Dates groups suffix t
unfolding skip_groups
skip_groups-split [] s suffix behind h = (suffix, ok-injective h, refl)
skip_groups-split ((sep, n) ∷ groups) s suffix behind h =
    let (r₁, h₁, k₁) = >>=-eq-ok (skip_bytes sep s) _ h in
    let (r₂, h₂, k₂) = >>=-eq-ok (skip_digits n r₁) _ k₁ in
    let (x, e, d) = skip_digits-split n r₁ h₂ in
    let (t, e', w) = skip_groups-split groups r₂ suffix behind k₂ in
    (
      sep ++ (x ++ t),
      skip_bytes-split sep s h₁
          ∙ ap (λ z. sep ++ z) (e ∙ ap (λ z. x ++ z) e')
          ∙ sym (append_assoc sep (x ++ t) behind ∙ ap (λ z. sep ++ z) (append_assoc x t behind)),
      (x, t, refl, d, w),
    )

length-Dates :
    (groups : List (Bytes × ℕ)) (suffix t : Bytes)
    → Dates groups suffix t
    → length t ≡ groups_length groups + length suffix
length-Dates [] suffix t w = ap length w ∙ omega arith
length-Dates ((sep, n) ∷ groups) suffix t (x, y, e, d, w) =
    ap length e
    ∙ omega
        (arith, length-append sep (x ++ y), length-append x y, d.0, length-Dates groups suffix y w)

-- What the matcher looks for at the beginning of a text.
abbrev pub HasDate : Bytes → ℕ → List (Bytes × ℕ) × Bytes → Bytes → Type 0
HasDate start digits rest t = Dates ((start, digits) ∷ rest.0) rest.1 t

answer-true : (r : Result Stop Bool) → (answer r ≡ some true) ↔ (r ≡ ok true)
answer-true (ok b) = ((λ h. ap ok (some_inj h)), (λ h. ap some (ok-injective h)))
answer-true (err mismatch) = ((λ h. cc), (λ h. cc))
answer-true (err out_of_range) = ((λ h. cc), (λ h. cc))

num_date-found :
    (start : Bytes) (digits : ℕ) (rest : List (Bytes × ℕ) × Bytes) (t behind : Bytes)
    → HasDate start digits rest t
    → match_num_date (num_date start digits rest) (t ++ behind) ≡ ok true
unfolding match_num_date
num_date-found start digits rest t behind w =
    let long : ltb (length (t ++ behind))
          (length start + length rest.1 + digits + groups_length rest.0)
        ≡ false =
      ground (arith, length-append t behind, length-Dates ((start, digits) ∷ rest.0) rest.1 t w) in
    rw long (found (t ++ behind) (skip_groups-append ((start, digits) ∷ rest.0) rest.1 t behind w))
  where
    found :
        (s : Bytes)
        → skip_groups ((start, digits) ∷ rest.0) s ≡ ok (rest.1 ++ behind)
        → (skip_bytes start s >>= λ p.
            skip_digits digits p >>= λ f. skip_groups rest.0 f >>= λ g. ok (has_prefix g rest.1))
          ≡ ok true
    found s h =
        unfold skip_groups in
        let (r₁, h₁, k₁) = >>=-eq-ok (skip_bytes start s) _ h in
        let (r₂, h₂, k₂) = >>=-eq-ok (skip_digits digits r₁) _ k₁ in
        rw (h₁, ◌>>=◌)
          (rw (h₂, ◌>>=◌)
            (rw (k₂, ◌>>=◌) (ap ok ((has_prefix_iff (rest.1 ++ behind) rest.1).1 (behind, refl)))))

skip_groups-cons :
    (sep : Bytes) (n : ℕ) (groups : List (Bytes × ℕ)) (s r₁ r₂ r₃ : Bytes)
    → skip_bytes sep s ≡ ok r₁
    → skip_digits n r₁ ≡ ok r₂
    → skip_groups groups r₂ ≡ ok r₃
    → skip_groups ((sep, n) ∷ groups) s ≡ ok r₃
unfolding skip_groups
skip_groups-cons sep n groups s r₁ r₂ r₃ a b c = rw (a, ◌>>=◌) (rw (b, ◌>>=◌) c)

num_date-finds :
    (start : Bytes) (digits : ℕ) (rest : List (Bytes × ℕ) × Bytes) (s : Bytes)
    → match_num_date (num_date start digits rest) s ≡ ok true
    → (t : Bytes) × (behind : Bytes) × (t ++ behind ≡ s) × HasDate start digits rest t
unfolding match_num_date
num_date-finds start digits rest s h =
    elim (Bool-cases
      (ltb (length s) (length start + length rest.1 + digits + groups_length rest.0))) [
        | inl short ↦ cc (rw short at h)
        | inr long ↦
            let (r₁, h₁, k₁) = >>=-eq-ok (skip_bytes start s) _ (rw long at h) in
            let (r₂, h₂, k₂) = >>=-eq-ok (skip_digits digits r₁) _ k₁ in
            let (r₃, h₃, k₃) = >>=-eq-ok (skip_groups rest.0 r₂) _ k₂ in
            let (behind, e) = (has_prefix_iff r₃ rest.1).0 (ok-injective k₃) in
            let (t, split, w) = skip_groups-split ((start, digits) ∷ rest.0) s rest.1 behind (
              skip_groups-cons start digits rest.0 s r₁ r₂ (rest.1 ++ behind) h₁ h₂
                (h₃ ∙ ap ok (sym e))) in
            (t, behind, sym split, w)
      ]

-- The answer of `prefixNumDate` is yes exactly of the texts that begin with such a date.
pub num_date_iff :
    (start : Bytes) (digits : ℕ) (rest : List (Bytes × ℕ) × Bytes) (s : Bytes)
    → (answer (match_num_date (num_date start digits rest) s) ≡ some true)
      ↔ ((t : Bytes) × (behind : Bytes) × (t ++ behind ≡ s) × HasDate start digits rest t)
num_date_iff start digits rest s = (
  λ h.
      num_date-finds start digits rest s
        ((answer-true (match_num_date (num_date start digits rest) s)).0 h),
  λ w. (answer-true (match_num_date (num_date start digits rest) s)).1 (
      ap (match_num_date (num_date start digits rest)) (sym w.2)
      ∙ num_date-found start digits rest w.0 w.1 w.3),
)
