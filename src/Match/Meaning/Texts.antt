-- ===== src/Match/Meaning/Texts.antt =====
-- The tests on texts that the matchers of match/matchers.go use.
use elastic_agent_libs.Prelude.{
  ℕ, zero, suc, ◌≤◌, Bytes, eq_bytes_iff, true, Bool-cases, [], ◌∷◌, ◌++◌, length, length-append,
  take, drop, leb→le, ◌≡◌, ◌↔◌, inl, inr, refl, ap, sym, ◌∙◌, arith,
}
use elastic_agent_libs.Match.Matchers.{has_prefix, contains_bytes}

pub take-append : (p r : Bytes) → take (length p) (p ++ r) ≡ p
take-append [] r = refl
take-append (c ∷ p) r = ap (◌∷◌ c) (take-append p r)

pub drop-append : (p r : Bytes) → drop (length p) (p ++ r) ≡ r
drop-append [] r = refl
drop-append (c ∷ p) r = drop-append p r

pub take-drop : (n : ℕ) (s : Bytes) → take n s ++ drop n s ≡ s
take-drop zero s = refl
take-drop (suc n) [] = refl
take-drop (suc n) (c ∷ s) = ap (◌∷◌ c) (take-drop n s)

pub has_prefix-append : (p r : Bytes) → has_prefix (p ++ r) p ≡ true
has_prefix-append p r = rw (take-append p r) (ground (arith, length-append p r, eq_bytes_iff p p))

pub has_prefix-take :
    (s p : Bytes) → has_prefix s p ≡ true → (length p ≤ length s) × (take (length p) s ≡ p)
has_prefix-take s p h =
    ground (arith, leb→le (length p) (length s), eq_bytes_iff (take (length p) s) p)

-- A text has the prefixes that it begins with.
pub has_prefix_iff : (s p : Bytes) → (has_prefix s p ≡ true) ↔ ((r : Bytes) × (p ++ r ≡ s))
has_prefix_iff s p = (
  λ h. (
    drop (length p) s,
    ap (λ x. x ++ drop (length p) s) (sym (has_prefix-take s p h).1) ∙ take-drop (length p) s,
  ),
  λ w. ap (λ x. has_prefix x p) (sym w.1) ∙ has_prefix-append p w.0,
)

contains_bytes-prefix : (s p : Bytes) → has_prefix s p ≡ true → contains_bytes s p ≡ true
unfolding contains_bytes
contains_bytes-prefix [] p h = h
contains_bytes-prefix (c ∷ s) p h = rw h refl

contains_bytes-behind : (b p a : Bytes) → contains_bytes (b ++ (p ++ a)) p ≡ true
unfolding contains_bytes
contains_bytes-behind [] p a = contains_bytes-prefix (p ++ a) p (has_prefix-append p a)
contains_bytes-behind (c ∷ b) p a = ground (arith, contains_bytes-behind b p a)

contains_bytes-split :
    (s p : Bytes) → contains_bytes s p ≡ true → (b : Bytes) × (a : Bytes) × (b ++ (p ++ a) ≡ s)
unfolding contains_bytes
contains_bytes-split [] p h = let w = (has_prefix_iff [] p).0 h in ([], w.0, w.1)
contains_bytes-split (c ∷ s) p h = elim (Bool-cases (has_prefix (c ∷ s) p)) [
  | inl here ↦ let w = (has_prefix_iff (c ∷ s) p).0 here in ([], w.0, w.1)
  | inr later ↦ let (b, a, e) = contains_bytes-split s p (ground arith) in (c ∷ b, a, ap (◌∷◌ c) e)
]

-- A text contains what it holds between two others.
pub contains_bytes_iff :
    (s p : Bytes) → (contains_bytes s p ≡ true) ↔ ((b : Bytes) × (a : Bytes) × (b ++ (p ++ a) ≡ s))
contains_bytes_iff s p = (
  contains_bytes-split s p,
  λ w. ap (λ x. contains_bytes x p) (sym w.2) ∙ contains_bytes-behind w.0 p w.1,
)
