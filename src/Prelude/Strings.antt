-- ===== src/Prelude/Strings.antt =====
-- Go strings as lists of bytes: equality, order, `strings.Split` and `strings.Join` at one byte.
use Prim.Native.Nat.{ℕ, suc, ◌<◌}
use Prim.Native.Char.{code}
use Prim.Native.String.{String}
use mathlib.Core.Path.{◌≡◌, refl, ap, sym, ◌∙◌}
use mathlib.Core.Logic.{◌↔◌, inl, inr}
use mathlib.Core.Bool.{Bool, true, false, ◌&&◌, ◌||◌}
use mathlib.Core.List.{List, [], ◌∷◌, ◌++◌}
use native.Mathlib.Omega.{arith}
use elastic_agent_libs.Prelude.Tests.{◌==◌, ltb, if◌then◌else◌, Bool-cases}

abbrev pub Bytes : Type 0
Bytes = List ℕ

-- The code points of a text, its bytes where it is ASCII.
abbrev pub codes : String → Bytes
codes String.[] = []
codes (String.◌∷◌ c s) = code c ∷ codes s

-- `a == b` on strings.
unfoldable pub eq_bytes : Bytes → Bytes → Bool
eq_bytes [] [] = true
eq_bytes (x ∷ xs) (y ∷ ys) = x == y && eq_bytes xs ys
eq_bytes _ _ = false

pub eq_bytes_iff : (a b : Bytes) → (eq_bytes a b ≡ true) ↔ (a ≡ b)
unfolding eq_bytes
eq_bytes_iff (x ∷ a) (y ∷ b) = ground (arith, eq_bytes_iff a b)
eq_bytes_iff _ _ = ground arith

pub eq_bytes_refl : (a : Bytes) → eq_bytes a a ≡ true
eq_bytes_refl a = (eq_bytes_iff a a).1 refl

-- `a <= b` on strings: the order of the first byte that differs.
unfoldable pub le_bytes : Bytes → Bytes → Bool
le_bytes [] ys = true
le_bytes (x ∷ xs) [] = false
le_bytes (x ∷ xs) (y ∷ ys) =
    let rest = le_bytes xs ys in if ltb x y then true else if x == y then rest else false

-- Puts a byte in front of the first piece.
abbrev pub cons_first : ℕ → List Bytes → List Bytes
cons_first c [] = (c ∷ []) ∷ []
cons_first c (p ∷ ps) = (c ∷ p) ∷ ps

-- `strings.Split(s, sep)` for a separator of one byte: never the empty list.
unfoldable pub split : ℕ → Bytes → List Bytes
split sep [] = [] ∷ []
split sep (c ∷ cs) = let rest = split sep cs in if c == sep then [] ∷ rest else cons_first c rest

-- `strings.Join(pieces, sep)`.
unfoldable pub join : ℕ → List Bytes → Bytes
join sep [] = []
join sep (p ∷ []) = p
join sep (p ∷ q ∷ ps) = p ++ sep ∷ join sep (q ∷ ps)

join-cons_first : (sep c : ℕ) (ps : List Bytes) → join sep (cons_first c ps) ≡ c ∷ join sep ps
unfolding join
join-cons_first sep c [] = refl
join-cons_first sep c (p ∷ []) = refl
join-cons_first sep c (p ∷ q ∷ ps) = refl

-- The pieces of a string are not none.
pub split-ne-nil : (sep : ℕ) (s : Bytes) → (split sep s ≡ []) → ⊥
unfolding split
split-ne-nil sep [] h = cc
split-ne-nil sep (c ∷ cs) h = go (split sep cs) (c == sep) h
  where
    go : (r : List Bytes) (b : Bool) → (if b then [] ∷ r else cons_first c r) ≡ [] → ⊥
    go r true e = cc
    go [] false e = cc
    go (p ∷ ps) false e = cc

join-nil_cons : (sep : ℕ) (ps : List Bytes) → (ps ≡ [] → ⊥) → join sep ([] ∷ ps) ≡ sep ∷ join sep ps
unfolding join
join-nil_cons sep [] h = absurd (h refl)
join-nil_cons sep (p ∷ ps) h = refl

pub join-split : (sep : ℕ) (s : Bytes) → join sep (split sep s) ≡ s
unfolding split join
join-split sep [] = refl
join-split sep (c ∷ cs) = ground (
  arith,
  join-split sep cs,
  join-cons_first sep c (split sep cs),
  join-nil_cons sep (split sep cs) (split-ne-nil sep cs),
)

length_bytes : Bytes → ℕ
length_bytes [] = 0
length_bytes (c ∷ cs) = suc (length_bytes cs)

length_bytes-append_gt :
    (p : Bytes) (c : ℕ) (r : Bytes) → length_bytes p < length_bytes (p ++ c ∷ r)
unfolding length_bytes
length_bytes-append_gt [] c r = omega arith
length_bytes-append_gt (x ∷ p) c r = omega (arith, length_bytes-append_gt p c r)

-- Two pieces or more join to something else than the first.
pub join-ne_head :
    (sep : ℕ) (p q : Bytes) (ps : List Bytes) → eq_bytes p (join sep (p ∷ q ∷ ps)) ≡ false
unfolding join
join-ne_head sep p q ps = ground (
  arith,
  length_bytes-append_gt p sep (join sep (q ∷ ps)),
  eq_bytes_iff p (p ++ sep ∷ join sep (q ∷ ps)),
  λ (e : p ≡ p ++ sep ∷ join sep (q ∷ ps)). ap length_bytes e,
)

-- `strings.Contains(s, c)` for one byte.
unfoldable pub contains : ℕ → Bytes → Bool
contains c [] = false
contains c (x ∷ xs) = x == c || contains c xs

-- Every piece is free of the separator.
abbrev pub AllFree : ℕ → List Bytes → Type 0
AllFree sep [] = Unit
AllFree sep (p ∷ ps) = (contains sep p ≡ false) × AllFree sep ps

AllFree-cons_first :
    (sep c : ℕ) (ps : List Bytes)
    → (c == sep) ≡ false
    → AllFree sep ps
    → AllFree sep (cons_first c ps)
unfolding contains
AllFree-cons_first sep c [] h a = ground arith
AllFree-cons_first sep c (p ∷ ps) h a = ground arith

pub split-AllFree : (sep : ℕ) (s : Bytes) → AllFree sep (split sep s)
unfolding split contains
split-AllFree sep [] = (refl, tt)
split-AllFree sep (c ∷ cs) = elim (Bool-cases (c == sep)) [
  | inl here ↦ rw here (refl, split-AllFree sep cs)
  | inr other ↦ rw other (AllFree-cons_first sep c (split sep cs) other (split-AllFree sep cs))
]

pub contains-join :
    (sep : ℕ) (p q : Bytes) (ps : List Bytes) → contains sep (join sep (p ∷ q ∷ ps)) ≡ true
unfolding contains join
contains-join sep p q ps = go p (join sep (q ∷ ps))
  where
    go : (p r : Bytes) → contains sep (p ++ sep ∷ r) ≡ true
    go [] r = ground arith
    go (x ∷ p) r = ground (arith, go p r)

split_free : (sep : ℕ) (p : Bytes) → contains sep p ≡ false → split sep p ≡ p ∷ []
unfolding split contains
split_free sep [] h = refl
split_free sep (x ∷ p) h = ground (arith, split_free sep p)

split-append :
    (sep : ℕ) (p r : Bytes) → contains sep p ≡ false → split sep (p ++ sep ∷ r) ≡ p ∷ split sep r
unfolding split contains
split-append sep [] r h = ground arith
split-append sep (x ∷ p) r h = ground (arith, split-append sep p r)

-- `strings.Split` undoes `strings.Join` on pieces that are free of the separator.
pub split-join :
    (sep : ℕ) (p : Bytes) (ps : List Bytes)
    → AllFree sep (p ∷ ps)
    → split sep (join sep (p ∷ ps)) ≡ p ∷ ps
unfolding join
split-join sep p [] a = split_free sep p a.0
split-join sep p (q ∷ qs) a =
    split-append sep p (join sep (q ∷ qs)) a.0 ∙ ap (◌∷◌ p) (split-join sep q qs a.1)

-- A piece that is free of the separator is no join of two pieces or more.
pub free-ne_join :
    (sep : ℕ) (s p q : Bytes) (ps : List Bytes)
    → contains sep s ≡ false
    → eq_bytes s (join sep (p ∷ q ∷ ps)) ≡ false
free-ne_join sep s p q ps h = ground (
  arith,
  contains-join sep p q ps,
  eq_bytes_iff s (join sep (p ∷ q ∷ ps)),
  λ (e : s ≡ join sep (p ∷ q ∷ ps)). ap (contains sep) e,
)

-- Neither list of pieces is a prefix of the other.
unfoldable pub diverges : List Bytes → List Bytes → Bool
diverges (p ∷ ps) (q ∷ qs) = let rest = diverges ps qs in if eq_bytes p q then rest else true
diverges _ _ = false

diverges_irrefl : (ps : List Bytes) → diverges ps ps ≡ false
unfolding diverges
diverges_irrefl [] = refl
diverges_irrefl (p ∷ ps) = ground (arith, diverges_irrefl ps, eq_bytes_refl p)

-- Lists of free pieces that diverge have different joins.
pub join-ne :
    (sep : ℕ) (p : Bytes) (ps : List Bytes) (q : Bytes) (qs : List Bytes)
    → AllFree sep (p ∷ ps)
    → AllFree sep (q ∷ qs)
    → diverges (p ∷ ps) (q ∷ qs) ≡ true
    → eq_bytes (join sep (p ∷ ps)) (join sep (q ∷ qs)) ≡ false
join-ne sep p ps q qs a b d = elim (Bool-cases (eq_bytes (join sep (p ∷ ps)) (join sep (q ∷ qs)))) [
  | inl same ↦
      let e = ap (split sep) ((eq_bytes_iff _ _).0 same) in
      let lists = sym (split-join sep p ps a) ∙ e ∙ split-join sep q qs b in
      cc (d, ap (λ (l : List Bytes). diverges l (q ∷ qs)) lists, diverges_irrefl (q ∷ qs))
  | inr other ↦ other
]

pub contains-append : (c : ℕ) (p r : Bytes) → contains c (p ++ r) ≡ (contains c p || contains c r)
unfolding contains
contains-append c [] r = refl
contains-append c (x ∷ p) r = ground (arith, contains-append c p r)

contains_cons : (c x : ℕ) (s : Bytes) → contains c (x ∷ s) ≡ (x == c || contains c s)
unfolding contains
contains_cons c x s = refl

-- A byte that no piece holds and that is not the separator is not in the join.
pub join-free :
    (c sep : ℕ) (ps : List Bytes)
    → (sep == c) ≡ false
    → AllFree c ps
    → contains c (join sep ps) ≡ false
unfolding join
join-free c sep [] h a = unfold contains in refl
join-free c sep (p ∷ []) h a = a.0
join-free c sep (p ∷ q ∷ ps) h a = ground (
  arith,
  contains-append c p (sep ∷ join sep (q ∷ ps)),
  contains_cons c sep (join sep (q ∷ ps)),
  join-free c sep (q ∷ ps) h a.1,
)
