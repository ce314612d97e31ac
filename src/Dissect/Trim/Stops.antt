-- ===== src/Dissect/Trim/Stops.antt =====
-- Where the trimmer of processors/dissect/trim.go stops.
use native.Mathlib.Decide.{dec_lt}
use elastic_agent_libs.Prelude.{
  ℕ, zero, suc, ◌+◌, ◌-◌, ◌≤◌, ◌<◌, Bytes, true, false, Bool-cases, inl, inr, ◌≡◌, arith,
  if◌then◌else◌,
}
use elastic_agent_libs.Dissect.Trim.{AsciiTrimmer, is_trimmed, trim_left, trim_right, trim}

module _ (t : AsciiTrimmer) (s : Bytes) where
  trim_left-bounds :
      (count a : ℕ) → (a ≤ trim_left count t s a) × (trim_left count t s a ≤ a + count)
  unfolding trim_left
  trim_left-bounds zero a = omega arith
  trim_left-bounds (suc count) a = ground (arith, trim_left-bounds count (a + 1))

  trim_right-bounds :
      (count b : ℕ) → (trim_right count t s b ≤ b) × (b ≤ trim_right count t s b + count)
  unfolding trim_right
  trim_right-bounds zero b = omega arith
  trim_right-bounds (suc count) b = ground (arith, trim_right-bounds count (b - 1))

  trim_left-stop :
      (count a : ℕ)
      → trim_left count t s a < a + count
      → is_trimmed t s (trim_left count t s a) ≡ false
  unfolding trim_left
  trim_left-stop zero a h = absurd (omega arith)
  trim_left-stop (suc count) a h = elim (Bool-cases (is_trimmed t s a)) [
    | inl taken ↦ rw (taken, trim_left) (trim_left-stop count (a + 1) (ground arith))
    | inr kept ↦ rw (kept, trim_left) kept
  ]

  trim_left-taken : (count a i : ℕ) → a ≤ i → i < trim_left count t s a → is_trimmed t s i ≡ true
  unfolding trim_left
  trim_left-taken zero a i h k = absurd (omega arith)
  trim_left-taken (suc count) a i h k = elim (dec_lt a i) [
    | yes later ↦ trim_left-taken count (a + 1) i (omega arith) (ground arith)
    | no here ↦ let e : i ≡ a = omega arith in rw e (ground arith)
  ]

  trim_right-stop :
      (count b : ℕ)
      → count ≤ b
      → b < trim_right count t s b + count
      → is_trimmed t s (trim_right count t s b - 1) ≡ false
  unfolding trim_right
  trim_right-stop zero b low h = absurd (omega arith)
  trim_right-stop (suc count) b low h = elim (Bool-cases (is_trimmed t s (b - 1))) [
    | inl taken ↦
        rw (taken, trim_right) (trim_right-stop count (b - 1) (omega arith) (ground arith))
    | inr kept ↦ rw (kept, trim_right) kept
  ]

  trim_right-taken : (count b i : ℕ) → trim_right count t s b ≤ i → i < b → is_trimmed t s i ≡ true
  unfolding trim_right
  trim_right-taken zero b i h k = absurd (omega arith)
  trim_right-taken (suc count) b i h k = elim (dec_lt (i + 1) b) [
    | yes earlier ↦ trim_right-taken count (b - 1) i (ground arith) (omega arith)
    | no here ↦ let e : i ≡ b - 1 = omega arith in rw e (ground arith)
  ]

-- The range that `Trim` leaves of the range from `a` to `b`: it lies inside, only bytes to be trimmed
-- are outside of it, on a side that is not trimmed there are none, and a side that is trimmed ends at
-- a byte to be kept, unless nothing is left.
record Trims (t : AsciiTrimmer) (s : Bytes) (a b x y : ℕ) : Type 0 where
  pub low : a ≤ x
  pub order : x ≤ y
  pub high : y ≤ b
  pub taken_left : (i : ℕ) → a ≤ i → i < x → is_trimmed t s i ≡ true
  pub taken_right : (i : ℕ) → y ≤ i → i < b → is_trimmed t s i ≡ true
  pub kept_left : t.left ≡ true → x < y → is_trimmed t s x ≡ false
  pub kept_right : t.right ≡ true → x < y → is_trimmed t s (y - 1) ≡ false
  pub same_left : t.left ≡ false → x ≡ a
  pub same_right : t.right ≡ false → y ≡ b

module _ (t : AsciiTrimmer) (s : Bytes) (a b : ℕ) (h : a ≤ b) where
  left_end : ℕ
  left_end = if t.left then trim_left (b - a) t s a else a

  left_end-bounds : (a ≤ left_end) × (left_end ≤ b)
  unfolding left_end
  left_end-bounds = ground (arith, trim_left-bounds t s (b - a) a)

  right_end : ℕ
  right_end = if t.right then trim_right (b - left_end) t s b else b

  right_end-bounds : (left_end ≤ right_end) × (right_end ≤ b)
  unfolding right_end
  right_end-bounds = ground (arith, left_end-bounds, trim_right-bounds t s (b - left_end) b)

  left-taken : (i : ℕ) → a ≤ i → i < left_end → is_trimmed t s i ≡ true
  unfolding left_end
  left-taken i p q = ground (arith, trim_left-taken t s (b - a) a i)

  right-taken : (i : ℕ) → right_end ≤ i → i < b → is_trimmed t s i ≡ true
  unfolding right_end
  right-taken i p q = ground (arith, trim_right-taken t s (b - left_end) b i)

  left-kept : t.left ≡ true → left_end < b → is_trimmed t s left_end ≡ false
  unfolding left_end
  left-kept e p = simp e (trim_left-stop t s (b - a) a (ground arith))

  right-kept : t.right ≡ true → left_end < right_end → is_trimmed t s (right_end - 1) ≡ false
  unfolding right_end
  right-kept e p =
      simp e (trim_right-stop t s (b - left_end) b (omega arith) (ground (arith, left_end-bounds)))

trim-Trims :
    (t : AsciiTrimmer) (s : Bytes) (a b : ℕ)
    → a ≤ b
    → Trims t s a b (trim t s a b).0 (trim t s a b).1
unfolding trim left_end right_end
trim-Trims t s a b h =
    let (lo, hi) = left_end-bounds t s a b h in
    let (lo', hi') = right_end-bounds t s a b h in
    record {
      low = lo;
      order = lo';
      high = hi';
      taken_left = left-taken t s a b h;
      taken_right = right-taken t s a b h;
      kept_left = λ e p. left-kept t s a b h e (omega arith);
      kept_right = right-kept t s a b h;
      same_left = λ e. ground arith;
      same_right = λ e. ground arith;
    }

-- The range that `asciiTrimmer.Trim` leaves lies inside the one that it is given.
pub trim-inside :
    (t : AsciiTrimmer) (s : Bytes) (a b : ℕ)
    → a ≤ b
    → (a ≤ (trim t s a b).0) × ((trim t s a b).0 ≤ (trim t s a b).1) × ((trim t s a b).1 ≤ b)
trim-inside t s a b h = let r = trim-Trims t s a b h in (r.low, r.order, r.high)

-- Every byte of a range that is none to be trimmed stays inside the range that `asciiTrimmer.Trim`
-- leaves.
pub trim-keeps :
    (t : AsciiTrimmer) (s : Bytes) (a b i : ℕ)
    → a ≤ i
    → i < b
    → is_trimmed t s i ≡ false
    → ((trim t s a b).0 ≤ i) × (i < (trim t s a b).1)
trim-keeps t s a b i lo hi kept =
    let r = trim-Trims t s a b (omega arith) in ground (arith, r.taken_left i lo, r.taken_right i)

-- A trimmer of both sides leaves nothing, or a range whose first and last byte are none to be trimmed.
pub trim-stops :
    (t : AsciiTrimmer) (s : Bytes) (a b : ℕ)
    → a ≤ b
    → t.left ≡ true
    → t.right ≡ true
    → (trim t s a b).0 < (trim t s a b).1
    → (is_trimmed t s (trim t s a b).0 ≡ false) × (is_trimmed t s ((trim t s a b).1 - 1) ≡ false)
trim-stops t s a b h left right some_left =
    let r = trim-Trims t s a b h in (r.kept_left left some_left, r.kept_right right some_left)
