-- ===== src/Dissect/Extract/Bounds.antt =====
-- The searches of processors/dissect/dissect.go stay inside the input.
use mathlib.Core.Path.{subst}
use elastic_agent_libs.Prelude.{
  ℕ, zero, suc, ◌+◌, ◌-◌, ◌≤◌, ◌<◌, Bytes, Bool, true, false, Bool-cases, [], ◌∷◌, none, some,
  Option-cases, inl, inr, ◌⊎◌, ok, ◌>>=◌, ◌≡◌, ◌∙◌, ap, refl, arith, length, drop, ◌==◌, leb,
}
use elastic_agent_libs.Dissect.Delimiter.{
  Delimiter, zero_byte, multi_byte, index, is_prefix, index_of, delimiter_len,
}
use elastic_agent_libs.Dissect.Extract.{skip_padding}

is_prefix-length : (needle s : Bytes) → is_prefix needle s ≡ true → length needle ≤ length s
unfolding is_prefix
is_prefix-length [] s h = omega arith
is_prefix-length (x ∷ xs) [] h = cc
is_prefix-length (x ∷ xs) (y ∷ ys) h = ground (arith, is_prefix-length xs ys)

-- Where a needle is found there is room for it.
index-room : (needle s : Bytes) {i : ℕ} → index needle s ≡ some i → i + length needle ≤ length s
unfolding index
index-room needle [] h = ground (arith, is_prefix-length needle [])
index-room needle (c ∷ cs) h = elim (Option-cases (index needle cs)) [
  | inl gone ↦ ground (arith, is_prefix-length needle (c ∷ cs))
  | inr (j, found) ↦ ground (arith, is_prefix-length needle (c ∷ cs), index-room needle cs found)
]

length-drop : (n : ℕ) (s : Bytes) → n ≤ length s → length (drop n s) + n ≡ length s
length-drop zero s h = omega arith
length-drop (suc n) [] h = absurd (omega arith)
length-drop (suc n) (c ∷ s) h = omega (arith, length-drop n s (omega arith))

-- What a search from an offset inside of the input finds: nothing, or a place behind the offset with
-- room for the delimiter.
abbrev pub Finds : Delimiter → Bytes → ℕ → Type 0
Finds next s offset =
    (index_of next s offset ≡ ok none)
    ⊎ ((e : ℕ) × (index_of next s offset ≡ ok (some e))
        × (offset ≤ e)
        × (e + delimiter_len next ≤ length s))

pub index_of-Finds :
    (next : Delimiter) (s : Bytes) (offset : ℕ) → offset ≤ length s → Finds next s offset
unfolding index_of delimiter_len
index_of-Finds (zero_byte g) s offset h = inr (offset, refl, omega arith, omega arith)
index_of-Finds (multi_byte needle g) s offset h =
    elim (Option-cases (index needle (drop offset s))) [
      | inl gone ↦ inl (ground arith)
      | inr (j, found) ↦ inr (
        j + offset,
        ground arith,
        omega arith,
        omega (arith, index-room needle (drop offset s) found, length-drop offset s h),
      )
    ]

-- The loop over the padding in front of a delimiter that is not empty, from a place with room for it,
-- returns a place with room for it behind the first one.
pub skip_padding-room :
    (fuel : ℕ) (needle s : Bytes) (greedy : Bool) (offset : ℕ)
    → 0 < length needle
    → offset + length needle ≤ length s
    → length s < offset + fuel
    → (n : ℕ) × (skip_padding fuel (multi_byte needle greedy) s offset ≡ ok n)
      × (offset ≤ n)
      × (n + length needle ≤ length s)
unfolding skip_padding delimiter_len
skip_padding-room zero needle s greedy offset some_needle room enough = absurd (omega arith)
skip_padding-room (suc fuel) needle s greedy offset some_needle room enough =
    elim (index_of-Finds (multi_byte needle greedy) s (offset + 1) (omega arith)) [
      | inl gone ↦ (offset, rw (gone, ◌>>=◌) refl, omega arith, room)
      | inr (e, found, behind, fits) ↦ elim (Bool-cases (e == offset + 1)) [
        | inl next ↦
            let (n, runs, far, inside) =
              skip_padding-room fuel needle s greedy e some_needle fits (omega arith) in
            (n, rw (found, ◌>>=◌, next) runs, omega arith, inside)
        | inr other ↦ (offset, rw (found, ◌>>=◌, other) refl, omega arith, room)
      ]
    ]

index-prefix : (needle s : Bytes) → is_prefix needle s ≡ true → index needle s ≡ some 0
unfolding index
index-prefix needle [] h = rw h refl
index-prefix needle (c ∷ cs) h = rw h refl

prefix-index : (needle s : Bytes) → index needle s ≡ some 0 → is_prefix needle s ≡ true
unfolding index
prefix-index needle [] h = ground (arith, h)
prefix-index needle (c ∷ cs) h = elim (Option-cases (index needle cs)) [
  | inl gone ↦ ground (arith, h, gone)
  | inr (j, found) ↦ ground (arith, h, found)
]

-- The needle stands at a place of the input, byte by byte.
abbrev pub Stands : Bytes → Bytes → ℕ → Type 0
Stands needle s i = is_prefix needle (drop i s) ≡ true

-- The needle stands at each of so many neighbouring places from one on.
abbrev pub AllStand : Bytes → Bytes → ℕ → ℕ → Type 0
AllStand needle s i zero = Unit
AllStand needle s i (suc n) = Stands needle s i × AllStand needle s (i + 1) n

length_drop_lem : (n : ℕ) (s : Bytes) → length (drop n s) ≡ length s - n
length_drop_lem zero s = omega arith
length_drop_lem (suc n) [] = omega arith
length_drop_lem (suc n) (c ∷ s) = omega (arith, length_drop_lem n s)

Stands-room :
    (needle s : Bytes) (i : ℕ)
    → 0 < length needle
    → Stands needle s i
    → i + length needle ≤ length s
Stands-room needle s i some_needle h =
    omega (arith, is_prefix-length needle (drop i s) h, length_drop_lem i s)

-- One round of the loop: on where the needle stands one byte further, else at its end.
next_place :
    (needle s : Bytes) (greedy : Bool) (fuel offset : ℕ)
    → offset + 1 ≤ length s
    → (Stands needle s (offset + 1)
        × (skip_padding (suc fuel) (multi_byte needle greedy) s offset
            ≡ skip_padding fuel (multi_byte needle greedy) s (offset + 1)))
      ⊎ ((is_prefix needle (drop (offset + 1) s) ≡ false)
          × (skip_padding (suc fuel) (multi_byte needle greedy) s offset ≡ ok offset))
unfolding skip_padding index_of
next_place needle s greedy fuel offset inside =
    let within : leb (offset + 1) (length s) ≡ true = ground (arith, inside) in
    elim (Option-cases (index needle (drop (offset + 1) s))) [
      | inl gone ↦ elim (Bool-cases (is_prefix needle (drop (offset + 1) s))) [
        | inl here ↦ cc (index-prefix needle (drop (offset + 1) s) here)
        | inr away ↦ inr (away, rw (within, gone, ◌>>=◌) refl)
      ]
      | inr (zero, found) ↦
          let same : ((0 + (offset + 1)) == (offset + 1)) ≡ true = ground arith in
          inl (
            prefix-index needle (drop (offset + 1) s) found,
            rw (within, found, ◌>>=◌)
                (rw same (ap (skip_padding fuel (multi_byte needle greedy) s) (omega arith))),
          )
      | inr (suc j, found) ↦
          let other : ((suc j + (offset + 1)) == (offset + 1)) ≡ false = ground arith in
          elim (Bool-cases (is_prefix needle (drop (offset + 1) s))) [
            | inl here ↦ cc (index-prefix needle (drop (offset + 1) s) here)
            | inr away ↦ inr (away, rw (within, found, ◌>>=◌) (rw other refl))
          ]
    ]

-- From a place where a delimiter stands that is not empty, the loop over the padding ends with more
-- rounds than there are bytes behind the place, at the last of the places one byte apart at each of which
-- the delimiter stands: it does not stand at the next one.
pub skip_padding-AllStand :
    (fuel : ℕ) (needle s : Bytes) (greedy : Bool) (offset : ℕ)
    → 0 < length needle
    → Stands needle s offset
    → length s < offset + fuel
    → (k : ℕ) × (skip_padding fuel (multi_byte needle greedy) s offset ≡ ok (offset + k))
      × AllStand needle s offset (suc k)
      × (is_prefix needle (drop (offset + k + 1) s) ≡ false)
skip_padding-AllStand zero needle s greedy offset some_needle here enough =
    absurd (omega (arith, Stands-room needle s offset some_needle here))
skip_padding-AllStand (suc fuel) needle s greedy offset some_needle here enough =
    let room = Stands-room needle s offset some_needle here in
    elim (next_place needle s greedy fuel offset (omega arith)) [
      | inl (next, runs) ↦
          let (k, goes, all, ends) =
            skip_padding-AllStand fuel needle s greedy (offset + 1) some_needle next
              (omega arith) in
          let shift : offset + 1 + k ≡ offset + suc k = omega arith in
          (
            suc k,
            runs ∙ goes ∙ ap ok shift,
            (here, all),
            subst (λ n. is_prefix needle (drop (n + 1) s) ≡ false) shift ends,
          )
      | inr (away, stops) ↦
          let same : offset ≡ offset + 0 = omega arith in
          (
            0,
            stops ∙ ap ok same,
            (here, tt),
            subst (λ n. is_prefix needle (drop (n + 1) s) ≡ false) same away,
          )
    ]
