-- ===== src/Rotate/Trigger/Size.antt =====
-- The count of the size trigger of file/trigger.go over a run of writes.
use elastic_agent_libs.Prelude.{
  ℕ, ◌+◌, ◌*◌, ◌≤◌, ◌<◌, ◌%◌, ltb, List, [], ◌∷◌, Bool-cases, Option, none, some, ◌≡◌, ◌≢◌, ap, ◌∙◌,
  inl, inr, arith,
}
use mathlib.Core.Path.{subst}
use elastic_agent_libs.Rotate.Trigger.{
  Time, Trigger, size_trigger, no_rotate, file_size, trigger_rotation, is_rotation_triggered,
  uint_limit,
}

-- Asks the triggers about one write after the other, with the readings of the clock; none at the
-- first write that rotates.
unfoldable pub pass : List Trigger → List (ℕ × Time) → Option (List Trigger)
unfolding is_rotation_triggered
pass triggers [] = some triggers
pass triggers (write ∷ writes) =
    let asked = is_rotation_triggered triggers write.0 write.1 in
    let rest = pass asked.1 writes in elim asked.0 [ no_rotate ↦ rest | _ ↦ none ]

unfoldable pub total : List (ℕ × Time) → ℕ
total [] = 0
total (write ∷ writes) = write.0 + total writes

-- Every write has at most `max` bytes, which `Rotator.Write` sees to.
abbrev pub AllFit : ℕ → List (ℕ × Time) → Type 0
AllFit max [] = Unit
AllFit max (write ∷ writes) = (write.0 ≤ max) × AllFit max writes

-- The size trigger alone lets a run of writes pass where they and what it has counted come to no more
-- than the maximal size, and it has then counted them all. The sum does not wrap around, since both
-- the count and each write are at most the maximal size, which is below 2^63.
pub pass-size_trigger :
    (max size : ℕ) (writes : List (ℕ × Time))
    → max * 2 < uint_limit
    → AllFit max writes
    → size + total writes ≤ max
    → pass (size_trigger max size ∷ []) writes ≡ some (size_trigger max (size + total writes) ∷ [])
unfolding pass is_rotation_triggered trigger_rotation total
pass-size_trigger max size [] small fit le = ground arith
pass-size_trigger max size (w ∷ ws) small fit le =
    ground (arith, pass-size_trigger max (size + w.0) ws small fit.1)

no_rotate-ne_file_size : no_rotate ≢ file_size
no_rotate-ne_file_size e = cc

after-file_size :
    (max size len : ℕ) (t : Time) {triggers : List Trigger}
    → is_rotation_triggered (size_trigger max size ∷ []) len t ≡ (file_size, triggers)
    → size_trigger max 0 ∷ [] ≡ triggers
unfolding is_rotation_triggered trigger_rotation
after-file_size max size len t asked = elim (Bool-cases (ltb max ((size + len) % uint_limit))) [
  | inl over ↦ ap (λ p. p.1) (rw over at asked)
  | inr fits ↦ absurd (no_rotate-ne_file_size (ap (λ p. p.0) (rw fits at asked)))
]

pass-reset :
    (max : ℕ) (writes : List (ℕ × Time))
    → max * 2 < uint_limit
    → AllFit max writes
    → total writes ≤ max
    → pass (size_trigger max 0 ∷ []) writes ≡ some (size_trigger max (total writes) ∷ [])
pass-reset max writes small fit le =
    let e : 0 + total writes ≡ total writes = omega arith in
    pass-size_trigger max 0 writes small fit (omega (arith, le))
    ∙ ap (λ n. some (size_trigger max n ∷ [])) e

-- The write that makes the size trigger rotate is not counted in the new file: a run of writes that
-- comes to no more than the maximal size passes behind it, so that the file takes that write and the
-- maximal size besides.
pub pass-file_size :
    (max size len : ℕ) (t : Time) (writes : List (ℕ × Time)) {triggers : List Trigger}
    → max * 2 < uint_limit
    → is_rotation_triggered (size_trigger max size ∷ []) len t ≡ (file_size, triggers)
    → AllFit max writes
    → total writes ≤ max
    → pass triggers writes ≡ some (size_trigger max (total writes) ∷ [])
pass-file_size max size len t writes {triggers} small asked fit le =
    subst (λ ts. pass ts writes ≡ some (size_trigger max (total writes) ∷ []))
      (after-file_size max size len t asked) (pass-reset max writes small fit le)
