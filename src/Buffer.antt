-- ===== src/Buffer.antt =====
-- monitoring/report/buffer/buffer.go: the ring buffer of the last entries. `none` of `add` is the
-- panic of an index out of range. The mutex makes each operation one step.
pub mod View
pub mod Last
use elastic_agent_libs.Prelude.{
  ℕ, ◌+◌, ◌%◌, Bool, true, false, not, ◌&&◌, List, [], ◌∷◌, ◌++◌, Option, none, some, ◌==◌, ltb,
  if◌then◌else◌, length, set, take, drop, replicate,
}

-- A slot is `none`, the nil interface, before it is first written.
pub record RingBuffer (A : Type 0) : Type 0 where
  pub entries : List (Option A)
  pub i : ℕ
  pub full : Bool

module _ {A : Type 0} where
  -- `newBuffer`.
  unfoldable pub new_buffer : ℕ → RingBuffer A
  new_buffer size = record { entries = replicate size none; i = 0; full = false }

  -- `add` past the write to the slot.
  unfoldable pub advance : RingBuffer A → RingBuffer A
  advance r =
      let next = (r.i + 1) % length r.entries in
      record r { i = next; full = if next == 0 then true else r.full }

  -- `add`.
  unfoldable pub add : RingBuffer A → A → Option (RingBuffer A)
  unfolding advance
  add r entry =
      if ltb r.i (length r.entries)
      then some (advance (record r { entries = set r.entries r.i (some entry) }))
      else none

  -- `getAll`.
  unfoldable pub get_all : RingBuffer A → List (Option A)
  get_all r =
      if r.i == 0 && not r.full
      then []
      else if not r.full
      then take r.i r.entries
      else if r.full && r.i == 0
      then r.entries
      else drop r.i r.entries ++ take r.i r.entries

  -- A sequence of calls of `add`.
  unfoldable pub add_all : RingBuffer A → List A → Option (RingBuffer A)
  add_all r [] = some r
  add_all r (x ∷ xs) = elim (add r x) [ some r' ↦ add_all r' xs | none ↦ none ]
