-- ===== src/Dissect/Extract.antt =====
-- processors/dissect/dissect.go: `extract`, which finds the positions of the keys.
pub mod Greedy
pub mod Bounds
pub mod Safe
use elastic_agent_libs.Prelude.{
  ℕ, zero, suc, ◌+◌, Bytes, Bool, true, false, ◌&&◌, not, List, [], ◌∷◌, ◌++◌, Option, none, some,
  Result, ok, err, ◌>>=◌, ◌>>◌, length, ltb, ◌==◌, if◌then◌else◌, replicate, set,
}
use elastic_agent_libs.Dissect.Delimiter.{
  Delimiter, DissectError, no_beginning_delimiter, field_too_long, delimiter_not_found,
  last_field_length, hangs, slice_bounds, index_of, delimiter_len, is_greedy,
}
use elastic_agent_libs.Dissect.Field.{Field, BaseField, base, is_fixed_length, skip_field}
use elastic_agent_libs.Dissect.Parser.{Parser}

pub record Position : Type 0 where
  pub start : ℕ
  pub stop : ℕ

-- `fields[fieldsIDMap[i]]`: the field with the id `i`, and the first field where there is none.
abbrev first_field : List Field → Field
first_field [] =
    skip_field
      (record { id = 0; key = []; ordinal = 0; length = 0; greedy = false; data_type = [] })
first_field (f ∷ fs) = f

unfoldable pub field_by_id : ℕ → List Field → Field → Field
field_by_id i [] default = default
field_by_id i (f ∷ fs) default =
    let rest = field_by_id i fs default in if (base f).id == i then f else rest

abbrev pub field_at : List Field → ℕ → Field
field_at fields i = field_by_id i fields (first_field fields)

-- The loop of a greedy delimiter: how far the padding in front of `next` goes.
unfoldable pub skip_padding : ℕ → Delimiter → Bytes → ℕ → Result DissectError ℕ
skip_padding zero next s offset = err hangs
skip_padding (suc fuel) next s offset = do
  lookahead ← index_of next s (offset + 1)
  elim lookahead [
    | none ↦ ok offset
    | some n ↦
        let further = skip_padding fuel next s n in if n == offset + 1 then further else ok offset
  ]

-- Where the field of one round of the main loop ends. The error for a field that is too long prints
-- `s[offset:]`, which panics where the offset is past the end.
unfoldable pub field_end : Field → Delimiter → Bytes → ℕ → Result DissectError ℕ
unfolding is_fixed_length
field_end field next s offset =
    if is_fixed_length field
    then (if ltb (length s) (offset + (base field).length)
        then (if ltb (length s) offset then err slice_bounds else err field_too_long)
        else ok (offset + (base field).length))
    else (do
      found ← index_of next s offset
      elim found [ some e ↦ ok e | none ↦ err delimiter_not_found ])

-- The rounds of the main loop from the round `i` on, at the delimiter `dl` with those that follow it:
-- the positions, the last offset and the number of rounds. The code stores the position of the round `i` at
-- the index `i` of a slice with a place for each field; the parsers that `New` returns have a delimiter for
-- each field at most, the one in front of the first field apart, so that the index is there.
unfoldable pub extract_loop :
    Bytes
    → List Field
    → ℕ
    → ℕ
    → Delimiter
    → List Delimiter
    → Result DissectError (List Position × ℕ × ℕ)
unfolding field_end skip_padding
extract_loop s fields i offset dl [] = ok ([], offset, i)
extract_loop s fields i offset dl (next ∷ rest) = do
  e ← field_end (field_at fields i) next s offset
  padded ← (if is_greedy dl then skip_padding (suc (length s)) next s e else ok e)
  r ← extract_loop s fields (suc i) (padded + delimiter_len next) next rest
  ok (record { start = offset; stop = e } ∷ r.0, r.1, r.2)

abbrev pub nowhere : Position
nowhere = record { start = 0; stop = 0 }

-- The positions of all fields, those that the loop did not reach left at their zero value, and the rest
-- of the input in the one that follows the last round.
unfoldable pub finish :
    Bytes → List Field → List Position × ℕ × ℕ → Result DissectError (List Position)
unfolding is_fixed_length
finish s fields (found, offset, i) =
    let field = field_at fields i in
    if is_fixed_length field && not (offset + (base field).length == length s)
    then err last_field_length
    else if ltb i (length fields)
    then ok (
        found
        ++ (if ltb offset (length s) then record { start = offset; stop = length s } else nowhere)
          ∷ [])
    else ok found

abbrev at_start : Option ℕ → Bool
at_start (some zero) = true
at_start _ = false

-- `extract`. A parser has a delimiter in front of each field.
unfoldable pub extract : Parser → Bytes → Result DissectError (List Position)
unfolding extract_loop finish
extract p s = elim p.delimiters [
  | [] ↦ err no_beginning_delimiter
  | dl ∷ rest ↦ do
    offset ← index_of dl s 0
    if at_start offset
        then (do r ← extract_loop s p.fields 0 (delimiter_len dl) dl rest; finish s p.fields r)
        else err no_beginning_delimiter
]
