-- ===== src/Dissect/Delimiter.antt =====
-- processors/dissect/delimiter.go: the text before or after a key. `next` is the delimiter that follows
-- in the parser's list.
use elastic_agent_libs.Prelude.{
  ℕ, suc, ◌+◌, Bytes, Bool, true, false, ◌&&◌, [], ◌∷◌, Option, none, some, Result, ok, err, length,
  drop, leb, ◌==◌, if◌then◌else◌,
}

-- What stops a dissection. The last two are no errors of the source: a slice out of range panics, and
-- `hangs` is a loop that has not ended after more rounds than the input has bytes.
pub data DissectError : Type 0 where
  empty_string no_beginning_delimiter field_too_long delimiter_not_found last_field_length :
      DissectError
  slice_bounds hangs : DissectError

pub data Delimiter : Type 0 where
  zero_byte : Bool → Delimiter
  multi_byte : Bytes → Bool → Delimiter

unfoldable pub is_prefix : Bytes → Bytes → Bool
is_prefix [] s = true
is_prefix (x ∷ xs) [] = false
is_prefix (x ∷ xs) (y ∷ ys) = x == y && is_prefix xs ys

-- `strings.Index(s, needle)`, `none` for -1.
unfoldable pub index : Bytes → Bytes → Option ℕ
unfolding is_prefix
index needle [] = if is_prefix needle [] then some 0 else none
index needle (c ∷ cs) =
    let later = index needle cs in
    if is_prefix needle (c ∷ cs) then some 0 else elim later [ some i ↦ some (suc i) | none ↦ none ]

-- `IndexOf`, `none` for -1.
unfoldable pub index_of : Delimiter → Bytes → ℕ → Result DissectError (Option ℕ)
index_of (zero_byte greedy) haystack offset = ok (some offset)
index_of (multi_byte needle greedy) haystack offset =
    if leb offset (length haystack)
    then elim (index needle (drop offset haystack)) [
      | some i ↦ ok (some (i + offset))
      | none ↦ ok none
    ]
    else err slice_bounds

abbrev pub needle_of : Delimiter → Bytes
needle_of (zero_byte _) = []
needle_of (multi_byte needle _) = needle

-- `Len`.
unfoldable pub delimiter_len : Delimiter → ℕ
delimiter_len (zero_byte _) = 0
delimiter_len (multi_byte needle _) = length needle

abbrev pub is_greedy : Delimiter → Bool
is_greedy (zero_byte greedy) = greedy
is_greedy (multi_byte _ greedy) = greedy

unfoldable pub mark_greedy : Delimiter → Delimiter
mark_greedy (zero_byte _) = zero_byte true
mark_greedy (multi_byte needle _) = multi_byte needle true

-- `newDelimiter`.
unfoldable pub new_delimiter : Bytes → Delimiter
new_delimiter [] = zero_byte false
new_delimiter (c ∷ cs) = multi_byte (c ∷ cs) false
