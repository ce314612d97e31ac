-- ===== src/Tests/Dissects.antt =====
-- processors/dissect on small inputs.
use elastic_agent_libs.Prelude.{
  suc, drop, ℕ, ◌+◌, ◌-◌, ◌<◌, Bytes, codes, List, [], ◌∷◌, true, false, ok, err, ◌≡◌, ◌⊎◌, refl,
  arith,
}
use elastic_agent_libs.Dissect.Delimiter.{
  zero_byte, multi_byte, hangs, no_beginning_delimiter, delimiter_not_found, index_of, index,
  is_prefix, delimiter_len,
}
use elastic_agent_libs.Dissect.Field.{Field, normal_field, is_fixed_length}
use elastic_agent_libs.Dissect.Parser.{Parser}
use elastic_agent_libs.Dissect.Extract.Bounds.{Stands, AllStand, skip_padding-AllStand}
use elastic_agent_libs.Dissect.Extract.Safe.{HasNoFixed, AllWithin, extract-AllWithin}
use elastic_agent_libs.Dissect.Extract.{
  Position, field_by_id, field_end, skip_padding, extract_loop, finish, extract,
}
use elastic_agent_libs.Dissect.Extract.Greedy.{skip_padding-zero_byte}
use elastic_agent_libs.Dissect.Trim.{AsciiTrimmer, is_trimmed, trim, trim_left, trim_right}
use elastic_agent_libs.Dissect.Trim.Stops.{trim-stops}

skip_padding-zero_byte_example : skip_padding 100 (zero_byte true) (codes "ab") 1 ≡ err hangs
skip_padding-zero_byte_example = skip_padding-zero_byte 100 true (codes "ab") 1

abbrev spaces : AsciiTrimmer
spaces = record { chars = codes " "; left = true; right = true }

something_left : (trim spaces (codes " a ") 0 3).0 < (trim spaces (codes " a ") 0 3).1
unfolding trim trim_left trim_right
something_left = omega arith

trim-stops_example :
    (is_trimmed spaces (codes " a ") (trim spaces (codes " a ") 0 3).0 ≡ false)
    × (is_trimmed spaces (codes " a ") ((trim spaces (codes " a ") 0 3).1 - 1) ≡ false)
trim-stops_example = trim-stops spaces (codes " a ") 0 3 (omega arith) refl refl something_left

abbrev key : ℕ → Bytes → Field
key id name =
    normal_field
      (record { id = id; key = name; ordinal = 0; length = 0; greedy = false; data_type = [] })

-- `%{a->} %{b}`
abbrev pair : Parser
pair = record {
  delimiters = zero_byte true ∷ multi_byte (codes " ") false ∷ [];
  fields = key 0 (codes "a") ∷ key 1 (codes "b") ∷ [];
  reference_fields = [];
}

pair-HasNoFixed : HasNoFixed pair.fields
unfolding is_fixed_length field_by_id
pair-HasNoFixed i = ground arith

extract-AllWithin_example :
    (extract pair (codes "x   y") ≡ err no_beginning_delimiter)
    ⊎ ((extract pair (codes "x   y") ≡ err delimiter_not_found)
        ⊎ ((ps : List Position) × (extract pair (codes "x   y") ≡ ok ps) × AllWithin 5 ps))
extract-AllWithin_example =
    extract-AllWithin pair (codes "x   y") refl pair-HasNoFixed (omega arith, tt)

extract-pair :
    extract pair (codes "x   y")
    ≡ ok (record { start = 0; stop = 1 } ∷ record { start = 4; stop = 5 } ∷ [])
unfolding extract extract_loop finish field_end skip_padding index_of index is_prefix
    is_fixed_length field_by_id delimiter_len
extract-pair = refl

spaces-Stands : Stands (codes " ") (codes "x   y") 1
unfolding is_prefix
spaces-Stands = refl

skip_padding-AllStand_example :
    (k : ℕ) × (skip_padding 6 (multi_byte (codes " ") false) (codes "x   y") 1 ≡ ok (1 + k))
    × AllStand (codes " ") (codes "x   y") 1 (suc k)
    × (is_prefix (codes " ") (drop (1 + k + 1) (codes "x   y")) ≡ false)
skip_padding-AllStand_example =
    skip_padding-AllStand 6 (codes " ") (codes "x   y") false 1 (omega arith) spaces-Stands
      (omega arith)
