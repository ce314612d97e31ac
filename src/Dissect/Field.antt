-- ===== src/Dissect/Field.antt =====
-- processors/dissect/field.go: the fields of a pattern, how they are made from a raw key and what they
-- do to the map of the results.
use elastic_agent_libs.Prelude.{
  ℕ, ltb, Bytes, codes, eq_bytes, Bool, true, false, ◌||◌, List, [], ◌∷◌, ◌++◌, none, some, Result,
  ok, err, length, drop, if◌then◌else◌, ◌==◌,
}
use elastic_agent_libs.Prelude.Assoc.{Assoc, find, write}
use elastic_agent_libs.Dissect.Delimiter.{Delimiter, delimiter_len, needle_of, is_prefix}
use elastic_agent_libs.Dissect.KeyParts.{KeyParts, extract_key_parts}

pub record BaseField : Type 0 where
  pub id : ℕ
  pub key : Bytes
  pub ordinal : ℕ
  pub length : ℕ
  pub greedy : Bool
  pub data_type : Bytes

pub data Field : Type 0 where
  normal_field skip_field named_skip_field pointer_field indirect_field : BaseField → Field
  append_field : BaseField → Delimiter → Field

pub data FieldError : Type 0 where
  missing_datatype invalid_datatype mixed_prefix_indirect_append mixed_prefix_append_indirect :
      FieldError
  invalid_tokenizer missing_reference : FieldError
  -- the panic of an expression that does not match
  no_match : FieldError

abbrev pub base : Field → BaseField
base (normal_field f) = f
base (skip_field f) = f
base (named_skip_field f) = f
base (pointer_field f) = f
base (indirect_field f) = f
base (append_field f _) = f

-- `IsSaveable`.
unfoldable pub is_saveable : Field → Bool
is_saveable (skip_field _) = false
is_saveable (named_skip_field _) = false
is_saveable (pointer_field _) = false
is_saveable _ = true

-- `IsFixedLength`.
unfoldable pub is_fixed_length : Field → Bool
is_fixed_length f = ltb 0 (base f).length

-- `JoinString`: the text of the delimiter in front of the field, or a blank.
unfoldable pub join_string : Delimiter → Bytes
unfolding delimiter_len
join_string previous = if delimiter_len previous == 0 then codes " " else needle_of previous

-- `Apply`, on each kind of field.
unfoldable pub apply : Field → Bytes → Assoc Bytes → Assoc Bytes
unfolding join_string
apply (normal_field f) b m = write f.key b m
apply (skip_field f) b m = m
apply (named_skip_field f) b m = write f.key b m
apply (pointer_field f) b m = write f.key b m
apply (indirect_field f) b m = elim (find f.key m) [ some v ↦ write v b m | none ↦ m ]
apply (append_field f previous) b m = elim (find f.key m) [
  | some v ↦ write f.key (v ++ join_string previous ++ b) m
  | none ↦ write f.key b m
]

-- The names of `dataTypeNames`.
abbrev pub data_type_names : List Bytes
data_type_names =
    codes "integer"
    ∷ codes "long"
    ∷ codes "float"
    ∷ codes "double"
    ∷ codes "string"
    ∷ codes "boolean"
    ∷ codes "ip"
    ∷ []

abbrev pub is_in : Bytes → List Bytes → Bool
is_in k [] = false
is_in k (j ∷ js) = eq_bytes j k || is_in k js

abbrev last_is : ℕ → Bytes → Bool
last_is c [] = false
last_is c (x ∷ []) = x == c
last_is c (x ∷ y ∷ s) = last_is c (y ∷ s)

abbrev plain_base : ℕ → Bytes → ℕ → BaseField
plain_base id key length = record {
  id = id;
  key = key;
  ordinal = 0;
  length = length;
  greedy = false;
  data_type = [];
}

-- The fields by the prefix of the key, in the order of the tests of `newField`.
unfoldable pub field_by_prefix : ℕ → KeyParts → Delimiter → Result FieldError Field
unfolding is_prefix
field_by_prefix id p previous =
    if is_prefix (codes "+&") p.key
    then err mixed_prefix_indirect_append
    else if is_prefix (codes "&+") p.key
    then err mixed_prefix_append_indirect
    else if is_prefix (codes "?") p.key
    then ok (named_skip_field (plain_base id (drop 1 p.key) p.length))
    else if is_prefix (codes "*") p.key
    then ok (pointer_field (plain_base id (drop 1 p.key) p.length))
    else if is_prefix (codes "+") p.key
    then ok (
        append_field
          (record {
            id = id;
            key = drop 1 p.key;
            ordinal = p.ordinal;
            length = p.length;
            greedy = p.greedy;
            data_type = [];
          })
          previous)
    else if is_prefix (codes "&") p.key
    then ok (
        indirect_field (record (plain_base id (drop 1 p.key) p.length) { data_type = p.data_type }))
    else ok (
        normal_field (record {
          id = id;
          key = p.key;
          ordinal = p.ordinal;
          length = p.length;
          greedy = p.greedy;
          data_type = p.data_type;
        }))

abbrev is_unknown_type : Bytes → Bool
is_unknown_type [] = false
is_unknown_type (c ∷ cs) = if is_in (c ∷ cs) data_type_names then false else true

-- `newField`.
unfoldable pub new_field : ℕ → Bytes → Delimiter → Result FieldError Field
unfolding field_by_prefix
new_field id [] previous = ok (skip_field (plain_base id [] 0))
new_field id (c ∷ cs) previous = elim (extract_key_parts (c ∷ cs)) [
  | none ↦ err no_match
  | some p ↦
      if last_is b'|' (c ∷ cs)
      then err missing_datatype
      else if is_unknown_type p.data_type
      then err invalid_datatype
      else field_by_prefix id p previous
]
