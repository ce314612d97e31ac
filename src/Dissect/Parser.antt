-- ===== src/Dissect/Parser.antt =====
-- processors/dissect/parser.go and validate.go: the expression `delimiterRE`, `newParser` and
-- `validate`. `sort.Slice` is insertion sort here, as it is on at most twelve fields; it is not
-- stable beyond, where the order of fields of one ordinal is not determined.
use elastic_agent_libs.Prelude.{
  ℕ, suc, Bytes, codes, eq_bytes, Bool, true, false, not, ◌||◌, List, [], ◌∷◌, ◌++◌, Result, ok,
  err, ◌>>=◌, leb, ◌==◌, if◌then◌else◌,
}
use elastic_agent_libs.Dissect.Delimiter.{Delimiter, new_delimiter, mark_greedy}
use elastic_agent_libs.Dissect.Field.{
  Field, FieldError, invalid_tokenizer, missing_reference, indirect_field, base, is_saveable,
  new_field,
}

-- The pairs of a delimiter and a key that `delimiterRE` finds, and the text behind the last of them.
pub record Tokens : Type 0 where
  pub pairs : List (Bytes × Bytes)
  pub trailing : Bytes

abbrev add_pair : Bytes → Bytes → Tokens → Tokens
add_pair d key t = record t { pairs = (d, key) ∷ t.pairs }

unfoldable mutual
  -- Reads a delimiter, of which `d` has been read, up to the first `%{`.
  pub scan_delimiter : Bytes → Bytes → Tokens
  scan_delimiter d [] = record { pairs = []; trailing = d }
  scan_delimiter d (c ∷ []) = record { pairs = []; trailing = d ++ c ∷ [] }
  scan_delimiter d (c ∷ b ∷ s) =
      let key = scan_key d [] s in
      let longer = scan_delimiter (d ++ c ∷ []) (b ∷ s) in
      elim (c == b'%') [ true ↦ elim (b == b'{') [ true ↦ key | false ↦ longer ] | false ↦ longer ]

  -- Reads a key, of which `key` has been read, up to the first `}`; without one there is no more match.
  pub scan_key : Bytes → Bytes → Bytes → Tokens
  scan_key d key [] = record { pairs = []; trailing = d ++ codes "%{" ++ key }
  scan_key d key (c ∷ s) =
      let done = add_pair d key (scan_delimiter [] s) in
      let longer = scan_key d (key ++ c ∷ []) s in elim (c == b'}') [ true ↦ done | false ↦ longer ]

pub record Parser : Type 0 where
  pub delimiters : List Delimiter
  pub fields : List Field
  pub reference_fields : List Field

-- The loop of `newParser` over the matches: the fields and delimiters from the match `id` on.
unfoldable pub read_pairs :
    ℕ → List (Bytes × Bytes) → Result FieldError (List Field × List Delimiter)
read_pairs id [] = ok ([], [])
read_pairs id ((needle, key) ∷ pairs) = do
  let d = new_delimiter needle
  field ← new_field id key d
  rest ← read_pairs (suc id) pairs
  ok (field ∷ rest.0, (if (base field).greedy then mark_greedy d else d) ∷ rest.1)

-- `sort.Slice` by ordinal.
unfoldable pub insert_field : Field → List Field → List Field
insert_field f [] = f ∷ []
insert_field f (g ∷ gs) =
    let rest = insert_field f gs in
    if leb (base f).ordinal (base g).ordinal then f ∷ g ∷ gs else g ∷ rest

unfoldable pub sort_fields : List Field → List Field
unfolding insert_field
sort_fields [] = []
sort_fields (f ∷ fs) = insert_field f (sort_fields fs)

-- `filterFieldsWith`.
unfoldable pub filter_fields : (Field → Bool) → List Field → List Field
filter_fields p [] = []
filter_fields p (f ∷ fs) = let rest = filter_fields p fs in if p f then f ∷ rest else rest

abbrev trailing_delimiter : Bytes → List Delimiter
trailing_delimiter [] = []
trailing_delimiter (c ∷ cs) = new_delimiter (c ∷ cs) ∷ []

abbrev has_no_pair : List (Bytes × Bytes) → Bool
has_no_pair [] = true
has_no_pair (_ ∷ _) = false

-- `newParser`.
unfoldable pub new_parser : Bytes → Result FieldError Parser
unfolding scan_delimiter read_pairs sort_fields filter_fields
new_parser tokenizer =
    let t = scan_delimiter [] tokenizer in
    if has_no_pair t.pairs then err invalid_tokenizer else do
      r ← read_pairs 0 t.pairs
      let fields = sort_fields r.0
      ok (record {
        delimiters = r.1 ++ trailing_delimiter t.trailing;
        fields = fields;
        reference_fields = filter_fields (λ f. not (is_saveable f)) fields;
      })

-- `isIndirectField`.
unfoldable pub is_indirect_field : Field → Bool
is_indirect_field (indirect_field _) = true
is_indirect_field _ = false

abbrev has_key : Bytes → List Field → Bool
has_key k [] = false
has_key k (f ∷ fs) = eq_bytes (base f).key k || has_key k fs

abbrev all_referenced : List Field → List Field → Bool
all_referenced [] references = true
all_referenced (f ∷ fs) references =
    if has_key (base f).key references then all_referenced fs references else false

-- `validate`.
unfoldable pub validate : Parser → Bool
unfolding filter_fields
validate p = all_referenced (filter_fields is_indirect_field p.fields) p.reference_fields

-- `New`.
unfoldable pub new_dissector : Bytes → Result FieldError Parser
unfolding new_parser validate
new_dissector tokenizer = do
  p ← new_parser tokenizer
  if validate p then ok p else err missing_reference
