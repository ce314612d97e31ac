-- ===== src/Dissect/KeyParts.antt =====
-- processors/dissect/const.go and field.go: the expression `suffixRE` and `extractKeyParts`. The
-- expression takes the shortest text of one character or more, no newline among them, that is
-- followed to the end by an optional ordinal `/d`, an optional length `#d`, an optional `->` and an
-- optional `|type`, where `d` is one digit or two.
use elastic_agent_libs.Prelude.{
  ℕ, ◌+◌, ◌-◌, ◌*◌, Bytes, Bool, true, false, ◌&&◌, ◌||◌, [], ◌∷◌, Option, none, some, leb, ◌==◌,
  is_digit, if◌then◌else◌,
}

pub record KeyParts : Type 0 where
  pub key : Bytes
  pub data_type : Bytes
  pub ordinal : ℕ
  pub length : ℕ
  pub greedy : Bool

abbrev is_alpha : ℕ → Bool
is_alpha c = leb b'a' c && leb c b'z' || leb b'A' c && leb c b'Z'

abbrev all_alpha : Bytes → Bool
all_alpha [] = true
all_alpha (c ∷ cs) = is_alpha c && all_alpha cs

-- `(mark(\d{1,2}))?`: the number, 0 without one, and what follows. A mark without a digit behind it is
-- left where it is, and so matches nothing that follows.
unfoldable pub mark_number : ℕ → Bytes → ℕ × Bytes
mark_number mark (m ∷ a ∷ b ∷ rest) =
    if m == mark && is_digit a
    then (if is_digit b then ((a - b'0') * 10 + (b - b'0'), rest) else (a - b'0', b ∷ rest))
    else (0, m ∷ a ∷ b ∷ rest)
mark_number mark (m ∷ a ∷ []) = if m == mark && is_digit a then (a - b'0', []) else (0, m ∷ a ∷ [])
mark_number mark s = (0, s)

-- `(->)?`
unfoldable pub greedy_suffix : Bytes → Bool × Bytes
greedy_suffix (a ∷ b ∷ rest) =
    if a == b'-' && b == b'>' then (true, rest) else (false, a ∷ b ∷ rest)
greedy_suffix s = (false, s)

-- `(\|([[:alpha:]]*)?)?$`: the data type.
unfoldable pub type_suffix : Bytes → Option Bytes
type_suffix [] = some []
type_suffix (c ∷ cs) = if c == b'|' && all_alpha cs then some cs else none

-- The whole of what follows the key.
unfoldable pub suffix : Bytes → Option KeyParts
unfolding mark_number greedy_suffix type_suffix
suffix s =
    let (ordinal, s₁) = mark_number b'/' s in
    let (length, s₂) = mark_number b'#' s₁ in
    let (greedy, s₃) = greedy_suffix s₂ in
    elim (type_suffix s₃) [
      | some t ↦
          some (record {
            key = [];
            data_type = t;
            ordinal = ordinal;
            length = length;
            greedy = greedy;
          })
      | none ↦ none
    ]

abbrev cons_key : ℕ → Option KeyParts → Option KeyParts
cons_key c none = none
cons_key c (some p) = some (record p { key = c ∷ p.key })

-- The match that begins at the first byte.
unfoldable pub key_from : Bytes → Option KeyParts
unfolding suffix
key_from [] = none
key_from (c ∷ cs) =
    let longer = cons_key c (key_from cs) in
    if c == b'\n'
    then none
    else elim (suffix cs) [ some p ↦ some (record p { key = c ∷ [] }) | none ↦ longer ]

-- `extractKeyParts`: the leftmost match; `none` is the panic where there is none.
unfoldable pub extract_key_parts : Bytes → Option KeyParts
unfolding key_from
extract_key_parts [] = none
extract_key_parts (c ∷ cs) =
    let later = extract_key_parts cs in elim (key_from (c ∷ cs)) [ some p ↦ some p | none ↦ later ]
