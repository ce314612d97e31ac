-- ===== src/Dissect/Extract/Safe.antt =====
-- `extract` of processors/dissect/dissect.go on patterns without fields of fixed length: it ends, it
-- does not panic, and its positions lie in the input.
use elastic_agent_libs.Prelude.{
  ℕ, zero, suc, ◌+◌, ◌≤◌, ◌<◌, Bytes, false, Bool-cases, List, [], ◌∷◌, ◌++◌, none, some, inl, inr,
  ◌⊎◌, Result, ok, err, ◌>>=◌, ◌≡◌, refl, arith, length, ltb, ltb→lt, if◌then◌else◌,
}
use elastic_agent_libs.Dissect.Delimiter.{
  Delimiter, zero_byte, multi_byte, DissectError, no_beginning_delimiter, delimiter_not_found,
  index_of, delimiter_len, is_greedy,
}
use elastic_agent_libs.Dissect.Field.{Field, is_fixed_length}
use elastic_agent_libs.Dissect.Parser.{Parser}
use elastic_agent_libs.Dissect.Extract.{
  Position, field_at, skip_padding, field_end, extract_loop, nowhere, finish, extract,
}
use elastic_agent_libs.Dissect.Extract.Bounds.{index_of-Finds, skip_padding-room}

-- The delimiter behind a key: not empty, or empty and behind a key without padding.
abbrev pub Separates : Delimiter → Delimiter → Type 0
Separates dl (zero_byte _) = is_greedy dl ≡ false
Separates dl (multi_byte needle _) = 0 < length needle

-- Each delimiter separates the key in front of it.
abbrev pub AllSeparate : Delimiter → List Delimiter → Type 0
AllSeparate dl [] = Unit
AllSeparate dl (next ∷ rest) = Separates dl next × AllSeparate next rest

abbrev pub HasNoFixed : List Field → Type 0
HasNoFixed fields = (i : ℕ) → is_fixed_length (field_at fields i) ≡ false

-- Each position is a range of the first `n` bytes.
abbrev pub AllWithin : ℕ → List Position → Type 0
AllWithin n [] = Unit
AllWithin n (p ∷ ps) = (p.start ≤ p.stop) × (p.stop ≤ n) × AllWithin n ps

-- The padding of one round.
padding :
    (dl next : Delimiter) (s : Bytes) (e : ℕ)
    → Separates dl next
    → e + delimiter_len next ≤ length s
    → (n : ℕ) × ((if is_greedy dl then skip_padding (suc (length s)) next s e else ok e) ≡ ok n)
      × (n + delimiter_len next ≤ length s)
unfolding delimiter_len
padding dl (zero_byte g) s e sep room = (e, rw sep refl, room)
padding dl (multi_byte needle g) s e sep room = elim (Bool-cases (is_greedy dl)) [
  | inl greedy ↦
      let (n, runs, _, inside) =
        skip_padding-room (suc (length s)) needle s g e sep room (omega arith) in
      (n, rw greedy runs, inside)
  | inr lazy ↦ (e, rw lazy refl, room)
]

-- What the main loop returns.
abbrev Loops : Bytes → Result DissectError (List Position × ℕ × ℕ) → Type 0
Loops s r =
    (r ≡ err delimiter_not_found)
    ⊎ ((ps : List Position) × (offset : ℕ) × (i : ℕ) × (r ≡ ok (ps, offset, i))
        × AllWithin (length s) ps
        × (offset ≤ length s))

field_end-index_of :
    (field : Field) (next : Delimiter) (s : Bytes) (offset : ℕ)
    → is_fixed_length field ≡ false
    → field_end field next s offset ≡ (
        index_of next s offset >>= λ found. elim found [
          | some e ↦ ok e
          | none ↦ err delimiter_not_found
        ])
unfolding field_end
field_end-index_of field next s offset h = rw h refl

field_end-found :
    (field : Field) (next : Delimiter) (s : Bytes) (offset : ℕ) {e : ℕ}
    → is_fixed_length field ≡ false
    → index_of next s offset ≡ ok (some e)
    → field_end field next s offset ≡ ok e
field_end-found field next s offset h found =
    rw (field_end-index_of field next s offset h) (rw (found, ◌>>=◌) refl)

-- One more position in front of those of the later rounds.
round-Loops :
    (s : Bytes) (p : Position) (r : Result DissectError (List Position × ℕ × ℕ))
    → p.start ≤ p.stop
    → p.stop ≤ length s
    → Loops s r
    → Loops s (r >>= λ found. ok (p ∷ found.0, found.1, found.2))
round-Loops s p r a b (inl e) = inl (rw (e, ◌>>=◌) refl)
round-Loops s p r a b (inr (ps, offset, i, e, all, h)) =
    inr (p ∷ ps, offset, i, rw (e, ◌>>=◌) refl, (a, b, all), h)

extract_loop-Loops :
    (s : Bytes) (fields : List Field) (i offset : ℕ) (dl : Delimiter) (rest : List Delimiter)
    → HasNoFixed fields
    → AllSeparate dl rest
    → offset ≤ length s
    → Loops s (extract_loop s fields i offset dl rest)
unfolding extract_loop
extract_loop-Loops s fields i offset dl [] no_fixed sep h = inr ([], offset, i, refl, tt, h)
extract_loop-Loops s fields i offset dl (next ∷ rest) no_fixed sep h =
    elim (index_of-Finds next s offset h) [
      | inl gone ↦ inl (
          rw (field_end-index_of (field_at fields i) next s offset (no_fixed i))
            (rw (gone, ◌>>=◌) refl))
      | inr (e, found, behind, room) ↦
          let (n, runs, inside) = padding dl next s e sep.0 room in
          let later =
            extract_loop-Loops s fields (suc i) (n + delimiter_len next) next rest no_fixed sep.1
              inside in
          rw (field_end-found (field_at fields i) next s offset (no_fixed i) found, ◌>>=◌)
            (rw (runs, ◌>>=◌)
              (round-Loops s (record { start = offset; stop = e }) _ behind (omega arith) later))
    ]

AllWithin-append :
    (n : ℕ) (ps : List Position) (p : Position)
    → AllWithin n ps
    → p.start ≤ p.stop
    → p.stop ≤ n
    → AllWithin n (ps ++ p ∷ [])
AllWithin-append n [] p all a b = (a, b, tt)
AllWithin-append n (q ∷ ps) p all a b = (all.0, all.1, AllWithin-append n ps p all.2 a b)

-- The rest of the input behind the offset, or no range.
AllWithin-rest :
    (n offset : ℕ) (ps : List Position)
    → AllWithin n ps
    → AllWithin n
        (ps ++ (if ltb offset n then record { start = offset; stop = n } else nowhere) ∷ [])
AllWithin-rest n offset ps all = elim (Bool-cases (ltb offset n)) [
  | inl more ↦ rw more (
      AllWithin-append n ps (record { start = offset; stop = n }) all
        (ground (arith, ltb→lt offset n)) (omega arith))
  | inr no_more ↦ rw no_more (AllWithin-append n ps nowhere all (omega arith) (omega arith))
]

finish-AllWithin :
    (s : Bytes) (fields : List Field) (ps : List Position) (offset i : ℕ)
    → HasNoFixed fields
    → AllWithin (length s) ps
    → offset ≤ length s
    → (qs : List Position) × (finish s fields (ps, offset, i) ≡ ok qs) × AllWithin (length s) qs
unfolding finish
finish-AllWithin s fields ps offset i no_fixed all h =
    rw (no_fixed i) (elim (Bool-cases (ltb i (length fields))) [
      | inl more ↦ (
        ps
            ++ (if ltb offset (length s)
                then record { start = offset; stop = length s }
                else nowhere)
              ∷ [],
        rw more refl,
        AllWithin-rest (length s) offset ps all,
      )
      | inr no_more ↦ (ps, rw no_more refl, all)
    ])

-- On a pattern without fields of fixed length, each of whose delimiters is not empty, or empty and
-- behind a key without padding, `extract` ends without a panic on every input: with one of two errors,
-- that the input does not begin with the first delimiter or that a later one is missing, or with
-- positions that are ranges of the input.
pub extract-AllWithin :
    (p : Parser) (s : Bytes) {dl : Delimiter} {rest : List Delimiter}
    → p.delimiters ≡ dl ∷ rest
    → HasNoFixed p.fields
    → AllSeparate dl rest
    → (extract p s ≡ err no_beginning_delimiter)
      ⊎ ((extract p s ≡ err delimiter_not_found)
          ⊎ ((ps : List Position) × (extract p s ≡ ok ps) × AllWithin (length s) ps))
unfolding extract
extract-AllWithin p s {dl} {rest} e no_fixed sep =
    rw e (elim (index_of-Finds dl s 0 (omega arith)) [
      | inl gone ↦ inl (rw (gone, ◌>>=◌) refl)
      | inr (zero, found, _, room) ↦
          rw (found, ◌>>=◌)
            (elim (extract_loop-Loops s p.fields 0 (delimiter_len dl) dl rest no_fixed sep
              (omega (arith, room))) [
                | inl missing ↦ inr (inl (rw (missing, ◌>>=◌) refl))
                | inr (ps, offset, i, runs, all, h) ↦
                    let (qs, ends, within) =
                      finish-AllWithin s p.fields ps offset i no_fixed all h in
                    inr (inr (qs, rw (runs, ◌>>=◌) ends, within))
              ])
      | inr (suc n, found, _, room) ↦ inl (rw (found, ◌>>=◌) refl)
    ])
