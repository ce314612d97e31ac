-- ===== src/Mapstr/Find/Others.antt =====
-- `Put` and `Delete` leave alone every dotted key that diverges from theirs.
use elastic_agent_libs.Prelude.{
  Bytes, join, free-ne_join, join-ne, eq_bytes, eq_bytes_iff, AllFree, split-AllFree, diverges,
  split, contains, sym, ◌⊎◌, List, [], ◌∷◌, Option, none, some, true, false, ok, err, ◌>>=◌, ◌≡◌,
  refl, arith, ◌∙◌, ap, Option-cases, inl, inr,
}
use elastic_agent_libs.Mapstr.Value.{
  Value, Fields, M, lookup, insert, lookup-insert, to_mapstr, with_map, end, key_not_found,
}
use elastic_agent_libs.Mapstr.Find.{sub_entry, get_value, put}
use elastic_agent_libs.Mapstr.Find.Direct.{
  required, get_from, put_from, put_pieces, get_pieces, get_value-pieces, put-pieces,
}
use elastic_agent_libs.Mapstr.Find.PutGet.{
  Descends, put_from-Descends, put_from-present, Descends-is_map, get_from-present, get_from-below,
  lookup-insert_self,
}

pub get_from-absent :
    (f : Fields) (s t : Bytes) (rest : List Bytes)
    → lookup (join b'.' (s ∷ t ∷ rest)) f ≡ none
    → get_from (some f) s (t ∷ rest)
      ≡ (do e ← required (lookup s f); v ← to_mapstr e; get_from v t rest)
unfolding get_from
get_from-absent f s t rest absent = rw (absent, get_from)

-- `GetValue` of two maps that agree at the whole key and at its first piece.
get_from-agree :
    (f g : Fields) (s : Bytes) (rest : List Bytes)
    → lookup (join b'.' (s ∷ rest)) g ≡ lookup (join b'.' (s ∷ rest)) f
    → lookup s g ≡ lookup s f
    → get_from (some g) s rest ≡ get_from (some f) s rest
get_from-agree f g s [] whole first = unfold get_from in ap required first
get_from-agree f g s (t ∷ rest) whole first =
    elim (Option-cases (lookup (join b'.' (s ∷ t ∷ rest)) f)) [
      | inr (w, present) ↦
          get_from-present g s t rest (whole ∙ present) ∙ sym (get_from-present f s t rest present)
      | inl absent ↦
          get_from-absent g s t rest (whole ∙ absent)
          ∙ ap (λ (o : Option Value). do e ← required o; v ← to_mapstr e; get_from v t rest) first
          ∙ sym (get_from-absent f s t rest absent)
    ]

eq_bytes_comm : (a b : Bytes) → eq_bytes a b ≡ eq_bytes b a
eq_bytes_comm a b = ground (arith, eq_bytes_iff a b, eq_bytes_iff b a)

lookup-insert_ne :
    (k j : Bytes) (v : Value) (f : Fields)
    → eq_bytes k j ≡ false
    → lookup j (insert k v f) ≡ lookup j f
lookup-insert_ne k j v f h = rw (lookup-insert, h)

-- A free piece is not the whole key that begins with another piece.
head-ne_join :
    (s p : Bytes) (ps : List Bytes)
    → contains b'.' s ≡ false
    → eq_bytes s p ≡ false
    → eq_bytes s (join b'.' (p ∷ ps)) ≡ false
unfolding join
head-ne_join s p [] free ne = ne
head-ne_join s p (q ∷ ps) free ne = free-ne_join b'.' s p q ps free

pub get_from-end : (s : Bytes) (rest : List Bytes) → get_from (some end) s rest ≡ err key_not_found
unfolding get_from lookup
get_from-end s [] = refl
get_from-end s (t ∷ rest) = refl

-- What a write below the first level found at its first piece: an entry that was there, or nothing,
-- and then it went into a new map.
pub entry_was :
    (f : Fields) (s : Bytes) {e : Value} {m : M}
    → sub_entry true (some f) s ≡ ok e
    → to_mapstr e ≡ ok m
    → (lookup s f ≡ some e) ⊎ ((lookup s f ≡ none) × (m ≡ some end))
entry_was f s found is_map = elim (Option-cases (lookup s f)) [
  | inl missing ↦ inr (missing, ground arith)
  | inr (w, there) ↦ inl (ground arith)
]

pub get_from-missing :
    (f : Fields) (s t : Bytes) (rest : List Bytes)
    → lookup (join b'.' (s ∷ t ∷ rest)) f ≡ none
    → lookup s f ≡ none
    → get_from (some f) s (t ∷ rest) ≡ err key_not_found
unfolding get_from
get_from-missing f s t rest absent missing = rw (absent, get_from) (rw (missing, ◌>>=◌))

-- Two maps read alike below an entry that a write went through, if what is below reads alike.
get_from-Descends :
    (f : Fields) (s t : Bytes) (rest : List Bytes) (v : Value) {m' : M} {old : Option Value}
    (d : Descends f s t rest v m' old) (t' : Bytes) (rest' : List Bytes)
    → contains b'.' s ≡ false
    → get_from d.inner' t' rest' ≡ get_from d.inner t' rest'
    → get_from m' s (t' ∷ rest') ≡ get_from (some f) s (t' ∷ rest')
get_from-Descends f s t rest v d t' rest' free ih =
    let whole =
      lookup-insert_ne s (join b'.' (s ∷ t' ∷ rest')) (with_map d.entry d.inner') f
        (free-ne_join b'.' s s t' rest' free) in
    rw d.result (elim (Option-cases (lookup (join b'.' (s ∷ t' ∷ rest')) f)) [
      | inr (w, present) ↦
          get_from-present _ s t' rest' (whole ∙ present)
          ∙ sym (get_from-present f s t' rest' present)
      | inl absent ↦
          get_from-below _ s t' rest' (whole ∙ absent) (lookup-insert_self s _ f)
            (Descends-is_map f s t rest v d)
          ∙ ih
          ∙ elim (entry_was f s d.found d.is_map) [
            | inl there ↦ sym (get_from-below f s t' rest' absent there d.is_map)
            | inr (missing, new) ↦
                rw new (get_from-end t' rest') ∙ sym (get_from-missing f s t' rest' absent missing)
          ]
    ])

insert_result :
    (f : Fields) (s : Bytes) (v : Value) {m' : M} {old : Option Value}
    → put_from (some f) s [] v ≡ ok (m', old)
    → m' ≡ some (insert s v f)
unfolding put_from
insert_result f s v h = ground arith

-- A write below the first level changes only the entry at its first piece.
get_from-other_head :
    (f : Fields) (s t : Bytes) (rest : List Bytes) (v : Value) {m' : M} {old : Option Value}
    (d : Descends f s t rest v m' old) (s' : Bytes) (rest' : List Bytes)
    → contains b'.' s ≡ false
    → eq_bytes s s' ≡ false
    → get_from m' s' rest' ≡ get_from (some f) s' rest'
get_from-other_head f s t rest v d s' rest' free ne = rw d.result (
    get_from-agree f _ s' rest' (lookup-insert_ne s _ _ f (head-ne_join s s' rest' free ne))
      (lookup-insert_ne s s' _ f ne))

-- A write at the whole key of several pieces changes nothing else.
get_from-whole_key :
    (f : Fields) (s t : Bytes) (rest : List Bytes) (v : Value) (s' : Bytes) (rest' : List Bytes)
    → AllFree b'.' (s ∷ t ∷ rest)
    → AllFree b'.' (s' ∷ rest')
    → diverges (s ∷ t ∷ rest) (s' ∷ rest') ≡ true
    → get_from (some (insert (join b'.' (s ∷ t ∷ rest)) v f)) s' rest' ≡ get_from (some f) s' rest'
get_from-whole_key f s t rest v s' rest' a b ne =
    get_from-agree f _ s' rest'
      (lookup-insert_ne _ _ v f (join-ne b'.' s (t ∷ rest) s' rest' a b ne))
      (lookup-insert_ne _ s' v f (eq_bytes_comm _ s' ∙ free-ne_join b'.' s' s t rest b.0))

diverges-nil : (ps : List Bytes) → diverges ps [] ≡ true → ⊥
unfolding diverges
diverges-nil [] h = cc
diverges-nil (p ∷ ps) h = cc

diverges-heads :
    (s : Bytes) (rest : List Bytes) (s' : Bytes) (rest' : List Bytes)
    → diverges (s ∷ rest) (s' ∷ rest') ≡ true
    → (eq_bytes s s' ≡ false) ⊎ ((s ≡ s') × (diverges rest rest' ≡ true))
unfolding diverges
diverges-heads s rest s' rest' h = ground (arith, eq_bytes_iff s s')

get_from-put_from_ne :
    (rest : List Bytes) (d : M) (s s' : Bytes) (rest' : List Bytes) (v : Value) {m' : M}
    {old : Option Value}
    → AllFree b'.' (s ∷ rest)
    → AllFree b'.' (s' ∷ rest')
    → diverges (s ∷ rest) (s' ∷ rest') ≡ true
    → put_from d s rest v ≡ ok (m', old)
    → get_from m' s' rest' ≡ get_from d s' rest'
get_from-put_from_ne [] none s s' rest' v a b ne h = unfold put_from in cc
get_from-put_from_ne [] (some f) s s' rest' v {m'} a b ne h =
    let kept =
      get_from-agree f (insert s v f) s' rest'
        (lookup-insert_ne s _ v f (unfold join in join-ne b'.' s [] s' rest' a b ne))
        (lookup-insert_ne s s' v f (unfold diverges in ground arith)) in
    rw (insert_result f s v h) kept
get_from-put_from_ne (t ∷ rest) none s s' rest' v a b ne h = unfold put_from in cc
get_from-put_from_ne (t ∷ rest) (some f) s s' rest' v a b ne h =
    elim (Option-cases (lookup (join b'.' (s ∷ t ∷ rest)) f)) [
      | inr (w, present) ↦
          rw ((put_from-present f s t rest v w present h).0)
            (get_from-whole_key f s t rest v s' rest' a b ne)
      | inl absent ↦
          let d = put_from-Descends f s t rest v absent h in
          elim (diverges-heads s (t ∷ rest) s' rest' ne) [
            | inl other ↦ get_from-other_head f s t rest v d s' rest' a.0 other
            | inr (same, below) ↦ rw (← same) (
                below_same d rest' below b.1 (λ t' rest'' b' n.
                  get_from-put_from_ne rest d.inner t t' rest'' v a.1 b' n d.below))
          ]
    ]
  where
    below_same :
        {m' : M} {old : Option Value} (d : Descends f s t rest v m' old) (r : List Bytes)
        → diverges (t ∷ rest) r ≡ true
        → AllFree b'.' r
        → ((t' : Bytes) (r' : List Bytes)
            → AllFree b'.' (t' ∷ r')
            → diverges (t ∷ rest) (t' ∷ r') ≡ true
            → get_from d.inner' t' r' ≡ get_from d.inner t' r')
        → get_from m' s r ≡ get_from (some f) s r
    below_same d [] n free ih = absurd (diverges-nil (t ∷ rest) n)
    below_same d (t' ∷ r') n free ih = get_from-Descends f s t rest v d t' r' a.0 (ih t' r' free n)

-- After a `Put` that succeeds, `GetValue` of every dotted key of which neither is a prefix of the
-- other, piece by piece, returns what it returned before, its error included.
pub get_value-put_ne :
    (m : M) (key other : Bytes) (v : Value) {m' : M} {old : Option Value}
    → diverges (split b'.' key) (split b'.' other) ≡ true
    → put m key v ≡ ok (m', old)
    → get_value m' other ≡ get_value m other
get_value-put_ne m key other v {m'} {old} ne h =
    rw (get_value-pieces m' other, get_value-pieces m other)
      (go (split b'.' key) (split b'.' other) (split-AllFree b'.' key) (split-AllFree b'.' other) ne
        (rw put-pieces at h))
  where
    go :
        (ps qs : List Bytes)
        → AllFree b'.' ps
        → AllFree b'.' qs
        → diverges ps qs ≡ true
        → put_pieces m ps v ≡ ok (m', old)
        → get_pieces m' qs ≡ get_pieces m qs
    go [] qs a b n e = cc
    go (s ∷ rest) [] a b n e = refl
    go (s ∷ rest) (s' ∷ rest') a b n e = get_from-put_from_ne rest m s s' rest' v a b n e
