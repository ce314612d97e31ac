-- ===== src/Dissect/Resolve.antt =====
-- processors/dissect/dissect.go: `resolve`, which fills the map of the results, and `Dissect`.
use elastic_agent_libs.Prelude.{
  ◌-◌, Bytes, ◌&&◌, List, [], ◌∷◌, Option, none, some, Result, ok, err, ◌>>=◌, length, take, drop,
  leb, get_elem?, if◌then◌else◌,
}
use elastic_agent_libs.Prelude.Assoc.{Assoc, erase}
use elastic_agent_libs.Dissect.Delimiter.{DissectError, empty_string, slice_bounds}
use elastic_agent_libs.Dissect.Field.{Field, base, apply}
use elastic_agent_libs.Dissect.Parser.{Parser}
use elastic_agent_libs.Dissect.Extract.{Position, extract}
use elastic_agent_libs.Dissect.Trim.{AsciiTrimmer, trim}

-- `s[pos.start:pos.end]`.
unfoldable pub slice : Bytes → Position → Result DissectError Bytes
slice s pos =
    if leb pos.start pos.stop && leb pos.stop (length s)
    then ok (take (pos.stop - pos.start) (drop pos.start s))
    else err slice_bounds

-- `p[f.ID()]`.
abbrev position_of : List Position → Field → Result DissectError Position
position_of ps f = elim (get_elem? ps (base f).id) [ some pos ↦ ok pos | none ↦ err slice_bounds ]

-- The loop over the fields.
unfoldable pub apply_fields :
    Bytes → List Position → List Field → Assoc Bytes → Result DissectError (Assoc Bytes)
unfolding slice
apply_fields s ps [] m = ok m
apply_fields s ps (f ∷ fs) m = do
  pos ← position_of ps f
  b ← slice s pos
  apply_fields s ps fs (apply f b m)

-- The loop over the reference fields.
unfoldable pub delete_fields : List Field → Assoc Bytes → Assoc Bytes
delete_fields [] m = m
delete_fields (f ∷ fs) m = delete_fields fs (erase (base f).key m)

-- `resolve`.
unfoldable pub resolve : Parser → Bytes → List Position → Result DissectError (Assoc Bytes)
unfolding apply_fields delete_fields
resolve p s ps = do m ← apply_fields s ps p.fields []; ok (delete_fields p.reference_fields m)

abbrev trim_all : Option AsciiTrimmer → Bytes → List Position → List Position
trim_all none s ps = ps
trim_all (some t) s [] = []
trim_all (some t) s (pos ∷ ps) =
    let r = trim t s pos.start pos.stop in
    record { start = r.0; stop = r.1 } ∷ trim_all (some t) s ps

-- `Dissect`, with the trimmer of the dissector, or none.
unfoldable pub dissect : Parser → Option AsciiTrimmer → Bytes → Result DissectError (Assoc Bytes)
unfolding resolve
dissect p trimmer [] = err empty_string
dissect p trimmer (c ∷ s) = do
  ps ← extract p (c ∷ s)
  resolve p (c ∷ s) (trim_all trimmer (c ∷ s) ps)
