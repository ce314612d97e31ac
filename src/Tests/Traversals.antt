-- ===== src/Tests/Traversals.antt =====
-- `Traverse` of mapstr/mapstr.go on a small map, with the folding of ASCII letters.
use elastic_agent_libs.Prelude.{
  ℕ, ◌+◌, ◌&&◌, leb, Bytes, codes, split, join, eq_bytes, Bool, false, map, List, Option, some,
  none, ok, if◌then◌else◌, ◌≡◌, refl,
}
use elastic_agent_libs.Mapstr.Value.{
  Value, mapstr, other, Fields, end, field, lookup, insert, remove,
}
use elastic_agent_libs.Mapstr.Find.Walk.{walk}
use elastic_agent_libs.Mapstr.Traverse.{
  case_insensitive, matcher, traverse_from, traverse, find_fold, alter_path,
}
use elastic_agent_libs.Mapstr.Traverse.Fold.{AllMatch, find_fold-walk}
use elastic_agent_libs.Mapstr.Traverse.Alter.{Altered, alter_path-walk}

abbrev lower : ℕ → ℕ
lower c = if leb 65 c && leb c 90 then c + 32 else c

abbrev ascii_fold : Bytes → Bytes → Bool
ascii_fold a b = eq_bytes (map lower a) (map lower b)

abbrev to_lower : Bytes → Option Bytes
to_lower k = some (map lower k)

abbrev headers : Fields
headers = field (codes "Host") (mapstr (field (codes "IP") (other 7) end)) end

abbrev lower_headers : Fields
lower_headers = field (codes "host") (mapstr (field (codes "ip") (other 7) end)) end

find_fold-headers :
    find_fold ascii_fold false (some headers) (codes "host.ip") ≡ ok (codes "Host.IP", other 7)
unfolding find_fold traverse traverse_from split eq_bytes lookup
find_fold-headers = refl

find_fold-walk_example :
    (ks : List Bytes) × (codes "Host.IP" ≡ join b'.' ks)
    × AllMatch ascii_fold (split b'.' (codes "host.ip")) ks
    × (walk (some headers) ks ≡ ok (other 7))
find_fold-walk_example =
    find_fold-walk ascii_fold false (some headers) (codes "host.ip") find_fold-headers

alter_path-headers :
    alter_path ascii_fold false (some headers) (codes "HOST.ip") case_insensitive to_lower
    ≡ record { state = tt; whole = some lower_headers; failed = none }
unfolding alter_path traverse traverse_from split eq_bytes lookup insert remove
alter_path-headers = refl

alter_path-fine :
    (alter_path ascii_fold false (some headers) (codes "HOST.ip") case_insensitive to_lower).failed
    ≡ none
unfolding alter_path split eq_bytes lookup
alter_path-fine = refl

alter_path-walk_example :
    (ks : List Bytes) × (ns : List Bytes) × (v : Value) × AllMatch
      (matcher ascii_fold case_insensitive)
      (split b'.' (codes "HOST.ip"))
      ks
    × Altered to_lower ks ns
    × (walk (some headers) ks ≡ ok v)
    × (walk
          (alter_path ascii_fold false
            (some headers)
            (codes "HOST.ip")
            case_insensitive
            to_lower).whole
          ns
        ≡ ok v)
alter_path-walk_example =
    alter_path-walk ascii_fold false (some headers) (codes "HOST.ip") case_insensitive to_lower
      alter_path-fine
