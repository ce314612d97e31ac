-- ===== src/Version.antt =====
-- version/version.go: versions `major.minor.bugfix(-meta)`, their parser and their orders.
pub mod Order
pub mod Parse
use elastic_agent_libs.Prelude.{
  ℕ, Bytes, split, contains, atoi, eq_bytes, le_bytes, List, [], ◌∷◌, Option, none, some, Bool,
  true, false, ◌&&◌, Result, ok, err, ◌>>=◌, ltb, ◌==◌, if◌then◌else◌,
}

pub record V : Type 0 where
  pub version : Bytes
  pub major : ℕ
  pub minor : ℕ
  pub bugfix : ℕ
  pub meta : Bytes

pub data VersionError : Type 0 where
  not_semver bad_major bad_minor bad_bugfix : VersionError

abbrev convert : Bytes → VersionError → Result VersionError ℕ
convert s e = elim (atoi s) [ some n ↦ ok n | none ↦ err e ]

-- `New` past the split at the dash.
unfoldable pub parse_numbers : Bytes → Bytes → List Bytes → Result VersionError V
parse_numbers version meta (a ∷ b ∷ c ∷ []) = do
  major ← convert a bad_major
  minor ← convert b bad_minor
  bugfix ← convert c bad_bugfix
  ok (record { version = version; major = major; minor = minor; bugfix = bugfix; meta = meta })
parse_numbers version meta _ = err not_semver

-- `tmp[0]` and `tmp[1]` of the pieces between the dashes; a version without a dash is one piece.
abbrev parse_pieces : Bytes → List Bytes → Result VersionError V
parse_pieces version (numbers ∷ meta ∷ _) = parse_numbers version meta (split b'.' numbers)
parse_pieces version _ = parse_numbers version [] (split b'.' version)

-- `New`.
unfoldable pub new : Bytes → Result VersionError V
unfolding parse_numbers
new version =
    if contains b'-' version
    then parse_pieces version (split b'-' version)
    else parse_numbers version [] (split b'.' version)

unfoldable pub is_valid : V → Bool
is_valid v = elim v.version [ [] ↦ false | _ ∷ _ ↦ true ]

unfoldable pub is_major : V → ℕ → Bool
is_major v major = major == v.major

abbrev is_empty : Bytes → Bool
is_empty [] = true
is_empty (_ ∷ _) = false

unfoldable pub meta_is_less_than_or_equal : V → V → Bool
meta_is_less_than_or_equal v w =
    if is_empty v.meta && is_empty w.meta
    then true
    else if is_empty v.meta
    then false
    else if is_empty w.meta
    then true
    else le_bytes v.meta w.meta

unfoldable pub less_than_or_equal : Bool → V → V → Bool
unfolding meta_is_less_than_or_equal
less_than_or_equal with_meta v w =
    if with_meta && eq_bytes v.version w.version
    then true
    else if ltb v.major w.major
    then true
    else if v.major == w.major
    then (if ltb v.minor w.minor
        then true
        else if v.minor == w.minor
        then (if ltb v.bugfix w.bugfix
            then true
            else if v.bugfix == w.bugfix
            then (if with_meta then meta_is_less_than_or_equal v w else true)
            else false)
        else false)
    else false

unfoldable pub less_than_major_minor : V → V → Bool
less_than_major_minor v w =
    if ltb v.major w.major then true else if v.major == w.major then ltb v.minor w.minor else false

unfoldable pub less_than : V → V → Bool
unfolding less_than_major_minor
less_than v w =
    if less_than_major_minor v w
    then true
    else if v.minor == w.minor
    then ltb v.bugfix w.bugfix
    else false

-- `MustNew`; the result is none where it panics.
unfoldable pub must_new : Bytes → Option V
unfolding new
must_new version = elim (new version) [ ok v ↦ some v | err e ↦ none ]

-- `V.String`.
unfoldable pub version_string : V → Bytes
version_string v = v.version
