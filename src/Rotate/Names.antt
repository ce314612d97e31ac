-- ===== src/Rotate/Names.antt =====
-- file/rotator.go: the names that `dateRotator` gives to the files and the order that it reads back
-- from them. The dates of package time and `Itoa` are a record of functions; what `Glob` finds is an
-- argument.
pub mod RoundTrip
use elastic_agent_libs.Prelude.{
  ℕ, ◌+◌, ◌-◌, Bytes, codes, atoi, Bool, true, false, not, ◌&&◌, List, [], ◌∷◌, ◌++◌, length, take,
  drop, Option, none, some, Result, ok, err, ◌>>=◌, ◌==◌, ltb, leb, eq_bytes, if◌then◌else◌,
}
use elastic_agent_libs.Prelude.Assoc.{Assoc, find, write}
use elastic_agent_libs.Rotate.Trigger.{Time}

-- `slice_bounds` is a panic of the Go program.
pub data RotateError : Type 0 where
  slice_bounds bad_pattern : RotateError

-- `time.Time.Format` and `time.Parse` with the layout `DateFormat`, a date as the number of its day,
-- and `strconv.Itoa`.
pub record Formats : Type 0 where
  pub format : Time → Bytes
  pub parse : Bytes → Option ℕ
  pub itoa : ℕ → Bytes

-- `len(DateFormat)`.
abbrev pub date_len : ℕ
date_len = 8

-- `logOrder`. The zero time, of a name that holds no date, is day 0.
pub record LogOrder : Type 0 where
  pub index : ℕ
  pub datetime : ℕ

abbrev pub no_order : LogOrder
no_order = record { index = 0; datetime = 0 }

-- `logOrder.After`.
unfoldable pub after : LogOrder → LogOrder → Bool
after o other =
    if o.datetime == other.datetime
    then ltb o.index other.index
    else not (ltb other.datetime o.datetime)

-- `dateRotator`, whose three lengths are those of its texts.
pub record DateRotator : Type 0 where
  pub filename_prefix : Bytes
  pub current_filename : Bytes
  pub extension : Bytes
  pub log_order_cache : Assoc LogOrder

abbrev pub prefix_len : DateRotator → ℕ
prefix_len d = length d.filename_prefix

abbrev pub filename_len : DateRotator → ℕ
filename_len d = prefix_len d + date_len

-- `filename[start:stop]`.
unfoldable pub slice : Bytes → ℕ → ℕ → Result RotateError Bytes
slice s start stop =
    if leb start stop && leb stop (length s)
    then ok (take (stop - start) (drop start s))
    else err slice_bounds

abbrev pub is_filename_with_index : DateRotator → Bytes → Bool
is_filename_with_index d filename = ltb (filename_len d + length d.extension) (length filename)

-- The number of a text that is not empty: none where `Atoi` fails. A minus sign, and an index too great
-- for an `int`, of which `Atoi` returns the greatest `int` with its error, are not modelled.
abbrev pub index_number : Bytes → Option ℕ
index_number [] = some 0
index_number (c ∷ cs) = atoi (c ∷ cs)

-- `filenameIndex`.
unfoldable pub filename_index : DateRotator → Bytes → Result RotateError (Option ℕ)
unfolding slice
filename_index d filename = do
  s ← slice filename (filename_len d + 1) (length filename - length d.extension)
  ok (index_number s)

abbrev pub cache : Bytes → LogOrder → DateRotator → LogOrder × DateRotator
cache filename o d = (
  o,
  record {
    filename_prefix = d.filename_prefix;
    current_filename = d.current_filename;
    extension = d.extension;
    log_order_cache = write filename o d.log_order_cache;
  },
)

-- `OrderLog` past the cache, where the date is one: the index of the name if it has one.
unfoldable pub order_index : DateRotator → Bytes → ℕ → Result RotateError (LogOrder × DateRotator)
unfolding filename_index
order_index d filename day =
    if is_filename_with_index d filename
    then (do
      i ← filename_index d filename
      ok (elim i [
        | some n ↦ cache filename (record { index = n; datetime = day }) d
        | none ↦ (record { index = 0; datetime = day }, d)
      ]))
    else ok (cache filename (record { index = 0; datetime = day }) d)

-- `OrderLog`. A name that holds no date, or no number, does not enter the cache.
unfoldable pub order_log :
    Formats → DateRotator → Bytes → Result RotateError (LogOrder × DateRotator)
unfolding slice order_index
order_log formats d filename = elim (find filename d.log_order_cache) [
  | some o ↦ ok (o, d)
  | none ↦ do
    s ← slice filename (prefix_len d) (filename_len d)
    elim (formats.parse s) [ some day ↦ order_index d filename day | none ↦ ok (no_order, d) ]
]

-- `SortModTimeLogs`, as an insertion by the same comparison. The cache is filled on the way.
unfoldable pub insert_log :
    Formats → Bytes → List Bytes → DateRotator → Result RotateError (List Bytes × DateRotator)
unfolding order_log
insert_log formats x [] d = ok (x ∷ [], d)
insert_log formats x (y ∷ ys) d = do
  (ox, d₁) ← order_log formats d x
  (oy, d₂) ← order_log formats d₁ y
  (rest, d₃) ← insert_log formats x ys d₂
  ok (if after ox oy then (x ∷ y ∷ ys, d₂) else (y ∷ rest, d₃))

unfoldable pub sort_mod_time_logs :
    Formats → List Bytes → DateRotator → Result RotateError (List Bytes × DateRotator)
unfolding insert_log
sort_mod_time_logs formats [] d = ok ([], d)
sort_mod_time_logs formats (x ∷ xs) d = do
  (sorted, d₁) ← sort_mod_time_logs formats xs d
  insert_log formats x sorted d₁

abbrev pub last_of : Bytes → List Bytes → Bytes
last_of x [] = x
last_of x (y ∷ ys) = last_of y ys

abbrev pub rename : DateRotator → Bytes → Assoc LogOrder → DateRotator
rename d name orders = record {
  filename_prefix = d.filename_prefix;
  current_filename = name;
  extension = d.extension;
  log_order_cache = orders;
}

-- `filename-date.extension` and `filename-date-index.extension`.
abbrev pub dated_name : Formats → DateRotator → Time → Bytes
dated_name formats d t = d.filename_prefix ++ (formats.format t ++ d.extension)

abbrev pub indexed_name : Formats → DateRotator → Time → ℕ → Bytes
indexed_name formats d t i =
    d.filename_prefix ++ (formats.format t ++ (b'-' ∷ (formats.itoa i ++ d.extension)))

-- `dateRotator.Rotate`: `files` is what `Glob` finds of the date of `t`, none where the pattern is bad. The
-- index behind the largest `int`, which the code wraps to a negative one, is not wrapped.
unfoldable pub rotate :
    Formats → DateRotator → Time → Option (List Bytes) → Result RotateError DateRotator
unfolding sort_mod_time_logs order_log
rotate formats d t none = err bad_pattern
rotate formats d t (some []) = ok (rename d (dated_name formats d t) [])
rotate formats d t (some (f ∷ files)) = do
  (sorted, d₁) ← sort_mod_time_logs formats (f ∷ files) (rename d d.current_filename [])
  (order, d₂) ← order_log formats d₁ (last_of f sorted)
  ok (rename d₂ (indexed_name formats d t (order.index + 1)) d₂.log_order_cache)

-- The first name that is the active file is taken out.
unfoldable pub without_active : Bytes → List Bytes → List Bytes
without_active active [] = []
without_active active (f ∷ files) =
    let rest = without_active active files in if eq_bytes f active then files else f ∷ rest

-- `dateRotator.RotatedFiles`: `files` is what `Glob` finds of all dates, none where the pattern is bad.
unfoldable pub rotated_files :
    Formats → DateRotator → Option (List Bytes) → Result RotateError (List Bytes × DateRotator)
unfolding sort_mod_time_logs
rotated_files formats d none = ok ([], d)
rotated_files formats d (some files) =
    sort_mod_time_logs formats (without_active d.current_filename files) d

-- `newDateRotater`, past the settings: the last of the files that `Glob` finds is continued.
unfoldable pub new_date_rotater :
    Formats → Bytes → Bytes → Time → Option (List Bytes) → Result RotateError DateRotator
unfolding sort_mod_time_logs
new_date_rotater formats filename extension now found =
    let prefix = filename ++ (b'-' ∷ []) in
    let suffix = b'.' ∷ extension in
    let d : DateRotator = record {
      filename_prefix = prefix;
      current_filename = prefix ++ (formats.format now ++ suffix);
      extension = suffix;
      log_order_cache = [];
    } in
    elim found [
      | none ↦ ok d
      | some files ↦ elim files [
        | [] ↦ ok d
        | f ∷ others ↦ elim others [
          | [] ↦ ok (rename d f [])
          | g ∷ more ↦ do
            (sorted, d₁) ← sort_mod_time_logs formats (f ∷ g ∷ more) d
            ok (rename d₁ (last_of f sorted) d₁.log_order_cache)
        ]
      ]
    ]
