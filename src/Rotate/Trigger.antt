-- ===== src/Rotate/Trigger.antt =====
-- file/trigger.go: what makes the log writer rotate its file. A reading of the clock is the fields of
-- the time that the code asks for; durations are in nanoseconds, `unix` is in seconds.
pub mod Size
pub mod Calendar
use elastic_agent_libs.Prelude.{
  ℕ, ◌+◌, ◌*◌, ◌/◌, ◌%◌, ◌^◌, Bytes, codes, Bool, true, false, not, ◌||◌, List, [], ◌∷◌, ◌++◌, ◌==◌,
  ltb, if◌then◌else◌,
}

-- `rotateReason`.
pub data Reason : Type 0 where
  no_rotate initializing file_size manual_trigger time_interval : Reason

-- `rotateReason.String`.
unfoldable pub reason_string : Reason → Bytes
reason_string initializing = codes "initializing"
reason_string file_size = codes "file size"
reason_string manual_trigger = codes "manual trigger"
reason_string time_interval = codes "time interval"
reason_string no_rotate = codes "unknown"

pub record Time : Type 0 where
  pub second : ℕ
  pub minute : ℕ
  pub hour : ℕ
  pub day : ℕ
  pub month : ℕ
  pub year : ℕ
  pub iso_year : ℕ
  pub iso_week : ℕ
  pub unix : ℕ

unfoldable pub new_year : Time → Time → Bool
new_year last current = not (last.year == current.year)

unfoldable pub new_month : Time → Time → Bool
new_month last current = not (last.month == current.month) || new_year last current

unfoldable pub new_week : Time → Time → Bool
new_week last current =
    not (last.iso_week == current.iso_week) || not (last.iso_year == current.iso_year)

unfoldable pub new_day : Time → Time → Bool
new_day last current = not (last.day == current.day) || new_month last current

unfoldable pub new_hour : Time → Time → Bool
new_hour last current = not (last.hour == current.hour) || new_day last current

unfoldable pub new_minute : Time → Time → Bool
new_minute last current = not (last.minute == current.minute) || new_hour last current

unfoldable pub new_second : Time → Time → Bool
new_second last current = not (last.second == current.second) || new_minute last current

abbrev pub time_second : ℕ
time_second = 1000000000

-- The function of the default case: the two times lie in different multiples of the interval. An
-- interval of less than a second, which the code would divide by zero for, is refused by the rotator.
unfoldable pub new_multiple : ℕ → Time → Time → Bool
new_multiple interval last current =
    not ((last.unix / (interval / time_second)) == (current.unix / (interval / time_second)))

-- The switch of `newIntervalTrigger`.
unfoldable pub new_interval : ℕ → Time → Time → Bool
new_interval interval =
    if interval == time_second
    then new_second
    else if interval == (time_second * 60)
    then new_minute
    else if interval == (time_second * 3600)
    then new_hour
    else if interval == (time_second * 86400)
    then new_day
    else if interval == (time_second * 604800)
    then new_week
    else if interval == (time_second * 2592000)
    then new_month
    else if interval == (time_second * 31536000)
    then new_year
    else new_multiple interval

-- The implementations of the interface `trigger`, with the fields that they change.
pub data Trigger : Type 0 where
  init_trigger : (triggered : Bool) → Trigger
  size_trigger : (max_size_bytes size : ℕ) → Trigger
  interval_trigger : (interval : ℕ) (last_rotate : Time) → Trigger

abbrev pub uint_limit : ℕ
uint_limit = 2 ^ 64

-- `TriggerRotation` of the three triggers, at a reading `now` of the clock.
unfoldable pub trigger_rotation : Trigger → ℕ → Time → Reason × Trigger
trigger_rotation (init_trigger triggered) data_len now =
    if not triggered then (initializing, init_trigger true) else (no_rotate, init_trigger triggered)
trigger_rotation (size_trigger max_size_bytes size) data_len now =
    if ltb max_size_bytes ((size + data_len) % uint_limit)
    then (file_size, size_trigger max_size_bytes 0)
    else (no_rotate, size_trigger max_size_bytes ((size + data_len) % uint_limit))
trigger_rotation (interval_trigger interval last_rotate) data_len now =
    if new_interval interval last_rotate now
    then (time_interval, interval_trigger interval now)
    else (no_rotate, interval_trigger interval last_rotate)

-- `newTriggers`, at the reading of the clock that the interval trigger starts from.
unfoldable pub new_triggers : Bool → ℕ → ℕ → Time → List Trigger
new_triggers rotate_on_startup interval max_size_bytes now =
    (if rotate_on_startup then init_trigger false ∷ [] else [])
    ++ ((if ltb 0 interval then interval_trigger interval now ∷ [] else [])
        ++ (if ltb 0 max_size_bytes then size_trigger max_size_bytes 0 ∷ [] else []))

abbrev rotates : Reason → Bool
rotates no_rotate = false
rotates _ = true

-- `isRotationTriggered` of file/rotator.go: the triggers are asked in order up to the first that
-- rotates; the ones behind it are not asked and do not change.
unfoldable pub is_rotation_triggered : List Trigger → ℕ → Time → Reason × List Trigger
is_rotation_triggered [] data_len now = (no_rotate, [])
is_rotation_triggered (t ∷ triggers) data_len now =
    let asked = trigger_rotation t data_len now in
    let rest = is_rotation_triggered triggers data_len now in
    if rotates asked.0 then (asked.0, asked.1 ∷ triggers) else (rest.0, asked.1 ∷ rest.1)
