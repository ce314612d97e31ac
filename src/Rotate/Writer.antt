-- ===== src/Rotate/Writer.antt =====
-- `Rotator` of file/rotator.go: `Write`, `Rotate`, `Sync` and `Close` with the steps below them. The
-- operating system and the `rotater` are records of functions. A step returns the rotator that it leaves,
-- also where it fails, and its error. The redirection of stderr, whose errors the code ignores, is left out.
pub mod Active
pub mod Success
use elastic_agent_libs.Prelude.{
  ℕ, ◌-◌, Bytes, Bool, true, false, List, [], ◌∷◌, Option, none, some, length, take, ltb, leb,
  if◌then◌else◌,
}
use elastic_agent_libs.Rotate.Trigger.{
  Reason, no_rotate, initializing, manual_trigger, Time, Trigger, is_rotation_triggered,
}

pub data WriteError : Type 0 where
  too_large no_directory not_opened not_appended not_rotated not_deleted stat_failed not_closed
        not_written not_synced :
      WriteError

-- What `os.Stat` says of a file.
pub data Stat : Type 0 where
  there absent unknown : Stat

-- The calls of package os on a disk; where one may fail, the flag says whether it succeeds. `lstat` says
-- of a file that exists whether it is a symbolic link.
pub record Os {ℓ} (S : Type ℓ) : Type ℓ where
  pub mkdir_all : Bytes → S → S × Bool
  pub lstat : Bytes → S → Option Bool
  pub open_append : Bytes → S → S × Bool
  pub open_new : Bytes → S → S × Bool
  pub write : Bytes → Bytes → S → S × ℕ × Bool
  pub sync : Bytes → S → S × Bool
  pub close : Bytes → S → S × Bool
  pub stat : Bytes → S → Stat
  pub remove : Bytes → S → S × Bool

-- The interface `rotater`.
pub record Rotater {ℓ} (R : Type ℓ) : Type ℓ where
  pub active_file : R → Bytes
  pub rotated_files : R → List Bytes × R
  pub rotate : Reason → Time → R → R × Bool

-- `Rotator`, with the disk; the open file is its name.
pub record Rotator {ℓ} (S R : Type ℓ) : Type ℓ where
  pub file : Option Bytes
  pub triggers : List Trigger
  pub rot : R
  pub disk : S

abbrev pub Step {ℓ} : Type ℓ → Type ℓ → Type ℓ
Step S R = Rotator S R → Rotator S R × Option WriteError

abbrev pub error_unless : Bool → WriteError → Option WriteError
error_unless true e = none
error_unless false e = some e

module _ {ℓ} {S R : Type ℓ} where
  abbrev pub on_result :
      Rotator S R × Option WriteError → Step S R → Rotator S R × Option WriteError
  on_result (r, some e) t = (r, some e)
  on_result (r, none) t = t r

  -- A step, and another one where the first returns no error.
  abbrev pub and_then : Step S R → Step S R → Step S R
  and_then s t r = on_result (s r) t

-- The calls of a `Rotator`; `Close` is `closeFile`. A `Write` reads the clock twice: in the triggers, and
-- for the time of the rotation.
pub data Call : Type 0 where
  write : Time → Time → Bytes → Call
  rotate : Time → Call
  sync : Call
  close : Call

-- What a `Rotator` is made with; `dir` is `filepath.Dir`.
pub record Env {ℓ} (S R : Type ℓ) : Type ℓ where
  pub os : Os S
  pub rotater : Rotater R
  pub dir : Bytes → Bytes
  pub max_size_bytes : ℕ
  pub max_backups : ℕ

-- What `os.OpenFile` returns.
abbrev pub opened : Bytes → Bool → Option Bytes
opened name true = some name
opened name false = none

module _ {ℓ} {S R : Type ℓ} (env : Env S R) where
  abbrev pub make_dir : Step S R
  make_dir r =
      let done = env.os.mkdir_all (env.dir (env.rotater.active_file r.rot)) r.disk in
      (record r { disk = done.0 }, error_unless done.1 no_directory)

  -- `appendToFile`.
  abbrev pub append_to_file : Step S R
  append_to_file r =
      let name = env.rotater.active_file r.rot in
      let done = env.os.open_append name r.disk in
      (record r { file = opened name done.1; disk = done.0 }, error_unless done.1 not_appended)

  abbrev pub open_active : Step S R
  open_active r =
      let name = env.rotater.active_file r.rot in
      let done = env.os.open_new name r.disk in
      (record r { file = opened name done.1; disk = done.0 }, error_unless done.1 not_opened)

  -- `openFile`.
  abbrev pub open_file : Step S R
  open_file = and_then make_dir open_active

  -- `closeFile`.
  abbrev pub close_file : Step S R
  close_file r = elim r.file [
    | none ↦ (r, none)
    | some name ↦
        let done = env.os.close name r.disk in
        (record r { file = none; disk = done.0 }, error_unless done.1 not_closed)
  ]

  abbrev pub rotate_names : Reason → Time → Step S R
  rotate_names reason now r =
      let done = env.rotater.rotate reason now r.rot in
      (record r { rot = done.0 }, error_unless done.1 not_rotated)

  -- The loop of `purge`.
  abbrev pub delete_all : List Bytes → Step S R
  delete_all [] r = (r, none)
  delete_all (name ∷ names) r =
      let done = env.os.remove name r.disk in
      let rest = delete_all names (record r { disk = done.0 }) in
      elim (env.os.stat name r.disk) [
        | there ↦ if done.1 then rest else (record r { disk = done.0 }, some not_deleted)
        | absent ↦ (r, none)
        | unknown ↦ (r, some stat_failed)
      ]

  -- `purge`.
  abbrev pub purge_rotated : Step S R
  purge_rotated r =
      let found = env.rotater.rotated_files r.rot in
      let r' : Rotator S R = record r { rot = found.1 } in
      if leb (length found.0) env.max_backups
      then (r', none)
      else delete_all (take (length found.0 - env.max_backups) found.0) r'

  -- `rotateWithTime`.
  abbrev pub rotate_with_time : Reason → Time → Step S R
  rotate_with_time reason now =
      and_then close_file (and_then (rotate_names reason now) purge_rotated)

  -- The end of `openNew` where the active file does not stay.
  abbrev pub rotate_and_open : Reason → Time → Step S R
  rotate_and_open reason now = and_then (and_then (rotate_names reason now) purge_rotated) open_file

  abbrev pub is_rotated : Reason → Bool
  is_rotated no_rotate = false
  is_rotated _ = true

  -- `openNew`: the triggers read the clock at `now`, and the time of the rotation is read at `later`.
  abbrev pub open_new : Time → Time → Step S R
  open_new now later = and_then make_dir λ r.
      elim (env.os.lstat (env.rotater.active_file r.rot) r.disk) [
        | none ↦ open_file r
        | some is_symlink ↦
            let asked = is_rotation_triggered r.triggers 0 now in
            let r' : Rotator S R = record r { triggers = asked.1 } in
            if is_rotated asked.0
            then rotate_and_open asked.0 later r'
            else if is_symlink
            then rotate_and_open initializing later r'
            else append_to_file r'
      ]

  -- What `Write` does before it writes.
  abbrev pub ready : Time → Time → ℕ → Step S R
  ready now later data_len r = elim r.file [
    | none ↦ open_new now later r
    | some name ↦
        let asked = is_rotation_triggered r.triggers data_len now in
        let r' : Rotator S R = record r { triggers = asked.1 } in
        if is_rotated asked.0
        then and_then (rotate_with_time asked.0 later) open_file r'
        else (r', none)
  ]

  -- `r.file.Write`; without a file it fails, as the code does with a nil file.
  abbrev pub write_file : Bytes → Rotator S R → Rotator S R × ℕ × Option WriteError
  write_file content r = elim r.file [
    | none ↦ (r, 0, some not_written)
    | some name ↦
        let done = env.os.write name content r.disk in
        (record r { disk = done.0 }, done.1, error_unless done.2 not_written)
  ]

  abbrev pub write_ready :
      Bytes → Rotator S R × Option WriteError → Rotator S R × ℕ × Option WriteError
  write_ready content (r, some e) = (r, 0, some e)
  write_ready content (r, none) = write_file content r

  -- `Rotator.Write`.
  abbrev pub write_content : Time → Time → Bytes → Rotator S R → Rotator S R × ℕ × Option WriteError
  write_content now later content r =
      if ltb env.max_size_bytes (length content)
      then (r, 0, some too_large)
      else write_ready content (ready now later (length content) r)

  -- `Rotator.Rotate`.
  abbrev pub rotate_now : Time → Step S R
  rotate_now now = rotate_with_time manual_trigger now

  -- `Rotator.Sync`.
  abbrev pub sync_file : Step S R
  sync_file r = elim r.file [
    | none ↦ (r, none)
    | some name ↦
        let done = env.os.sync name r.disk in
        (record r { disk = done.0 }, error_unless done.1 not_synced)
  ]

  abbrev pub after_call : Call → Rotator S R → Rotator S R
  after_call (write now later content) r = (write_content now later content r).0
  after_call (rotate now) r = (rotate_now now r).0
  after_call sync r = (sync_file r).0
  after_call close r = (close_file r).0

  abbrev pub after_calls : List Call → Rotator S R → Rotator S R
  after_calls [] r = r
  after_calls (c ∷ calls) r = after_calls calls (after_call c r)
