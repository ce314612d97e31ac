-- ===== src/Tests/Writers.antt =====
-- `Rotator` of file/rotator.go on a disk that counts the bytes written.
use elastic_agent_libs.Prelude.{
  ℕ, suc, ◌+◌, codes, true, List, [], ◌∷◌, ◌++◌, none, length, ◌≡◌, refl,
}
use elastic_agent_libs.Rotate.Trigger.{Time, size_trigger, is_rotation_triggered, trigger_rotation}
use elastic_agent_libs.Rotate.Writer.{
  there, Os, Rotater, Rotator, Env, Call, write, rotate, close, after_calls,
}
use elastic_agent_libs.Rotate.Writer.Active.{IsActive, after_calls-IsActive}

abbrev pub morning : Time
morning = record {
  second = 0;
  minute = 0;
  hour = 9;
  day = 1;
  month = 1;
  year = 2020;
  iso_year = 2020;
  iso_week = 1;
  unix = 1577869200;
}

abbrev counting : Os ℕ
counting = record {
  mkdir_all = λ name s. (s, true);
  lstat = λ name s. none;
  open_append = λ name s. (s, true);
  open_new = λ name s. (s, true);
  write = λ name content s. (s + length content, length content, true);
  sync = λ name s. (s, true);
  close = λ name s. (s, true);
  stat = λ name s. there;
  remove = λ name s. (s, true);
}

abbrev pub numbered : Rotater ℕ
numbered = record {
  active_file = λ n. codes "log" ++ (48 + n) ∷ [];
  rotated_files = λ n. ([], n);
  rotate = λ reason now n. (suc n, true);
}

abbrev small_files : Env ℕ ℕ
small_files = record {
  os = counting;
  rotater = numbered;
  dir = λ name. [];
  max_size_bytes = 3;
  max_backups = 1;
}

abbrev closed : Rotator ℕ ℕ
closed = record { file = none; triggers = size_trigger 3 0 ∷ []; rot = 0; disk = 0 }

abbrev calls : List Call
calls =
    write morning morning (codes "ab")
    ∷ write morning morning (codes "cd")
    ∷ rotate morning
    ∷ close
    ∷ write morning morning (codes "e")
    ∷ []

one_rotation : (after_calls small_files calls closed).rot ≡ 1
unfolding is_rotation_triggered trigger_rotation
one_rotation = refl

-- Four bytes go to one file although a file may have three: the first write is not counted.
abbrev first_writes : List Call
first_writes = write morning morning (codes "ab") ∷ write morning morning (codes "cd") ∷ []

not_rotated : (after_calls small_files first_writes closed).rot ≡ 0
unfolding is_rotation_triggered trigger_rotation
not_rotated = refl

four_bytes : (after_calls small_files first_writes closed).disk ≡ 4
unfolding is_rotation_triggered trigger_rotation
four_bytes = refl

after_calls-IsActive_example : IsActive small_files (after_calls small_files calls closed)
after_calls-IsActive_example = after_calls-IsActive small_files calls closed tt
