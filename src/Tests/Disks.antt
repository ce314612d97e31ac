-- ===== src/Tests/Disks.antt =====
-- `Write` of file/rotator.go on a disk that is the list of the names of its files.
use mathlib.Core.Path.{subst}
use elastic_agent_libs.Prelude.{
  ℕ, Bytes, codes, eq_bytes, eq_bytes_refl, Bool, Bool-cases, true, false, List, [], ◌∷◌, none,
  some, some_inj, length, ltb, if◌then◌else◌, ◌≡◌, ◌⊎◌, ◌↔◌, inl, inr, refl,
}
use elastic_agent_libs.Rotate.Trigger.{size_trigger, is_rotation_triggered, trigger_rotation}
use elastic_agent_libs.Rotate.Writer.{there, absent, Os, Rotator, Env, write_content}
use elastic_agent_libs.Rotate.Writer.Success.{Works, CanClose, CanRotate, write_content-succeeds}
use elastic_agent_libs.Tests.Writers.{morning, numbered}

abbrev has : Bytes → List Bytes → Bool
has name [] = false
has name (n ∷ names) = let rest = has name names in if eq_bytes n name then true else rest

abbrev without : Bytes → List Bytes → List Bytes
without name [] = []
without name (n ∷ names) =
    let rest = without name names in if eq_bytes n name then rest else n ∷ rest

-- `O_EXCL` of a file that is there fails, and so does appending to a file that is not.
abbrev disk_of_names : Os (List Bytes)
disk_of_names = record {
  mkdir_all = λ name s. (s, true);
  lstat = λ name s. if has name s then some false else none;
  open_append = λ name s. (s, has name s);
  open_new = λ name s. if has name s then (s, false) else (name ∷ s, true);
  write = λ name content s. (s, length content, has name s);
  sync = λ name s. (s, has name s);
  close = λ name s. (s, has name s);
  stat = λ name s. if has name s then there else absent;
  remove = λ name s. (without name s, has name s);
}

abbrev disk_files : Env (List Bytes) ℕ
disk_files = record {
  os = disk_of_names;
  rotater = numbered;
  dir = λ name. [];
  max_size_bytes = 3;
  max_backups = 1;
}

has-without :
    (other name : Bytes) (s : List Bytes) → has other s ≡ false → has other (without name s) ≡ false
has-without other name [] h = refl
has-without other name (n ∷ s) h = elim (Bool-cases (eq_bytes n other)) [
  | inl same ↦ cc (rw same at h)
  | inr differs ↦
      let rest = has-without other name s (rw differs at h) in
      elim (Bool-cases (eq_bytes n name)) [
        | inl gone ↦ rw gone rest
        | inr kept ↦ rw (kept, differs) rest
      ]
]

stat-known :
    (name : Bytes) (s : List Bytes)
    → (disk_of_names.stat name s ≡ there) ⊎ (disk_of_names.stat name s ≡ absent)
stat-known name s = elim (Bool-cases (has name s)) [
  | inl h ↦ inl (rw h refl)
  | inr h ↦ inr (rw h refl)
]

disk_files-Works : Works disk_files has
disk_files-Works = record {
  mkdir_all = λ name s. refl;
  mkdir_all_has = λ q r s. refl;
  lstat_none = λ name s h. elim (Bool-cases (has name s)) [
    | inl yes_there ↦ cc (rw yes_there at h)
    | inr gone ↦ gone
  ];
  lstat_some = λ name s link h. elim (Bool-cases (has name s)) [
    | inl yes_there ↦ yes_there
    | inr gone ↦ cc (rw gone at h)
  ];
  open_append = λ name s h. (h, h);
  open_new = λ name s h. rw h (refl, rw eq_bytes_refl refl);
  write = λ name content s h. h;
  close = λ name s h. h;
  close_has = λ o name s. refl;
  stat = stat-known;
  remove = λ name s h. elim (Bool-cases (has name s)) [
    | inl yes_there ↦ yes_there
    | inr gone ↦ cc (rw gone at h)
  ];
  remove_has = has-without;
  rotate = λ reason now n. refl;
  rotated_files = λ n. refl;
}

-- The file `log0` is open and has two bytes.
abbrev one_file : Rotator (List Bytes) ℕ
one_file = record {
  file = some (codes "log0");
  triggers = size_trigger 3 2 ∷ [];
  rot = 0;
  disk = codes "log0" ∷ [];
}

one_file-CanClose : CanClose disk_files has one_file
unfolding eq_bytes
one_file-CanClose name h = subst (λ n. has n (codes "log0" ∷ []) ≡ true) (some_inj h) refl

one_file-CanRotate : CanRotate disk_files has morning one_file
unfolding eq_bytes
one_file-CanRotate reason = refl

write_content-succeeds_example :
    ((write_content disk_files morning morning (codes "ab") one_file).2 ≡ none)
    ↔ (ltb 3 (length (codes "ab")) ≡ false)
write_content-succeeds_example =
    write_content-succeeds disk_files has morning morning (codes "ab") one_file disk_files-Works
      one_file-CanClose one_file-CanRotate

write-rotates : (write_content disk_files morning morning (codes "ab") one_file).0.rot ≡ 1
unfolding is_rotation_triggered trigger_rotation eq_bytes
write-rotates = refl
