-- ===== src/Rotate/Writer/Success.antt =====
-- `Write` of file/rotator.go where the operating system does what it is asked for.
use mathlib.Core.Path.{subst}
use elastic_agent_libs.Prelude.{
  ℕ, Bytes, Bool, true, false, Bool-cases, List, [], ◌∷◌, Option, none, some, Option-cases, length,
  ltb, leb, ◌≡◌, ◌⊎◌, ◌↔◌, inl, inr, refl, ap, sym, ◌∙◌,
}
use elastic_agent_libs.Rotate.Trigger.{Reason, Time, is_rotation_triggered, initializing}
use elastic_agent_libs.Rotate.Writer.{
  there, absent, Env, Rotator, Step, WriteError, on_result, and_then, make_dir, append_to_file,
  open_active, open_file, close_file, rotate_names, delete_all, purge_rotated, rotate_with_time,
  rotate_and_open, is_rotated, open_new, ready, write_ready, write_content,
}

-- What the calls of package os and of the `rotater` do where nothing goes wrong; `has name s` says that
-- the disk `s` has the file. A file that is there can be appended to, written, closed and removed, and one
-- that is not there can be created. Making the directory of a file of the `rotater` leaves its files alone.
pub record Works {ℓ} {S R : Type ℓ} (env : Env S R) (has : Bytes → S → Bool) : Type ℓ where
  pub mkdir_all : (name : Bytes) (s : S) → (env.os.mkdir_all name s).1 ≡ true
  pub mkdir_all_has :
      (q r : R) (s : S)
      → has (env.rotater.active_file q) (env.os.mkdir_all (env.dir (env.rotater.active_file r)) s).0
        ≡ has (env.rotater.active_file q) s
  pub lstat_none : (name : Bytes) (s : S) → env.os.lstat name s ≡ none → has name s ≡ false
  pub lstat_some :
      (name : Bytes) (s : S) (link : Bool) → env.os.lstat name s ≡ some link → has name s ≡ true
  pub open_append :
      (name : Bytes) (s : S)
      → has name s ≡ true
      → ((env.os.open_append name s).1 ≡ true) × (has name (env.os.open_append name s).0 ≡ true)
  pub open_new :
      (name : Bytes) (s : S)
      → has name s ≡ false
      → ((env.os.open_new name s).1 ≡ true) × (has name (env.os.open_new name s).0 ≡ true)
  pub write :
      (name content : Bytes) (s : S) → has name s ≡ true → (env.os.write name content s).2 ≡ true
  pub close : (name : Bytes) (s : S) → has name s ≡ true → (env.os.close name s).1 ≡ true
  pub close_has : (other name : Bytes) (s : S) → has other (env.os.close name s).0 ≡ has other s
  pub stat : (name : Bytes) (s : S) → (env.os.stat name s ≡ there) ⊎ (env.os.stat name s ≡ absent)
  pub remove : (name : Bytes) (s : S) → env.os.stat name s ≡ there → (env.os.remove name s).1 ≡ true
  pub remove_has :
      (other name : Bytes) (s : S)
      → has other s ≡ false
      → has other (env.os.remove name s).0 ≡ false
  pub rotate : (reason : Reason) (now : Time) (r : R) → (env.rotater.rotate reason now r).1 ≡ true
  pub rotated_files :
      (r : R) → env.rotater.active_file (env.rotater.rotated_files r).1 ≡ env.rotater.active_file r

module _ {ℓ} {S R : Type ℓ} where
  -- From the first predicate on, a step does not fail and leaves the second one.
  abbrev Does : (Rotator S R → Type 0) → (Rotator S R → Type 0) → Step S R → Type ℓ
  Does P Q s = (r : Rotator S R) → P r → ((s r).1 ≡ none) × Q (s r).0

  on_result-none :
      (x : Rotator S R × Option WriteError) (t : Step S R) → x.1 ≡ none → on_result x t ≡ t x.0
  on_result-none (r, none) t h = refl
  on_result-none (r, some e) t h = cc h

  and_then-Does :
      (P Q T : Rotator S R → Type 0) (s t : Step S R)
      → Does P Q s
      → Does Q T t
      → Does P T (and_then s t)
  and_then-Does P Q T s t first second r p =
      let (fine, q) = first r p in
      subst (λ x. (x.1 ≡ none) × T x.0) (sym (on_result-none (s r) t fine)) (second (s r).0 q)

module _ {ℓ} {S R : Type ℓ} (env : Env S R) (has : Bytes → S → Bool) where
  -- The file to be created is not there.
  abbrev IsFree : Rotator S R → Type 0
  IsFree r = has (env.rotater.active_file r.rot) r.disk ≡ false

  -- The file to be appended to is there.
  abbrev IsThere : Rotator S R → Type 0
  IsThere r = has (env.rotater.active_file r.rot) r.disk ≡ true

  -- A file is open, and is there.
  abbrev IsOpen : Rotator S R → Type 0
  IsOpen r = (name : Bytes) × (r.file ≡ some name) × (has name r.disk ≡ true)

  -- The file that is open, if there is one, is there.
  abbrev pub CanClose : Rotator S R → Type 0
  CanClose r = (name : Bytes) → r.file ≡ some name → has name r.disk ≡ true

  -- The file that a rotation goes to is not there.
  abbrev pub CanRotate : Time → Rotator S R → Type 0
  CanRotate now r =
      (reason : Reason)
      → has (env.rotater.active_file (env.rotater.rotate reason now r.rot).0) r.disk ≡ false

module _ {ℓ} {S R : Type ℓ} (env : Env S R) (has : Bytes → S → Bool) (works : Works env has) where
  make_dir-IsFree : Does (IsFree env has) (IsFree env has) (make_dir env)
  make_dir-IsFree r free = (
    rw (works.mkdir_all (env.dir (env.rotater.active_file r.rot)) r.disk) refl,
    works.mkdir_all_has r.rot r.rot r.disk ∙ free,
  )

  make_dir-CanRotate :
      (now : Time) → Does (CanRotate env has now) (CanRotate env has now) (make_dir env)
  make_dir-CanRotate now r free = (
    rw (works.mkdir_all (env.dir (env.rotater.active_file r.rot)) r.disk) refl,
    λ reason.
        works.mkdir_all_has (env.rotater.rotate reason now r.rot).0 r.rot r.disk ∙ free reason,
  )

  open_active-IsOpen : Does (IsFree env has) (IsOpen env has) (open_active env)
  open_active-IsOpen r free =
      let (done, stays) = works.open_new (env.rotater.active_file r.rot) r.disk free in
      (rw done refl, (env.rotater.active_file r.rot, rw done refl, stays))

  append_to_file-IsOpen : Does (IsThere env has) (IsOpen env has) (append_to_file env)
  append_to_file-IsOpen r is =
      let (done, stays) = works.open_append (env.rotater.active_file r.rot) r.disk is in
      (rw done refl, (env.rotater.active_file r.rot, rw done refl, stays))

  open_file-IsOpen : Does (IsFree env has) (IsOpen env has) (open_file env)
  open_file-IsOpen =
      and_then-Does (IsFree env has) (IsFree env has) (IsOpen env has) (make_dir env)
        (open_active env) make_dir-IsFree open_active-IsOpen

  close_file-CanRotate :
      (now : Time)
      → Does
          (λ r. CanClose env has r × CanRotate env has now r)
          (CanRotate env has now)
          (close_file env)
  close_file-CanRotate now r (can, free) = elim (Option-cases r.file) [
    | inl shut ↦ rw shut (refl, free)
    | inr (name, open_there) ↦ rw open_there (
      rw (works.close name r.disk (can name open_there)) refl,
      λ reason. works.close_has _ name r.disk ∙ free reason,
    )
  ]

  delete_all-IsFree :
      (names : List Bytes) → Does (IsFree env has) (IsFree env has) (delete_all env names)
  delete_all-IsFree [] r free = (refl, free)
  delete_all-IsFree (name ∷ names) r free = elim (works.stat name r.disk) [
    | inl yes_there ↦
        rw (yes_there, works.remove name r.disk yes_there, delete_all)
          (delete_all-IsFree names (record r { disk = (env.os.remove name r.disk).0 })
            (works.remove_has (env.rotater.active_file r.rot) name r.disk free))
    | inr not_there ↦ rw (not_there, delete_all) (refl, free)
  ]

  purge_rotated-IsFree : Does (IsFree env has) (IsFree env has) (purge_rotated env)
  purge_rotated-IsFree r free =
      let kept = ap (λ n. has n r.disk) (works.rotated_files r.rot) ∙ free in
      elim (Bool-cases (leb (length (env.rotater.rotated_files r.rot).0) env.max_backups)) [
        | inl few ↦ rw few (refl, kept)
        | inr many ↦
            rw many
              (delete_all-IsFree _ (record r { rot = (env.rotater.rotated_files r.rot).1 }) kept)
      ]

  rotated-IsFree :
      (reason : Reason) (now : Time)
      → Does
          (CanRotate env has now)
          (IsFree env has)
          (and_then (rotate_names env reason now) (purge_rotated env))
  rotated-IsFree reason now =
      and_then-Does (CanRotate env has now) (IsFree env has) (IsFree env has)
        (rotate_names env reason now) (purge_rotated env)
        (λ r free. (rw (works.rotate reason now r.rot) refl, free reason)) purge_rotated-IsFree

  rotate_and_open-IsOpen :
      (reason : Reason) (now : Time)
      → Does (CanRotate env has now) (IsOpen env has) (rotate_and_open env reason now)
  rotate_and_open-IsOpen reason now =
      and_then-Does (CanRotate env has now) (IsFree env has) (IsOpen env has)
        (and_then (rotate_names env reason now) (purge_rotated env)) (open_file env)
        (rotated-IsFree reason now) open_file-IsOpen

  -- The rotation of an open file.
  rotate_with_time-IsFree :
      (reason : Reason) (now : Time)
      → Does
          (λ r. CanClose env has r × CanRotate env has now r)
          (IsFree env has)
          (rotate_with_time env reason now)
  rotate_with_time-IsFree reason now =
      and_then-Does (λ r. CanClose env has r × CanRotate env has now r) (CanRotate env has now)
        (IsFree env has) (close_file env)
        (and_then (rotate_names env reason now) (purge_rotated env)) (close_file-CanRotate now)
        (rotated-IsFree reason now)

  open_new-IsOpen :
      (now later : Time) → Does (CanRotate env has later) (IsOpen env has) (open_new env now later)
  open_new-IsOpen now later =
      and_then-Does (CanRotate env has later) (CanRotate env has later) (IsOpen env has)
        (make_dir env) _ (make_dir-CanRotate later)
        λ r free.
          let asked = is_rotation_triggered r.triggers 0 now in
          let r' : Rotator S R = record r { triggers = asked.1 } in
          let name = env.rotater.active_file r.rot in
          elim (Option-cases (env.os.lstat name r.disk)) [
            | inl missing ↦ rw missing (open_file-IsOpen r (works.lstat_none name r.disk missing))
            | inr (link, found) ↦ elim (Bool-cases (is_rotated env asked.0)) [
              | inl due ↦ rw (found, due) (rotate_and_open-IsOpen asked.0 later r' free)
              | inr stays ↦ elim (Bool-cases link) [
                | inl a_link ↦
                    rw (found, stays, a_link) (rotate_and_open-IsOpen initializing later r' free)
                | inr a_file ↦
                    rw (found, stays, a_file)
                      (append_to_file-IsOpen r' (works.lstat_some name r.disk link found))
              ]
            ]
          ]

  ready-IsOpen :
      (now later : Time) (len : ℕ)
      → Does
          (λ r. CanClose env has r × CanRotate env has later r)
          (IsOpen env has)
          (ready env now later len)
  ready-IsOpen now later len r (can, free) = elim (Option-cases r.file) [
    | inl shut ↦ rw shut (open_new-IsOpen now later (record r { file = none }) free)
    | inr (name, open_there) ↦
        let asked = is_rotation_triggered r.triggers len now in
        elim (Bool-cases (is_rotated env asked.0)) [
          | inr stays ↦ rw (open_there, stays) (refl, (name, refl, can name open_there))
          | inl due ↦
              rw (open_there, due)
                (and_then-Does (λ r. CanClose env has r × CanRotate env has later r)
                  (IsFree env has) (IsOpen env has) (rotate_with_time env asked.0 later)
                  (open_file env) (rotate_with_time-IsFree asked.0 later) open_file-IsOpen
                  (record r { file = some name; triggers = asked.1 })
                  ((λ n is. can n (open_there ∙ is)), free))
        ]
  ]

  write_ready-none :
      (content : Bytes) (x : Rotator S R × Option WriteError)
      → x.1 ≡ none
      → IsOpen env has x.0
      → (write_ready env content x).2 ≡ none
  write_ready-none content (r, some e) fine is_open = cc fine
  write_ready-none content (r, none) fine (name, is, stands) =
      rw is (rw (works.write name content r.disk stands) refl)

-- Where the calls of the operating system and of the `rotater` do what they are to do, an open file is on
-- the disk and the file that a rotation goes to is not, `Write` fails for data larger than a file may be
-- and for no other: whether a file is open or not, and whatever triggers rotate.
pub write_content-succeeds {ℓ} :
    {S R : Type ℓ} (env : Env S R) (has : Bytes → S → Bool) (now later : Time) (content : Bytes)
    (r : Rotator S R)
    → Works env has
    → CanClose env has r
    → CanRotate env has later r
    → ((write_content env now later content r).2 ≡ none)
      ↔ (ltb env.max_size_bytes (length content) ≡ false)
write_content-succeeds env has now later content r works can free =
    elim (Bool-cases (ltb env.max_size_bytes (length content))) [
      | inl large ↦ ((λ e. cc (rw (large, write_content) at e)), (λ fits. cc (large, fits)))
      | inr fits ↦
          let (fine, is_open) =
            ready-IsOpen env has works now later (length content) r (can, free) in
          (
            (λ done. fits),
            (λ small.
                rw (fits, write_content)
                  (write_ready-none env has works content (ready env now later (length content) r)
                    fine is_open)),
          )
    ]
