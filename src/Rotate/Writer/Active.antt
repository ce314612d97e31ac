-- ===== src/Rotate/Writer/Active.antt =====
-- The file that a `Rotator` of file/rotator.go has open.
use mathlib.Core.Path.{subst}
use elastic_agent_libs.Prelude.{
  ℕ, Bytes, Bool, true, false, Bool-cases, List, [], ◌∷◌, Option, none, some, Option-cases, length,
  ltb, leb, if◌then◌else◌, ◌≡◌, inl, inr, refl, sym,
}
use elastic_agent_libs.Rotate.Trigger.{
  Reason, manual_trigger, Time, is_rotation_triggered, initializing,
}
use elastic_agent_libs.Rotate.Writer.{
  Stat, not_deleted, stat_failed, Env, Rotator, Step, WriteError, on_result, and_then, make_dir,
  opened, append_to_file, open_active, open_file, close_file, rotate_names, there, absent, unknown,
  delete_all, purge_rotated, rotate_with_time, rotate_and_open, is_rotated, open_new, ready,
  write_ready, write_content, rotate_now, Call, write, rotate, sync, close, after_call, after_calls,
}

module _ {ℓ} {S R : Type ℓ} where
  -- What a step leaves, whether it fails or not.
  abbrev Leads : (Rotator S R → Type 0) → (Rotator S R → Type 0) → Step S R → Type ℓ
  Leads P Q s = (r : Rotator S R) → P r → Q (s r).0

  and_then-Leads :
      (P Q T : Rotator S R → Type 0) (s t : Step S R)
      → ((r : Rotator S R) → Q r → T r)
      → Leads P Q s
      → Leads Q T t
      → Leads P T (and_then s t)
  and_then-Leads P Q T s t weaker first second r p = go (s r) (first r p)
    where
      go : (x : Rotator S R × Option WriteError) → Q x.0 → T (on_result x t).0
      go (r', some e) q = weaker r' q
      go (r', none) q = second r' q

abbrev pub IsName : Option Bytes → Bytes → Type 0
IsName none active = Unit
IsName (some name) active = name ≡ active

module _ {ℓ} {S R : Type ℓ} (env : Env S R) where
  abbrev Closed : Rotator S R → Type 0
  Closed r = r.file ≡ none

  -- The open file, if there is one, is the active file.
  abbrev pub IsActive : Rotator S R → Type 0
  IsActive r = IsName r.file (env.rotater.active_file r.rot)

  Closed-IsActive : (r : Rotator S R) → Closed r → IsActive r
  Closed-IsActive r c = subst (λ f. IsName f (env.rotater.active_file r.rot)) (sym c) tt

  opened-IsName : (name : Bytes) (b : Bool) → IsName (opened name b) name
  opened-IsName name true = refl
  opened-IsName name false = tt

  open_active-Leads : Leads Closed IsActive (open_active env)
  open_active-Leads r c =
      opened-IsName (env.rotater.active_file r.rot)
        (env.os.open_new (env.rotater.active_file r.rot) r.disk).1

  append_to_file-Leads : Leads Closed IsActive (append_to_file env)
  append_to_file-Leads r c =
      opened-IsName (env.rotater.active_file r.rot)
        (env.os.open_append (env.rotater.active_file r.rot) r.disk).1

  open_file-Leads : Leads Closed IsActive (open_file env)
  open_file-Leads =
      and_then-Leads Closed Closed IsActive (make_dir env) (open_active env) Closed-IsActive
        (λ r c. c) open_active-Leads

  close_file-Leads : Leads IsActive Closed (close_file env)
  close_file-Leads r p = elim (Option-cases r.file) [
    | inl shut ↦ rw shut refl
    | inr (name, open_there) ↦ rw open_there refl
  ]

  delete_all-Leads : (names : List Bytes) → Leads Closed Closed (delete_all env names)
  delete_all-Leads [] r c = c
  delete_all-Leads (name ∷ names) r c =
      next (delete_all env names (record r { disk = (env.os.remove name r.disk).0 }))
        (delete_all-Leads names (record r { disk = (env.os.remove name r.disk).0 }) c)
        (env.os.stat name r.disk) (env.os.remove name r.disk).1
    where
      next :
          (rest : Rotator S R × Option WriteError)
          → Closed rest.0
          → (st : Stat) (deleted : Bool)
          → Closed
              (elim st as (λ x. Rotator S R × Option WriteError) [
                | there ↦
                    if deleted
                    then rest
                    else (record r { disk = (env.os.remove name r.disk).0 }, some not_deleted)
                | absent ↦ (r, none)
                | unknown ↦ (r, some stat_failed)
              ]).0
      next rest e there true = e
      next rest e there false = c
      next rest e absent deleted = c
      next rest e unknown deleted = c

  purge_rotated-Leads : Leads Closed Closed (purge_rotated env)
  purge_rotated-Leads r c =
      elim (Bool-cases (leb (length (env.rotater.rotated_files r.rot).0) env.max_backups)) [
        | inl few ↦ rw few c
        | inr many ↦
            rw many (delete_all-Leads _ (record r { rot = (env.rotater.rotated_files r.rot).1 }) c)
      ]

  rotate_names-Leads :
      (reason : Reason) (now : Time) → Leads Closed Closed (rotate_names env reason now)
  rotate_names-Leads reason now r c = c

  rotated-Leads :
      (reason : Reason) (now : Time)
      → Leads Closed Closed (and_then (rotate_names env reason now) (purge_rotated env))
  rotated-Leads reason now =
      and_then-Leads Closed Closed Closed (rotate_names env reason now) (purge_rotated env)
        (λ r c. c) (rotate_names-Leads reason now) purge_rotated-Leads

  rotate_with_time-Leads :
      (reason : Reason) (now : Time) → Leads IsActive Closed (rotate_with_time env reason now)
  rotate_with_time-Leads reason now =
      and_then-Leads IsActive Closed Closed (close_file env)
        (and_then (rotate_names env reason now) (purge_rotated env)) (λ r c. c) close_file-Leads
        (rotated-Leads reason now)

  rotate_and_open-Leads :
      (reason : Reason) (now : Time) → Leads Closed IsActive (rotate_and_open env reason now)
  rotate_and_open-Leads reason now =
      and_then-Leads Closed Closed IsActive
        (and_then (rotate_names env reason now) (purge_rotated env)) (open_file env) Closed-IsActive
        (rotated-Leads reason now) open_file-Leads

  open_new-Leads : (now later : Time) → Leads Closed IsActive (open_new env now later)
  open_new-Leads now later =
      and_then-Leads Closed Closed IsActive (make_dir env) _ Closed-IsActive (λ r c. c)
        λ r c. elim (Option-cases (env.os.lstat (env.rotater.active_file r.rot) r.disk)) [
          | inl missing ↦ rw missing (open_file-Leads r c)
          | inr (link, found) ↦
              elim (Bool-cases (is_rotated env (is_rotation_triggered r.triggers 0 now).0)) [
                | inl due ↦
                    rw (found, due)
                      (rotate_and_open-Leads (is_rotation_triggered r.triggers 0 now).0 later
                        (record r { triggers = (is_rotation_triggered r.triggers 0 now).1 }) c)
                | inr stays ↦ elim (Bool-cases link) [
                  | inl a_link ↦
                      rw (found, stays, a_link)
                        (rotate_and_open-Leads initializing later
                          (record r { triggers = (is_rotation_triggered r.triggers 0 now).1 }) c)
                  | inr a_file ↦
                      rw (found, stays, a_file)
                        (append_to_file-Leads
                          (record r { triggers = (is_rotation_triggered r.triggers 0 now).1 }) c)
                ]
              ]
        ]

  ready-Leads : (now later : Time) (len : ℕ) → Leads IsActive IsActive (ready env now later len)
  ready-Leads now later len r p = elim (Option-cases r.file) [
    | inl shut ↦ rw shut (open_new-Leads now later (record r { file = none }) refl)
    | inr (name, open_there) ↦
        let q : name ≡ env.rotater.active_file r.rot =
          subst (λ f. IsName f (env.rotater.active_file r.rot)) open_there p in
        elim (Bool-cases (is_rotated env (is_rotation_triggered r.triggers len now).0)) [
          | inr stays ↦ rw (open_there, stays) q
          | inl due ↦
              rw (open_there, due)
                (and_then-Leads IsActive Closed IsActive
                  (rotate_with_time env (is_rotation_triggered r.triggers len now).0 later)
                  (open_file env) Closed-IsActive
                  (rotate_with_time-Leads (is_rotation_triggered r.triggers len now).0 later)
                  open_file-Leads
                  (record r {
                    file = some name;
                    triggers = (is_rotation_triggered r.triggers len now).1;
                  })
                  q)
        ]
  ]

  write_ready-IsActive :
      (content : Bytes) (x : Rotator S R × Option WriteError)
      → IsActive x.0
      → IsActive (write_ready env content x).0
  write_ready-IsActive content (r, some e) p = p
  write_ready-IsActive content (r, none) p = elim (Option-cases r.file) [
    | inl shut ↦ rw shut tt
    | inr (name, open_there) ↦
        rw open_there (subst (λ f. IsName f (env.rotater.active_file r.rot)) open_there p)
  ]

  after_call-IsActive : (c : Call) (r : Rotator S R) → IsActive r → IsActive (after_call env c r)
  after_call-IsActive (write now later content) r p =
      elim (Bool-cases (ltb env.max_size_bytes (length content))) [
        | inl large ↦ rw (large, after_call, write_content) p
        | inr fits ↦
            rw (fits, after_call, write_content)
              (write_ready-IsActive content (ready env now later (length content) r)
                (ready-Leads now later (length content) r p))
      ]
  after_call-IsActive (rotate now) r p =
      Closed-IsActive (rotate_now env now r).0 (rotate_with_time-Leads manual_trigger now r p)
  after_call-IsActive sync r p = elim (Option-cases r.file) [
    | inl shut ↦ rw shut tt
    | inr (name, open_there) ↦
        rw open_there (subst (λ f. IsName f (env.rotater.active_file r.rot)) open_there p)
  ]
  after_call-IsActive close r p = Closed-IsActive (close_file env r).0 (close_file-Leads r p)

  -- After any calls of `Write`, `Rotate`, `Sync` and `Close`, also where they fail, the open file, if
  -- there is one, is the active file, where it was so before.
  pub after_calls-IsActive :
      (calls : List Call) (r : Rotator S R) → IsActive r → IsActive (after_calls env calls r)
  after_calls-IsActive [] r p = p
  after_calls-IsActive (c ∷ calls) r p =
      after_calls-IsActive calls (after_call env c r) (after_call-IsActive c r p)
