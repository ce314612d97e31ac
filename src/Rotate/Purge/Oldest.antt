-- ===== src/Rotate/Purge/Oldest.antt =====
-- Which files `purge` of file/rotator.go deletes.
use elastic_agent_libs.Prelude.{
  ℕ, ◌-◌, Bytes, eq_bytes, eq_bytes_iff, Bool, true, false, not, ◌&&◌, List, [], ◌∷◌, length, take,
  ok, ok-injective, leb, leb→le, Bool-cases, inl, inr, ◌≡◌, refl, ap, sym, ◌∙◌, arith,
}
use elastic_agent_libs.Rotate.Purge.{exists, delete_file, purge_files, purge}

exists-delete_file :
    (k name : Bytes) (disk : List Bytes)
    → exists k (delete_file name disk) ≡ (not (eq_bytes name k) && exists k disk)
unfolding exists delete_file
exists-delete_file k name [] = ground arith
exists-delete_file k name (f ∷ disk) = ground (
  arith,
  exists-delete_file k name disk,
  eq_bytes_iff f name,
  eq_bytes_iff f k,
  eq_bytes_iff name k,
)

purge_files-others :
    (removable : Bytes → Bool) (names disk : List Bytes) (k : Bytes) {disk' : List Bytes}
    → exists k names ≡ false
    → purge_files removable names disk ≡ ok disk'
    → exists k disk' ≡ exists k disk
unfolding purge_files exists
purge_files-others removable [] disk k out h = ap (exists k) (sym (ok-injective h))
purge_files-others removable (name ∷ names) disk k {disk'} out h = ground (
  arith,
  purge_files-others removable names (delete_file name disk) k {disk' = disk'},
  exists-delete_file k name disk,
)

-- Every name exists once the names before it are deleted, and can be deleted.
unfoldable pub all_there : (Bytes → Bool) → List Bytes → List Bytes → Bool
all_there removable [] disk = true
all_there removable (name ∷ names) disk =
    exists name disk && removable name && all_there removable names (delete_file name disk)

purge_files-gone :
    (removable : Bytes → Bool) (names disk : List Bytes) (k : Bytes)
    → all_there removable names disk ≡ true
    → (disk' : List Bytes) × (purge_files removable names disk ≡ ok disk')
      × (exists k disk' ≡ (not (exists k names) && exists k disk))
unfolding purge_files all_there exists
purge_files-gone removable [] disk k h = (disk, refl, refl)
purge_files-gone removable (name ∷ names) disk k h =
    let there : exists name disk ≡ true = ground arith in
    let allowed : removable name ≡ true = ground arith in
    let (d, runs, e) = purge_files-gone removable names (delete_file name disk) k (ground arith) in
    (d, rw (there, allowed) runs, e ∙ ground (arith, exists-delete_file k name disk))

-- A `purge` that succeeds deletes none of the files but the oldest ones, those in front of as many as
-- are to be kept.
pub purge-others :
    (max_backups : ℕ) (removable : Bytes → Bool) (rotated disk : List Bytes) (k : Bytes)
    {disk' : List Bytes}
    → exists k (take (length rotated - max_backups) rotated) ≡ false
    → purge max_backups removable rotated disk ≡ ok disk'
    → exists k disk' ≡ exists k disk
unfolding purge
purge-others max_backups removable rotated disk k {disk'} out h =
    elim (Bool-cases (leb (length rotated) max_backups)) [
      | inl few ↦ ap (exists k) (sym (ok-injective (rw (few, purge) at h)))
      | inr many ↦ purge_files-others removable _ disk k out (rw (many, purge) at h)
    ]

-- Where the oldest files, those in front of as many as are to be kept, exist and can be deleted one
-- after the other, `purge` succeeds and deletes these files and no other.
pub purge-oldest :
    (max_backups : ℕ) (removable : Bytes → Bool) (rotated disk : List Bytes) (k : Bytes)
    → all_there removable (take (length rotated - max_backups) rotated) disk ≡ true
    → (disk' : List Bytes) × (purge max_backups removable rotated disk ≡ ok disk')
      × (exists k disk'
          ≡ (not (exists k (take (length rotated - max_backups) rotated)) && exists k disk))
unfolding purge
purge-oldest max_backups removable rotated disk k h =
    elim (Bool-cases (leb (length rotated) max_backups)) [
      | inl few ↦ (disk, rw few refl, keeps few)
      | inr many ↦ let (d, runs, e) = purge_files-gone removable _ disk k h in (d, rw many runs, e)
    ]
  where
    keeps :
        leb (length rotated) max_backups ≡ true
        → exists k disk
          ≡ (not (exists k (take (length rotated - max_backups) rotated)) && exists k disk)
    keeps few =
        let none_over : length rotated - max_backups ≡ 0 =
          ground (arith, leb→le (length rotated) max_backups) in
        rw none_over (unfold exists in refl)
