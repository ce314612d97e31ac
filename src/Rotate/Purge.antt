-- ===== src/Rotate/Purge.antt =====
-- `purge` of file/rotator.go: the oldest of the rotated files are deleted where there are more of them
-- than are to be kept. The disk is the names of the files that exist; whether `os.Remove` succeeds is
-- an argument, and `os.Stat` fails for no other reason than that a file does not exist.
pub mod Oldest
use elastic_agent_libs.Prelude.{
  ℕ, ◌-◌, Bytes, eq_bytes, Bool, true, false, ◌||◌, List, [], ◌∷◌, length, take, Result, ok, err,
  leb, if◌then◌else◌,
}

pub data PurgeError : Type 0 where
  not_deleted : PurgeError

-- `os.Stat` finds the file.
unfoldable pub exists : Bytes → List Bytes → Bool
exists name [] = false
exists name (file ∷ files) = eq_bytes file name || exists name files

-- The disk after `os.Remove`.
unfoldable pub delete_file : Bytes → List Bytes → List Bytes
delete_file name [] = []
delete_file name (file ∷ files) =
    let rest = delete_file name files in if eq_bytes file name then rest else file ∷ rest

-- The loop of `purge`, which ends without an error at the first file that does not exist.
unfoldable pub purge_files :
    (Bytes → Bool) → List Bytes → List Bytes → Result PurgeError (List Bytes)
unfolding exists delete_file
purge_files removable [] disk = ok disk
purge_files removable (name ∷ names) disk =
    let rest = purge_files removable names (delete_file name disk) in
    if exists name disk then (if removable name then rest else err not_deleted) else ok disk

-- `purge`, on the rotated files in order, the oldest first.
unfoldable pub purge : ℕ → (Bytes → Bool) → List Bytes → List Bytes → Result PurgeError (List Bytes)
unfolding purge_files
purge max_backups removable rotated_files disk =
    if leb (length rotated_files) max_backups
    then ok disk
    else purge_files removable (take (length rotated_files - max_backups) rotated_files) disk
