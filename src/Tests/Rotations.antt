-- ===== src/Tests/Rotations.antt =====
-- file/trigger.go and the file names of file/rotator.go on small inputs.
use elastic_agent_libs.Prelude.{
  ◌+◌, ◌≤◌, codes, atoi, unsigned, digits_value, [], ◌∷◌, some, none, true, false, ok, ◌≡◌, ◌↔◌,
  refl, arith,
}
use elastic_agent_libs.Prelude.{Bytes, Bool, eq_bytes, List, length, take, ◌-◌, not, ◌&&◌}
use elastic_agent_libs.Rotate.Purge.{exists, delete_file, purge_files, purge}
use elastic_agent_libs.Rotate.Purge.Oldest.{all_there, purge-oldest}
use elastic_agent_libs.Prelude.Assoc.{find}
use elastic_agent_libs.Rotate.Trigger.{
  Time, size_trigger, file_size, is_rotation_triggered, trigger_rotation, new_second,
}
use elastic_agent_libs.Rotate.Trigger.Size.{pass, total, pass-size_trigger, pass-file_size}
use elastic_agent_libs.Rotate.Trigger.Calendar.{SameSecond, new_second-SameSecond}
use elastic_agent_libs.Rotate.Names.{Formats, LogOrder, DateRotator, cache, indexed_name, order_log}
use elastic_agent_libs.Rotate.Names.RoundTrip.{order_log-indexed_name}

abbrev noon : Time
noon = record {
  second = 0;
  minute = 0;
  hour = 12;
  day = 1;
  month = 1;
  year = 2020;
  iso_year = 2020;
  iso_week = 1;
  unix = 1577880000;
}

abbrev past_noon : Time
past_noon = record {
  second = 0;
  minute = 1;
  hour = 12;
  day = 1;
  month = 1;
  year = 2020;
  iso_year = 2020;
  iso_week = 1;
  unix = 1577880060;
}

new_second-SameSecond_example : (new_second noon past_noon ≡ false) ↔ SameSecond noon past_noon
new_second-SameSecond_example = new_second-SameSecond noon past_noon

total_le : 2 + total ((3, noon) ∷ (4, noon) ∷ []) ≤ 10
unfolding total
total_le = omega arith

total_le_max : total ((3, noon) ∷ (7, noon) ∷ []) ≤ 10
unfolding total
total_le_max = omega arith

pass-size_trigger_example :
    pass (size_trigger 10 2 ∷ []) ((3, noon) ∷ (4, noon) ∷ [])
    ≡ some (size_trigger 10 (2 + total ((3, noon) ∷ (4, noon) ∷ [])) ∷ [])
pass-size_trigger_example =
    pass-size_trigger 10 2 ((3, noon) ∷ (4, noon) ∷ []) (omega arith)
      (omega arith, (omega arith, tt)) total_le

over_size :
    is_rotation_triggered (size_trigger 10 5 ∷ []) 9 noon ≡ (file_size, size_trigger 10 0 ∷ [])
unfolding is_rotation_triggered trigger_rotation
over_size = refl

pass-file_size_example :
    pass (size_trigger 10 0 ∷ []) ((3, noon) ∷ (7, noon) ∷ [])
    ≡ some (size_trigger 10 (total ((3, noon) ∷ (7, noon) ∷ [])) ∷ [])
pass-file_size_example =
    pass-file_size 10 5 9 noon ((3, noon) ∷ (7, noon) ∷ []) (omega arith) over_size
      (omega arith, (omega arith, tt)) total_le_max

abbrev formats : Formats
formats = record { format = λ t. codes "20200101"; parse = λ s. some 7; itoa = λ n. codes "3" }

abbrev rotator : DateRotator
rotator = record {
  filename_prefix = codes "log-";
  current_filename = codes "log-20200101.ndjson";
  extension = codes ".ndjson";
  log_order_cache = [];
}

abbrev lower : LogOrder
lower = record { index = 1; datetime = 7 }

abbrev upper : LogOrder
upper = record { index = 2; datetime = 7 }

atoi-itoa : atoi (formats.itoa 3) ≡ some 3
unfolding atoi unsigned digits_value
atoi-itoa = refl

not_kept : find (indexed_name formats rotator noon 3) rotator.log_order_cache ≡ none
unfolding find
not_kept = refl

order_log-indexed_name_example :
    order_log formats rotator (indexed_name formats rotator noon 3)
    ≡ ok (cache (indexed_name formats rotator noon 3) (record { index = 3; datetime = 7 }) rotator)
order_log-indexed_name_example =
    order_log-indexed_name formats rotator noon 3 refl refl atoi-itoa not_kept

abbrev files : List Bytes
files = codes "a" ∷ codes "b" ∷ codes "c" ∷ []

abbrev can_remove : Bytes → Bool
can_remove name = true

files-all_there : all_there can_remove (take (length files - 2) files) files ≡ true
unfolding all_there exists delete_file eq_bytes
files-all_there = refl

purge-oldest_example :
    (disk' : List Bytes) × (purge 2 can_remove files files ≡ ok disk')
    × (exists (codes "a") disk'
        ≡ (not (exists (codes "a") (take (length files - 2) files)) && exists (codes "a") files))
purge-oldest_example = purge-oldest 2 can_remove files files (codes "a") files-all_there

not_oldest : exists (codes "b") (take (length files - 2) files) ≡ false
unfolding exists eq_bytes
not_oldest = refl

purge-files : purge 2 can_remove files files ≡ ok (codes "b" ∷ codes "c" ∷ [])
unfolding purge purge_files exists delete_file eq_bytes
purge-files = refl
