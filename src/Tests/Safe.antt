-- ===== src/Tests/Safe.antt =====
-- safemapstr/safemapstr.go on a small map.
use elastic_agent_libs.Prelude.{codes, split, join, contains, eq_bytes, some, ok, ◌≡◌, refl}
use elastic_agent_libs.Mapstr.Value.{mapstr, other, Fields, end, field, lookup, insert}
use elastic_agent_libs.Mapstr.Find.Walk.{walk}
use elastic_agent_libs.Mapstr.Plain.{IsPlain}
use elastic_agent_libs.Safemapstr.{place_at, enter, safe_find_from, safe_put}
use elastic_agent_libs.Safemapstr.Stored.{leads_to_map, Stored, safe_put-Stored}

abbrev task : Fields
task = field (codes "task") (other 1) end

abbrev task_id : Fields
task_id =
    field (codes "task")
      (mapstr (field (codes "value") (other 1) (field (codes "id") (other 2) end))) end

task-IsPlain : IsPlain task
unfolding contains
task-IsPlain = (refl, tt, tt)

safe_put-task : safe_put (some task) (codes "task.id") (other 2) ≡ ok (some task_id)
unfolding safe_put safe_find_from place_at enter split join lookup insert eq_bytes
safe_put-task = refl

safe_put-Stored_example :
    Stored
      (leads_to_map (walk (some task) (split b'.' (codes "task.id"))))
      (some task_id)
      (split b'.' (codes "task.id"))
      (other 2)
safe_put-Stored_example =
    safe_put-Stored task (codes "task.id") (other 2) task-IsPlain safe_put-task
