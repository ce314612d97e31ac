-- ===== src/Tests/Numbers.antt =====
-- opt/opt.go and monitoring/report/buffer/buffer.go on small inputs.
use elastic_agent_libs.Prelude.{ℕ, [], ◌∷◌, some, ◌≡◌, arith}
use elastic_agent_libs.Buffer.{RingBuffer, new_buffer, add_all, get_all}
use elastic_agent_libs.Buffer.Last.{last, get_all-add_all}

get_all-add_all_example :
    (r : RingBuffer ℕ) × (add_all (new_buffer 2) (7 ∷ 8 ∷ 9 ∷ []) ≡ some r)
    × (get_all r ≡ last 2 (7 ∷ 8 ∷ 9 ∷ []))
get_all-add_all_example = get_all-add_all 2 (7 ∷ 8 ∷ 9 ∷ []) (omega arith)
