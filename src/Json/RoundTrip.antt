-- ===== src/Json/RoundTrip.antt =====
-- What was encoded decodes to what it was.
use graph_code_challenge.Entity.{Task}
use graph_code_challenge.Errors.{ok}
use graph_code_challenge.Prelude.{◌≡◌, refl, []}
use graph_code_challenge.Json.{
  ◌∷◌, List, encode_task, decode_task, encode_items, decode_items, encode_tasks, decode_tasks,
}

pub decode_task-encode_task : (t : Task) → decode_task (encode_task t) ≡ ok t
unfolding decode_task encode_task
decode_task-encode_task t = refl

decode_items-encode_items : (ts : List Task) → decode_items (encode_items ts) ≡ ok ts
unfolding decode_items encode_items
decode_items-encode_items [] = refl
decode_items-encode_items (t ∷ ts) = rw (decode_task-encode_task t, decode_items-encode_items ts)

pub decode_tasks-encode_tasks : (ts : List Task) → decode_tasks (encode_tasks ts) ≡ ok ts
unfolding decode_tasks encode_tasks
decode_tasks-encode_tasks ts = decode_items-encode_items ts
