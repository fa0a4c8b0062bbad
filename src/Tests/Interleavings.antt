-- ===== src/Tests/Interleavings.antt =====
-- Two clients that count and one that creates a task, interleaved.
use graph_code_challenge.Cache.Clients.{set_at}
use graph_code_challenge.Cache.Interleaved.Fresh.{cached-IsFresh, IsFresh}
use graph_code_challenge.Cache.Interleaved.{
  asks_store, releases, rechecks, has_written, wants_to_count, System, Reach, begins, later, moves,
  idle, has_counted, misses, locks_to_count, misses_again, counts_live, stores_count, writes,
}
use graph_code_challenge.Prelude.{false, refl, some, none}

-- Client 0 counts three tasks; client 1 creates a fourth before that count is stored.
abbrev counting : System
counting = record {
  mem = record { live = 3; cached = none; lock = some 0; missed = false };
  pc =
      set_at (set_at (set_at (set_at (λ i. idle) 0 wants_to_count) 0 rechecks) 0 asks_store) 0
        (has_counted 3);
}

counting-Reach : Reach 3 counting
counting-Reach =
    later
      (later (later (later begins (moves 0 (misses refl))) (moves 0 (locks_to_count refl)))
        (moves 0 (misses_again refl)))
      (moves 0 counts_live)

abbrev stored : System
stored = record {
  mem = record { live = 4; cached = some 3; lock = some 0; missed = false };
  pc = set_at (set_at counting.pc 1 has_written) 0 releases;
}

stored-Reach : Reach 3 stored
stored-Reach = later (later counting-Reach (moves 1 (writes 4))) (moves 0 (stores_count 3))

cached-IsFresh_example : IsFresh stored 3
cached-IsFresh_example = cached-IsFresh 3 3 stored stored-Reach refl
