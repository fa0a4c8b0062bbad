-- ===== src/Tests/Races.antt =====
-- Lists and single tasks that are read while they are written.
use graph_code_challenge.Cache.Generations.Current.{page-IsCurrent}
use graph_code_challenge.Cache.Clients.{set_at}
use graph_code_challenge.Cache.Generations.Fresh.{IsCurrent}
use graph_code_challenge.Cache.Generations
use graph_code_challenge.Cache.Generations.{
  has_committed, has_page, misses_page, has_generation, away, put_page, World, makes_generation,
  misses_page_now, reads_table, stores_page, commits, retires_lists,
}
use graph_code_challenge.Cache.Evictions
use graph_code_challenge.Cache.Evictions.{
  must_evict, has_read, has_missed, outside, Clients, misses_task, reads_task, stores_task,
  commits_write, evicts_task,
}
use graph_code_challenge.Prelude.{refl, some, none}

-- A page is read before a write and stored after it, while the writer has yet to retire the lists.
abbrev late_page : World
late_page = record {
  lists = record {
    version = 1;
    generation = some 0;
    pages = put_page (λ g. none) 0 (some 0);
    drawn = 1;
  };
  place =
      set_at
        (set_at
          (set_at (set_at (set_at (λ i. away) 0 (has_generation 0)) 0 (misses_page 0)) 0
            (has_page 0 0))
          1 has_committed)
        0 away;
}

late_page-Reach : Generations.Reach late_page
late_page-Reach =
    Generations.Reach.later
      (Generations.Reach.later
        (Generations.Reach.later
          (Generations.Reach.later
            (Generations.Reach.later Generations.Reach.begins
              (Generations.Step.moves 0 (makes_generation refl)))
            (Generations.Step.moves 0 (misses_page_now 0)))
          (Generations.Step.moves 0 (reads_table 0)))
        (Generations.Step.moves 1 commits))
      (Generations.Step.moves 0 (stores_page 0 0))

page-IsCurrent_example : IsCurrent late_page 0
page-IsCurrent_example = page-IsCurrent 0 0 late_page late_page-Reach refl refl

-- A task that is read before an update and stored after its eviction: the cached task is an old one,
-- and no client is at work on it.
abbrev stale : Clients
stale = record {
  shared = record { version = 1; entry = some 0 };
  spot =
      set_at
        (set_at (set_at (set_at (set_at (λ i. outside) 0 has_missed) 0 (has_read 0)) 1 must_evict) 1
          outside)
        0 outside;
}

stale-Reach : Evictions.Reach stale
stale-Reach =
    Evictions.Reach.later 0
      (Evictions.Reach.later 1
        (Evictions.Reach.later 1
          (Evictions.Reach.later 0
            (Evictions.Reach.later 0 Evictions.Reach.begins (misses_task refl)) reads_task)
          commits_write)
        evicts_task)
      (stores_task 0)
