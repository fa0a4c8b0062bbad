-- ===== src/Tests/Gauges.antt =====
-- The gauge over a table that is kept in memory.
use graph_code_challenge.Gauge.Follows.{refresh_in_background-Follows, Shows}
use graph_code_challenge.Tests.Operations.{first_task, two_tasks-IsTable, two_tasks}
use graph_code_challenge.Entity.{Task}
use graph_code_challenge.Tests.Memory.{IsTable, memory, memory_laws}
use graph_code_challenge.Gauge.{
  GaugeState, Wake, ticked, left_by_others, context_done, refresh_in_background,
}
use graph_code_challenge.Service
use graph_code_challenge.Prelude.{arith, ◌++◌, ◌≡◌, ◌∷◌, refl, pos, false, true, [], List}

abbrev one_task : List Task
one_task = record first_task { id = pos 1 } ∷ []

one_task-IsTable : IsTable one_task
one_task-IsTable = ((omega arith, tt, tt), (omega arith, tt))

abbrev unset : GaugeState (List Task)
unset = record { store = two_tasks; task_count = pos 0; warned = [] }

-- Another client deletes a task between two ticks.
abbrev wakes : List (Wake (List Task))
wakes = ticked false ∷ left_by_others one_task ∷ ticked true ∷ []

gauge_test : (refresh_in_background (Service.count memory) false wakes unset).task_count ≡ pos 1
unfolding refresh_in_background Service.count
gauge_test = refl

refresh_in_background-Follows_example :
    let run = refresh_in_background (Service.count memory) false in
    Shows memory memory_laws two_tasks unset (run [] unset)
    × Shows memory memory_laws one_task (run wakes unset) (run (wakes ++ ticked false ∷ []) unset)
    × (run (wakes ++ context_done ∷ []) unset ≡ run wakes unset)
unfolding memory_laws
refresh_in_background-Follows_example =
    refresh_in_background-Follows memory memory_laws false false wakes [] unset two_tasks-IsTable
      (one_task-IsTable, tt) refl
