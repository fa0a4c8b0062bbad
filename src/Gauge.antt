-- ===== src/Gauge.antt =====
-- The gauge of the number of tasks: `RefreshTaskGauge` of internal/metrics/metrics.go, and
-- `refreshTaskGauge` of cmd/api/main.go, which calls it in the background.
pub mod Follows
use graph_code_challenge.Prelude.{
  ◌∷◌, ◌++◌, not, if◌then◌else◌, some, none, [], List, ℤ, Bool, Option,
}
use graph_code_challenge.Errors.{err, ok, Error, Result}
use graph_code_challenge.Exec.{Exec}

-- `task_count` is the integer whose float64 the gauge holds; `warned` are the errors that were logged.
pub record GaugeState (S : Type 0) : Type 0 where
  pub store : S
  pub task_count : ℤ
  pub warned : List Error

-- The loop wakes for a tick, which may find that the context is cancelled by the end of its refresh, or
-- for the end of the context. Between two wakes, other clients may leave another state of the store.
pub data Wake (S : Type 0) : Type 0 where
  ticked : Bool → Wake S
  context_done : Wake S
  left_by_others : S → Wake S

module _ {S : Type 0} (reader : Exec S ℤ) where
  abbrev pub set_gauge : Result ℤ × S → GaugeState S → Option Error × GaugeState S
  set_gauge (err e, store) g = (some e, record g { store = store })
  set_gauge (ok n, store) g = (none, record g { store = store; task_count = n })

  -- `Metrics.RefreshTaskGauge`
  unfoldable pub refresh_task_gauge : GaugeState S → Option Error × GaugeState S
  refresh_task_gauge g = set_gauge (reader g.store) g

  abbrev pub warn_unless : Bool → Option Error × GaugeState S → GaugeState S
  warn_unless cancelled (none, g) = g
  warn_unless cancelled (some e, g) =
      if not cancelled then record g { warned = g.warned ++ (e ∷ []) } else g

  -- The function `refresh`; the argument says whether the context is cancelled when it ends.
  unfoldable pub refresh : Bool → GaugeState S → GaugeState S
  unfolding refresh_task_gauge
  refresh cancelled g = warn_unless cancelled (refresh_task_gauge g)

  -- The loop, until the context is done or the given wakes have passed.
  abbrev pub refresh_loop : List (Wake S) → GaugeState S → GaugeState S
  refresh_loop [] g = g
  refresh_loop (context_done ∷ wakes) g = g
  refresh_loop (left_by_others store ∷ wakes) g = refresh_loop wakes (record g { store = store })
  refresh_loop (ticked cancelled ∷ wakes) g = refresh_loop wakes (refresh cancelled g)

  -- `refreshTaskGauge`
  unfoldable pub refresh_in_background : Bool → List (Wake S) → GaugeState S → GaugeState S
  unfolding refresh
  refresh_in_background cancelled wakes g = refresh_loop wakes (refresh cancelled g)
