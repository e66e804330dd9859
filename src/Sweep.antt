-- ===== src/Sweep.antt =====
-- workspace/pipeline_stuck_sweep.go: the loop that fails the runs of workers that died.
pub mod Heals
use workspace_api.Base.{
  ℕ, ltb, Bool, List, [], ◌∷◌, Text, M, ◌>>=◌, ◌>>◌, pure, best_effort, if◌then◌else◌,
}
use workspace_api.Postgres.{Db}
use workspace_api.Postgres.{fail_stuck_running_runs}

-- A timeout of 0 is unset. Times are in seconds.
pub record StuckRunSweeper : Type 0 where
  pub slug : Text
  pub timeout : ℕ

abbrev pub default_stuck_run_timeout : ℕ
default_stuck_run_timeout = 3600

abbrev pub run_timeout : StuckRunSweeper → ℕ
run_timeout s = if ltb 0 s.timeout then s.timeout else default_stuck_run_timeout

unfoldable pub sweep_once : StuckRunSweeper → ℕ → M Db (Unit {0})
unfolding fail_stuck_running_runs
sweep_once s now = fail_stuck_running_runs s.slug (run_timeout s) now >>= λ n. pure tt

-- A sweep that fails is logged, and the next tick comes.
unfoldable pub sweep_each : StuckRunSweeper → List ℕ → M Db (Unit {0})
unfolding sweep_once
sweep_each s [] = pure tt
sweep_each s (now ∷ ticks) = best_effort (sweep_once s now) >> sweep_each s ticks

-- `Run`: at once, then at every tick until the context is cancelled.
unfoldable pub run : StuckRunSweeper → ℕ → List ℕ → M Db (Unit {0})
unfolding sweep_each
run s start ticks = sweep_each s (start ∷ ticks)
