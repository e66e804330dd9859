-- ===== src/Sweep/Heals.antt =====
-- workspace/pipeline_stuck_sweep.go: what the sweeps make of the runs, over time.
use workspace_api.Base.{
  ℕ, ◌-◌, ◌≡◌, refl, ap, ◌∙◌, Bool, true, false, Option, none, some, List, [], ◌∷◌, same, map, find,
  change, if◌then◌else◌,
}
use workspace_api.Model.{Pipeline, PipelineRun}
use workspace_api.Postgres.{Db, statement}
use workspace_api.Postgres.{is_stuck, failed_row, fail_stuck_running_runs}
use workspace_api.Sweep.{StuckRunSweeper, run_timeout, sweep_once, sweep_each, run}

-- The ticks whose statement does not fail.
unfoldable pub working : List Bool → List ℕ → List ℕ
working [] ticks = ticks
working (fault ∷ faults) [] = []
working (true ∷ faults) (now ∷ ticks) = working faults ticks
working (false ∷ faults) (now ∷ ticks) = now ∷ working faults ticks

-- A run is overdue at a time when it is running, in scope, and began longer ago than the timeout.
abbrev pub is_overdue : StuckRunSweeper → List Pipeline → PipelineRun → ℕ → Bool
is_overdue s pipelines row now = is_stuck pipelines s.slug (now - run_timeout s) row

abbrev pub failed_at : PipelineRun → Option ℕ → PipelineRun
failed_at row none = row
failed_at row (some now) = failed_row now row

-- The run as the first tick at which it is overdue leaves it.
unfoldable pub healed : StuckRunSweeper → List Pipeline → List ℕ → PipelineRun → PipelineRun
unfolding find
healed s pipelines ticks row = failed_at row (find (is_overdue s pipelines row) ticks)

-- A failed run is never overdue.
healed-failed_row :
    (s : StuckRunSweeper) (pipelines : List Pipeline) (ticks : List ℕ) (now : ℕ) (row : PipelineRun)
    → healed s pipelines ticks (failed_row now row) ≡ failed_row now row
unfolding healed find same
healed-failed_row s pipelines [] now row = refl
healed-failed_row s pipelines (t ∷ ticks) now row = healed-failed_row s pipelines ticks now row

healed-change :
    (s : StuckRunSweeper) (pipelines : List Pipeline) (now : ℕ) (ticks : List ℕ)
    (runs : List PipelineRun)
    → map
        (healed s pipelines ticks)
        (change (is_stuck pipelines s.slug (now - run_timeout s)) (failed_row now) runs)
      ≡ map (healed s pipelines (now ∷ ticks)) runs
unfolding change healed find
healed-change s pipelines now ticks [] = refl
healed-change s pipelines now ticks (row ∷ runs) =
    by_test (is_stuck pipelines s.slug (now - run_timeout s) row)
      (healed-change s pipelines now ticks runs)
  where
    rest : List PipelineRun
    rest = change (is_stuck pipelines s.slug (now - run_timeout s)) (failed_row now) runs

    by_test :
        (b : Bool)
        → map (healed s pipelines ticks) rest ≡ map (healed s pipelines (now ∷ ticks)) runs
        → map (healed s pipelines ticks) (if b then failed_row now row ∷ rest else row ∷ rest)
          ≡ failed_at row (if b then some now else find (is_overdue s pipelines row) ticks)
            ∷ map (healed s pipelines (now ∷ ticks)) runs
    by_test true ih = rw (healed-failed_row s pipelines ticks now row, ih) refl
    by_test false ih = rw ih refl

healed_never :
    (s : StuckRunSweeper) (pipelines : List Pipeline) (runs : List PipelineRun)
    → runs ≡ map (healed s pipelines []) runs
unfolding healed find
healed_never s pipelines [] = refl
healed_never s pipelines (row ∷ runs) = ap (λ rest. row ∷ rest) (healed_never s pipelines runs)

-- What a sweep leaves, by what the next statement does.
abbrev swept : StuckRunSweeper → ℕ → Db → Db
swept s now db = record db {
  runs = change (is_stuck db.pipelines s.slug (now - run_timeout s)) (failed_row now) db.runs;
}

abbrev after : StuckRunSweeper → ℕ → List Bool → Db → Db
after s now [] db = swept s now db
after s now (true ∷ faults) db = record db { faults = faults }
after s now (false ∷ faults) db = swept s now (record db { faults = faults })

sweep_once-after :
    (s : StuckRunSweeper) (now : ℕ) (db : Db) → (sweep_once s now db).1 ≡ after s now db.faults db
unfolding sweep_once fail_stuck_running_runs statement
sweep_once-after s now db = by_faults db.faults refl
  where
    by_faults :
        (faults : List Bool) → db.faults ≡ faults → (sweep_once s now db).1 ≡ after s now faults db
    by_faults [] e = rw e refl
    by_faults (true ∷ faults) e = rw e refl
    by_faults (false ∷ faults) e = rw e refl

sweep_each-healed :
    (s : StuckRunSweeper) (ticks : List ℕ) (db : Db)
    → (sweep_each s ticks db).1.runs ≡ map (healed s db.pipelines (working db.faults ticks)) db.runs
unfolding sweep_each working
sweep_each-healed s [] db = by_faults db.faults
  where
    by_faults :
        (faults : List Bool) → db.runs ≡ map (healed s db.pipelines (working faults [])) db.runs
    by_faults [] = healed_never s db.pipelines db.runs
    by_faults (fault ∷ faults) = healed_never s db.pipelines db.runs
sweep_each-healed s (now ∷ ticks) db =
    sweep_each-healed s ticks (sweep_once s now db).1
    ∙ (ap (λ (d : Db). map (healed s d.pipelines (working d.faults ticks)) d.runs)
          (sweep_once-after s now db)
        ∙ by_faults db.faults refl)
  where
    by_faults :
        (faults : List Bool)
        → db.faults ≡ faults
        → (let d = after s now faults db in
            map (healed s d.pipelines (working d.faults ticks)) d.runs)
          ≡ map (healed s db.pipelines (working faults (now ∷ ticks))) db.runs
    by_faults [] e = rw e (healed-change s db.pipelines now ticks db.runs)
    by_faults (true ∷ faults) e = refl
    by_faults (false ∷ faults) e = healed-change s db.pipelines now (working faults ticks) db.runs

-- After the sweeper ran at a list of times, each run is as the first time left it at which its
-- statement did not fail and the run was overdue: running, in scope, and begun longer ago than the
-- timeout. A run that is overdue at none of them is as it was.
pub run-healed :
    (s : StuckRunSweeper) (start : ℕ) (ticks : List ℕ) (db : Db)
    → (run s start ticks db).1.runs
      ≡ map (healed s db.pipelines (working db.faults (start ∷ ticks))) db.runs
unfolding run
run-healed s start ticks db = sweep_each-healed s (start ∷ ticks) db
