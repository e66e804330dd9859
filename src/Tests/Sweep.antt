-- ===== src/Tests/Sweep.antt =====
-- workspace/pipeline_stuck_sweep.go: a run whose worker died, and a sweep that meets a lost connection.
use workspace_api.Base.{ℕ, ◌≡◌, refl, true, false, none, some, List, [], ◌∷◌, Text, codes, map}
use workspace_api.Model.{Pipeline, PipelineRun}
use workspace_api.Postgres.{Db, failed_row}
use workspace_api.Sweep.{StuckRunSweeper, run}
use workspace_api.Sweep.Heals.{healed, working, run-healed}
use workspace_api.Tests.Slugs.{pipeline}

abbrev orders : Pipeline
orders = pipeline (codes "1") (codes "Orders")

abbrev sweeper : StuckRunSweeper
sweeper = record { slug = orders.customer_slug; timeout = 0 }

abbrev dead : PipelineRun
dead = record {
  id = codes "r1";
  pipeline_id = orders.id;
  status = codes "running";
  started_at = some 100;
  completed_at = none;
  rows_loaded = 0;
  error_message = [];
  created_at = 90;
}

-- The statement of the third tick fails.
abbrev db : Db
db = record {
  pipelines = orders ∷ [];
  runs = dead ∷ [];
  definition_renders = [];
  credential_renders = [];
  notifications = [];
  faults = false ∷ false ∷ true ∷ [];
}

run-healed_example :
    (run sweeper 1000 (3700 ∷ 6400 ∷ 9100 ∷ []) db).1.runs
    ≡ map (healed sweeper (orders ∷ []) (1000 ∷ 3700 ∷ 9100 ∷ [])) (dead ∷ [])
unfolding working
run-healed_example = run-healed sweeper 1000 (3700 ∷ 6400 ∷ 9100 ∷ []) db

failed_at_last : (run sweeper 1000 (3700 ∷ 6400 ∷ 9100 ∷ []) db).1.runs ≡ failed_row 9100 dead ∷ []
unfolding run workspace_api.Base.change workspace_api.Base.same workspace_api.Base.has
failed_at_last = refl
