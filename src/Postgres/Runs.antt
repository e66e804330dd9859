-- ===== src/Postgres/Runs.antt =====
-- postgres/pipeline.go: the statements on `pipeline_runs`.
use workspace_api.Base.{
  ℕ, ◌==◌, ltb, Bool, not, ◌&&◌, ◌||◌, Option, none, some, List, [], ◌∷◌, ◌++◌, Text, codes, same,
  is_empty, keep, has, change, order_by, Result, ok, err, M, other, run_not_found, if◌then◌else◌,
  or_else, length, ◌-◌,
}
use workspace_api.Model.{Pipeline, PipelineRun}
use workspace_api.Postgres.Tables.{Db, statement, has_id, belongs_to}

-- `pipeline_runs`. `COALESCE($1::uuid, gen_random_uuid())`, and a zero `CreatedAt` is now.
abbrev pub run_row : Text → ℕ → PipelineRun → PipelineRun
run_row fresh now run = record run {
  id = if is_empty run.id then fresh else run.id;
  created_at = if run.created_at == 0 then now else run.created_at;
}

abbrev pub has_run_id : Text → PipelineRun → Bool
has_run_id id run = same run.id id

-- The primary key and the foreign key fail the insert, with no sentinel.
unfoldable pub insert_run : PipelineRun → Db → Result PipelineRun × Db
insert_run row db =
    if has (has_run_id row.id) db.runs || not (has (has_id row.pipeline_id) db.pipelines)
    then (err other, db)
    else (ok row, record db { runs = db.runs ++ row ∷ [] })

unfoldable pub create_run : Text → ℕ → PipelineRun → M Db PipelineRun
unfolding statement insert_run
create_run fresh now run = statement (insert_run (run_row fresh now run))

abbrev pub pending : Text
pending = codes "pending"

abbrev pub is_pending : Text → PipelineRun → Bool
is_pending id run = same run.pipeline_id id && same run.status pending

abbrev pub first_of {ℓ} : {A : Type ℓ} → List A → Option A
first_of [] = none
first_of (x ∷ xs) = some x

-- The oldest queued run, if there is one.
unfoldable pub get_pending_run : Text → M Db (Option PipelineRun)
unfolding statement
get_pending_run id =
    statement
      λ db. (ok (first_of (order_by (λ run. run.created_at) (keep (is_pending id) db.runs))), db)

abbrev pub coalesce {ℓ} : {A : Type ℓ} → Option A → Option A → Option A
coalesce none b = b
coalesce (some a) b = some a

abbrev pub is_run : PipelineRun → PipelineRun → Bool
is_run run row = same row.id run.id && same row.pipeline_id run.pipeline_id

abbrev pub reported_row : PipelineRun → PipelineRun → PipelineRun
reported_row run row = record row {
  status = run.status;
  started_at = coalesce run.started_at row.started_at;
  completed_at = coalesce run.completed_at row.completed_at;
  rows_loaded = run.rows_loaded;
  error_message = run.error_message;
}

unfoldable pub update_run : PipelineRun → M Db (Unit {0})
unfolding statement
update_run run = statement λ db.
    if has (is_run run) db.runs
    then (ok tt, record db { runs = change (is_run run) (reported_row run) db.runs })
    else (err run_not_found, db)

abbrev pub running : Text
running = codes "running"

abbrev pub stuck_message : Text
stuck_message =
    codes
      "failed by stuck-run sweep: no terminal report within timeout (box worker likely OOM-killed or evicted mid-load)"

-- `WHERE r.status = 'running' AND COALESCE(started_at, created_at) < cutoff AND ($2 = '' OR slug = $2)`
abbrev pub is_stuck : List Pipeline → Text → ℕ → PipelineRun → Bool
is_stuck pipelines slug cutoff run =
    same run.status running
    && ltb (or_else run.started_at run.created_at) cutoff
    && has (λ row. has_id run.pipeline_id row && (is_empty slug || belongs_to slug row)) pipelines

abbrev pub failed_row : ℕ → PipelineRun → PipelineRun
failed_row now run = record run {
  status = codes "failed";
  completed_at = some now;
  error_message = stuck_message;
}

unfoldable pub fail_stuck_running_runs : Text → ℕ → ℕ → M Db ℕ
unfolding statement
fail_stuck_running_runs slug older_than now = statement λ db.
    let stuck = is_stuck db.pipelines slug (now - older_than) in
    (ok (length (keep stuck db.runs)), record db { runs = change stuck (failed_row now) db.runs })
