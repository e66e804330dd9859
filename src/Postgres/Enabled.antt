-- ===== src/Postgres/Enabled.antt =====
-- postgres/pipeline.go: what the worker should act on for a customer.
use workspace_api.Base.{
  ℕ, ltb, Bool, not, false, ◌&&◌, ◌||◌, Option, none, some, List, [], ◌∷◌, Text, codes, same,
  is_empty, is_some, keep, order_by, ok, M, if◌then◌else◌,
}
use workspace_api.Model.{Pipeline, PipelineRun}
use workspace_api.Postgres.Tables.{Db, statement, belongs_to}
use workspace_api.Postgres.Runs.{is_pending, first_of}

-- A `Pipeline` with its fields that are no columns.
pub record EnabledPipeline : Type 0 where
  pub row : Pipeline
  pub pending_run_id : Text
  pub trigger_now : Bool
  pub last_run_at : Option ℕ

abbrev pub succeeded : Text → PipelineRun → Bool
succeeded id run = same run.pipeline_id id && same run.status (codes "success")

unfoldable pub newest : List PipelineRun → Option ℕ
newest [] = none
newest (run ∷ runs) = elim (newest runs) [
  | none ↦ some run.created_at
  | some t ↦ some (if ltb t run.created_at then run.created_at else t)
]

-- The two lateral joins.
abbrev pub oldest_pending : List PipelineRun → Text → Option PipelineRun
oldest_pending runs id = first_of (order_by (λ run. run.created_at) (keep (is_pending id) runs))

abbrev pub run_id_of : Option PipelineRun → Text
run_id_of none = []
run_id_of (some run) = run.id

-- `credentials_external` is not selected.
unfoldable pub enabled_row : List PipelineRun → Pipeline → EnabledPipeline
unfolding keep order_by newest same
enabled_row runs row =
    let id = run_id_of (oldest_pending runs row.id) in
    record {
      row = record row { credentials_external = false };
      pending_run_id = id;
      trigger_now = not (is_empty id);
      last_run_at = newest (keep (succeeded row.id) runs);
    }

abbrev pub is_enabled : Text → List PipelineRun → Pipeline → Bool
is_enabled slug runs row =
    belongs_to slug row && (row.enabled || is_some (oldest_pending runs row.id))

unfoldable pub enabled_rows : List PipelineRun → List Pipeline → List EnabledPipeline
unfolding enabled_row
enabled_rows runs [] = []
enabled_rows runs (row ∷ rows) = enabled_row runs row ∷ enabled_rows runs rows

unfoldable pub get_enabled_pipelines : Text → M Db (List EnabledPipeline)
unfolding statement keep order_by enabled_rows same
get_enabled_pipelines slug = statement λ db.
    let rows = order_by (λ row. row.created_at) (keep (is_enabled slug db.runs) db.pipelines) in
    (ok (enabled_rows db.runs rows), db)
