-- ===== src/Service/Runs.antt =====
-- workspace/pipeline.go: the runs, queued by the Console and reported by the worker.
use workspace_api.Base.{
  ◌&&◌, ℕ, not, ◌||◌, Option, none, some, [], Text, codes, same, is_empty, Result, ok, err,
  run_not_found, M, ◌>>=◌, ◌>>◌, pure, fail, attempt, best_effort, of_result, if◌then◌else◌,
}
use workspace_api.Model.{PipelineRun, run_succeeded, run_failed}
use workspace_api.Postgres
use workspace_api.Postgres.{
  create_run, get_pending_run, update_run, set_credentials_external, delete_credential_render,
  notify,
}
use workspace_api.Mirror.World.{World, on_db}
use workspace_api.Service.{PipelineService, owned_pipeline}

abbrev pub new_run : ℕ → Text → PipelineRun
new_run now id = record {
  id = [];
  pipeline_id = id;
  status = codes "pending";
  started_at = none;
  completed_at = none;
  rows_loaded = 0;
  error_message = [];
  created_at = now;
}

module _ {R : Type 0} (s : PipelineService R) where
  -- A queued run is returned, else one is queued.
  unfoldable pub queued : ℕ → Text → Text → Option PipelineRun → M (World R) PipelineRun
  unfolding on_db create_run
  queued now fresh id (some run) = pure run
  queued now fresh id none = on_db (create_run fresh now (new_run now id))

  unfoldable pub trigger_pipeline : Text → ℕ → Text → Text → M (World R) PipelineRun
  unfolding owned_pipeline on_db get_pending_run queued
  trigger_pipeline caller now fresh id = of_result (s.workspace_by_user caller) >>= λ ws.
      owned_pipeline s ws.slug id >>= λ _. on_db (get_pending_run id) >>= queued now fresh id

  -- `notifyRun`; the e-mail alert is no part of the state.
  unfoldable pub notify_run : PipelineRun → M (World R) (Unit {0})
  unfolding on_db notify Postgres.get_pipeline same
  notify_run run =
      let notice = if same run.status (codes "failed") then run_failed else run_succeeded in
      if (not s.notifications && not s.alerts)
        || not (same run.status (codes "success") || same run.status (codes "failed"))
      then pure tt
      else best_effort (
          on_db (Postgres.get_pipeline run.pipeline_id) >>= λ p.
          if s.notifications
          then on_db (
              notify (record {
                customer_slug = p.customer_slug;
                notice = notice;
                pipeline_id = run.pipeline_id;
              }))
          else pure tt)

  unfoldable pub or_create : Text → ℕ → PipelineRun → Result (Unit {0}) → M (World R) (Unit {0})
  unfolding on_db create_run
  or_create fresh now run (ok u) = pure tt
  or_create fresh now run (err run_not_found) = on_db (create_run fresh now run) >>= λ _. pure tt
  or_create fresh now run (err e) = fail e

  -- The tenant of the caller's token, if there is one.
  unfoldable pub check_tenant : Text → Text → M (World R) (Unit {0})
  unfolding owned_pipeline
  check_tenant slug id =
      if is_empty slug then pure tt else (owned_pipeline s slug id >>= λ _. pure tt)

  -- `ReportPipelineRun`; an empty caller slug skips the check of the tenant.
  unfoldable pub report_pipeline_run : Text → ℕ → Text → PipelineRun → M (World R) (Unit {0})
  unfolding check_tenant on_db or_create update_run create_run notify_run
  report_pipeline_run caller_slug now fresh run =
      check_tenant caller_slug run.pipeline_id
      >> (if not (is_empty run.id)
          then (attempt (on_db (update_run run)) >>= or_create fresh now run)
          else (on_db (create_run fresh now run) >>= λ _. pure tt))
      >> notify_run run
