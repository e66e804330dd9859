-- ===== src/Service/Tenancy.antt =====
-- workspace/pipeline.go: the handlers on a pipeline of another workspace.
use workspace_api.Base.{
  ℕ, ◌≡◌, ap, subst, ◌>>◌, ◌∙◌, sym, Bool, false, not, ◌&&◌, Text, same, is_empty, ok, err,
  pipeline_not_found, of_result, bind-ok, bind-err,
}
use workspace_api.Model.{Pipeline, PipelineRun, Workspace, is_empty_json}
use workspace_api.Postgres
use workspace_api.Postgres.{Db}
use workspace_api.Mirror.World.{World, on_db}
use workspace_api.Service.{PipelineService, owned_pipeline, update_pipeline, delete_pipeline}
use workspace_api.Service.Runs.{trigger_pipeline, report_pipeline_run, check_tenant}

module _ {R : Type 0} (s : PipelineService R) where
  -- What a handler gets for a row of another workspace.
  pub owned_pipeline_foreign :
      (slug id : Text) (row : Pipeline) (w : World R) (db : Db)
      → Postgres.get_pipeline id w.db ≡ (ok row, db)
      → same row.customer_slug slug ≡ false
      → owned_pipeline s slug id w ≡ (err pipeline_not_found, record w { db = db })
  unfolding owned_pipeline on_db
  owned_pipeline_foreign slug id row w db g h = rw (g, h)

  check_tenant_foreign :
      (slug id : Text) (row : Pipeline) (w : World R) (db : Db)
      → Postgres.get_pipeline id w.db ≡ (ok row, db)
      → same row.customer_slug slug ≡ false
      → is_empty slug ≡ false
      → check_tenant s slug id w ≡ (err pipeline_not_found, record w { db = db })
  unfolding check_tenant
  check_tenant_foreign slug id row w db g h e =
      rw e (bind-err (owned_pipeline s slug id) _ w (owned_pipeline_foreign slug id row w db g h))

  -- For a pipeline of another workspace than the caller's, update, delete, trigger and the worker's
  -- report fail with "pipeline not found", and the only thing that happens is the read of the row. An
  -- update may keep, replace or clear the credentials, but not clear and set them at once; a report must
  -- come with a tenant.
  pub foreign_pipeline_refused :
      (caller fresh : Text) (now : ℕ) (clear : Bool) (p row : Pipeline) (run : PipelineRun)
      (ws : Workspace) (w : World R) (db : Db)
      → s.workspace_by_user caller ≡ ok ws
      → Postgres.get_pipeline p.id w.db ≡ (ok row, db)
      → same row.customer_slug ws.slug ≡ false
      → run.pipeline_id ≡ p.id
      → is_empty ws.slug ≡ false
      → (clear && not (is_empty_json p.source_credentials)) ≡ false
      → (update_pipeline s caller now clear p w ≡ (err pipeline_not_found, record w { db = db }))
        × (delete_pipeline s caller fresh p.id w ≡ (err pipeline_not_found, record w { db = db }))
        × (trigger_pipeline s caller now fresh p.id w
            ≡ (err pipeline_not_found, record w { db = db }))
        × (report_pipeline_run s ws.slug now fresh run w
            ≡ (err pipeline_not_found, record w { db = db }))
  unfolding update_pipeline delete_pipeline trigger_pipeline report_pipeline_run
  foreign_pipeline_refused caller fresh now clear p row run ws w db c g h i e j =
      let o = owned_pipeline_foreign ws.slug p.id row w db g h in
      let caller_known = ap (λ r. (r, w)) c in
      (
        rw j (
            bind-ok (of_result (s.workspace_by_user caller)) _ w caller_known
            ∙ bind-err (owned_pipeline s ws.slug p.id) _ w o),
        bind-ok (of_result (s.workspace_by_user caller)) _ w caller_known
            ∙ bind-err (owned_pipeline s ws.slug p.id) _ w o,
        bind-ok (of_result (s.workspace_by_user caller)) _ w caller_known
            ∙ bind-err (owned_pipeline s ws.slug p.id) _ w o,
        bind-err (check_tenant s ws.slug run.pipeline_id >> _) _ w (
            bind-err (check_tenant s ws.slug run.pipeline_id) _ w (
              subst
                (λ i. check_tenant s ws.slug i w ≡ (err pipeline_not_found, record w { db = db }))
                (sym i) (check_tenant_foreign ws.slug p.id row w db g h e))),
      )
