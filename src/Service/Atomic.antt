-- ===== src/Service/Atomic.antt =====
-- workspace/pipeline.go: a create whose commit or whose earlier step fails.
use workspace_api.Base.{
  List, ℕ, ◌≡◌, refl, ap, ◌∙◌, sym, true, not, some, [], Text, codes, is_empty, has, keep, Result,
  Error, ok, err, M, next, ◌>>=◌, pure, if◌then◌else◌,
}
use workspace_api.Model.{Pipeline, Workspace}
use workspace_api.Postgres
use workspace_api.Postgres.{Db, statement, has_id, has_name, insert_pipeline}
use workspace_api.Mirror.World.{World, on_db}
use workspace_api.Postgres.Undo.{create-ok, create-err, keep-append_own, has-append_own, delete-all}
use workspace_api.Service.{
  PipelineService, commit_mirror, commit_or_compensate, swap_google_oauth_grant, create_pipeline,
  swap_reference,
}
use workspace_api.Service.Compensation.{
  save_err, Steady, FailsClean, FailsClean-bind, FailsClean-check,
}
use workspace_api.Service.Grants.{Steady-swap_reference}

module _ {R : Type 0} (s : PipelineService R)
    (steady : (caller slug : Text) → Steady (commit_mirror s caller slug)) where
  abbrev commit_row : Text → Text → Pipeline → M (World R) Pipeline
  commit_row caller slug row =
      commit_or_compensate s caller slug (on_db (Postgres.delete_pipeline row.id)) >>= λ _. pure row

  -- A row that the commit does not follow is gone.
  commit_row_err :
      (caller slug fresh : Text) (p row : Pipeline) (w t : World R) (e : Error) (db : Db)
      → w.db.faults ≡ []
      → Postgres.create_pipeline fresh p w.db ≡ (ok row, db)
      → commit_row caller slug row (record w { db = db }) ≡ (err e, t)
      → t.db.pipelines ≡ w.db.pipelines
  unfolding on_db
  commit_row_err caller slug fresh p row w t e db q k h =
      let (f1, rows, absent) = create-ok fresh p row w.db db q k in
      let (u, f2, same_rows, undone) =
        save_err s steady row caller slug (on_db (Postgres.delete_pipeline row.id))
          (record w { db = db }) t e f1 h in
      let held = ap (has (has_id row.id)) (same_rows ∙ rows) ∙ has-append_own row w.db.pipelines in
      ap (λ z. z.db.pipelines) (sym undone)
      ∙ (delete-all row.id u.db f2 held
          ∙ (ap (keep (λ r. not (has_id row.id r))) (same_rows ∙ rows)
              ∙ keep-append_own row w.db.pipelines absent))

  FailsClean-insert :
      (caller slug fresh : Text) (p : Pipeline)
      → (rows : List Pipeline)
      → FailsClean rows (on_db (Postgres.create_pipeline fresh p) >>= commit_row caller slug)
  unfolding on_db
  FailsClean-insert caller slug fresh p rows w t e q o h =
      by_row (Postgres.create_pipeline fresh p w.db) refl ∙ o
    where
      by_row :
          (r : Result Pipeline × Db)
          → Postgres.create_pipeline fresh p w.db ≡ r
          → t.db.pipelines ≡ w.db.pipelines
      by_row (ok row, db) k =
          commit_row_err caller slug fresh p row w t e db q k
            (sym (ap (λ z. next (z.0, record w { db = z.1 }) (commit_row caller slug)) k) ∙ h)
      by_row (err x, db) k =
          ap (λ z. z.1.db.pipelines)
            (sym h ∙ ap (λ z. next (z.0, record w { db = z.1 }) (commit_row caller slug)) k)
          ∙ create-err fresh p x w.db db q k

abbrev prepared : ℕ → Workspace → Pipeline → Pipeline
prepared now ws given = record given {
  customer_slug = ws.slug;
  created_at = now;
  updated_at = now;
  write_disposition =
      if is_empty given.write_disposition then codes "append" else given.write_disposition;
  enabled = true;
}

create_pipeline-FailsClean :
    {R : Type 0} (s : PipelineService R)
    → ((caller slug : Text) → Steady (commit_mirror s caller slug))
    → ((consume : Text → Text → M (World R) Text)
        → s.consume_grant ≡ some consume
        → (id slug : Text) → Steady (consume id slug))
    → (caller : Text) (now : ℕ) (fresh : Text) (given : Pipeline) → (rows : List Pipeline)
    → FailsClean rows (create_pipeline s caller now fresh given)
unfolding create_pipeline swap_google_oauth_grant
create_pipeline-FailsClean s commits consumes caller now fresh given rows =
    FailsClean-check (s.workspace_by_user caller) _ λ ws.
      FailsClean-check (s.validate_source_config given.source_type given.source_config) _ λ _.
        FailsClean-check
          (s.validate_source_credentials given.source_type given.source_config
            given.source_credentials)
          _
          λ _.
            FailsClean-bind
              (swap_reference s ws.slug (prepared now ws given)
                (s.google_connection_ref given.source_type given.source_credentials))
              _
              (Steady-swap_reference s consumes ws.slug (prepared now ws given)
                (s.google_connection_ref given.source_type given.source_credentials))
              λ credentials.
                FailsClean-insert s commits caller ws.slug fresh
                  (record (prepared now ws given) { source_credentials = credentials }) rows

-- A create that fails, at whatever step, leaves the rows of the pipelines as they were: where the
-- commit to the repo is what fails, the row is inserted and deleted again. No statement fails, and
-- the commit and the consumption of a grant write no row of a pipeline.
pub create_pipeline_atomic :
    {R : Type 0} (s : PipelineService R)
    → ((caller slug : Text) → Steady (commit_mirror s caller slug))
    → ((consume : Text → Text → M (World R) Text)
        → s.consume_grant ≡ some consume
        → (id slug : Text) → Steady (consume id slug))
    → (caller : Text) (now : ℕ) (fresh : Text) (given : Pipeline) → (w t : World R) (e : Error)
    → w.db.faults ≡ []
    → create_pipeline s caller now fresh given w ≡ (err e, t)
    → t.db.pipelines ≡ w.db.pipelines
create_pipeline_atomic s commits consumes caller now fresh given w t e q h =
    create_pipeline-FailsClean s commits consumes caller now fresh given w.db.pipelines w t e q refl
      h
