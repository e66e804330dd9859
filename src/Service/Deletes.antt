-- ===== src/Service/Deletes.antt =====
-- workspace/pipeline.go: what a delete that fails leaves of the rows of the pipelines.
use workspace_api.Base.{
  ◌≡◌, refl, ap, ◌∙◌, sym, false, not, ◌&&◌, [], ◌∷◌, ◌⊎◌, inl, inr, Bool-cases, Text, same, has,
  keep, find, some, Result, Error, ok, err, M, next, ◌>>=◌, pure, of_result, bind-ok, bind-err,
}
use workspace_api.Model.{Pipeline, Workspace}
use workspace_api.Postgres
use workspace_api.Postgres.{Db, has_id, has_name}
use workspace_api.Postgres.Restore.{find_only}
use workspace_api.Postgres.Pending.{get_pipeline_again}
use workspace_api.Postgres.Reinsert.{reinserted, delete-found, create-reinserted}
use workspace_api.Mirror.World.{World, on_db}
use workspace_api.Service.{
  PipelineService, commit_mirror, commit_or_compensate, owned_pipeline, delete_pipeline,
}
use workspace_api.Service.Compensation.{Steady, commit_or_compensate_err}
use workspace_api.Service.Tenancy.{owned_pipeline_foreign}
use workspace_api.Service.Trigger.{owned_pipeline_again}

module _ {R : Type 0} where
  abbrev reinsert : Text → Pipeline → M (World R) (Unit {0})
  reinsert fresh row = on_db (Postgres.create_pipeline fresh row) >>= λ _. pure tt

  reinsert-rows :
      (fresh : Text) (row : Pipeline) (v : World R)
      → (reinsert fresh row v).1.db.pipelines
        ≡ (Postgres.create_pipeline fresh row v.db).1.pipelines
  unfolding on_db
  reinsert-rows fresh row v = by_result (Postgres.create_pipeline fresh row v.db)
    where
      by_result :
          (r : Result Pipeline × Db)
          → (next {A = Pipeline} {B = Unit {0}}
              (r.0, record v { db = r.1 })
              (λ _. pure tt)).1.db.pipelines
            ≡ r.1.pipelines
      by_result (ok a, db) = refl
      by_result (err e, db) = refl

module _ {R : Type 0} (s : PipelineService R)
    (steady : (caller slug : Text) → Steady (commit_mirror s caller slug)) where
  -- The row is deleted, the commit fails, and the row is inserted again.
  delete_err :
      (caller fresh slug id : Text) (row : Pipeline) (w t : World R) (e : Error)
      → w.db.faults ≡ []
      → find (has_id id) w.db.pipelines ≡ some row
      → has (has_id fresh) w.db.pipelines ≡ false
      → has (λ r. not (has_id id r) && has_name row.customer_slug row.name r) w.db.pipelines ≡ false
      → (on_db (Postgres.delete_pipeline id) >>= λ _.
            commit_or_compensate s caller slug (reinsert fresh row))
          w
        ≡ (err e, t)
      → t.db.pipelines ≡ reinserted id fresh row w.db.pipelines
  unfolding on_db
  delete_err caller fresh slug id row w t e q k i n h =
      let (db, deleted, f1, p1) = delete-found id row w.db q k in
      let here =
        ap
          (λ z.
            next {A = Unit {0}} {B = Unit {0}} (z.0, record w { db = z.1 })
              (λ _. commit_or_compensate s caller slug (reinsert fresh row)))
          deleted in
      let (v, f2, p2, undone) =
        commit_or_compensate_err s steady caller slug (reinsert fresh row) (record w { db = db }) t
          e f1 (sym here ∙ h) in
      ap (λ z. z.db.pipelines) (sym undone)
      ∙ (reinsert-rows fresh row v
          ∙ create-reinserted id fresh row w.db.pipelines v.db f2 (p2 ∙ p1) i n)

  -- A delete that fails leaves the rows of the pipelines as they were, or, where the commit to the
  -- repo is what fails, puts the row behind the others with a new id and without its mark that the
  -- box owns the credentials. No statement fails, the commit writes no row of a pipeline, the
  -- pipeline is the only one with its id and the only one of its workspace with its name, and the new
  -- id is new.
  pub delete_pipeline-reinserted :
      (caller fresh id : Text) (row : Pipeline) (w t : World R) (e : Error)
      → w.db.faults ≡ []
      → keep (has_id id) w.db.pipelines ≡ row ∷ []
      → has (has_id fresh) w.db.pipelines ≡ false
      → has (λ r. not (has_id id r) && has_name row.customer_slug row.name r) w.db.pipelines ≡ false
      → delete_pipeline s caller fresh id w ≡ (err e, t)
      → (t.db.pipelines ≡ w.db.pipelines)
        ⊎ (t.db.pipelines ≡ reinserted id fresh row w.db.pipelines)
  unfolding delete_pipeline
  delete_pipeline-reinserted caller fresh id row w t e q k i n h =
      by_caller (s.workspace_by_user caller) refl
    where
      found : find (has_id id) w.db.pipelines ≡ some row
      found = (find_only id row w.db.pipelines k).0

      by_caller :
          (r : Result Workspace)
          → s.workspace_by_user caller ≡ r
          → (t.db.pipelines ≡ w.db.pipelines)
            ⊎ (t.db.pipelines ≡ reinserted id fresh row w.db.pipelines)
      by_caller (err x) c = inl (
          ap (λ z. z.1.db.pipelines)
            (sym h ∙ bind-err (of_result (s.workspace_by_user caller)) _ w (ap (λ z. (z, w)) c)))
      by_caller (ok ws) c =
          let known =
            sym (bind-ok (of_result (s.workspace_by_user caller)) _ w (ap (λ z. (z, w)) c)) ∙ h in
          elim (Bool-cases (same row.customer_slug ws.slug)) [
            | inl m ↦ inr (
                delete_err caller fresh ws.slug id row w t e q found i n (
                  sym (
                    bind-ok (owned_pipeline s ws.slug id) _ w
                      (owned_pipeline_again s ws.slug id w row found m q))
                  ∙ known))
            | inr m ↦ inl (
                ap (λ z. z.1.db.pipelines)
                  (sym known
                    ∙ bind-err (owned_pipeline s ws.slug id) _ w (
                        owned_pipeline_foreign s ws.slug id row w w.db
                          (get_pipeline_again id w.db row found q) m)))
          ]
