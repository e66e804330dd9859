-- ===== src/Service/Trigger.antt =====
-- workspace/pipeline.go: TriggerPipeline, called twice.
use workspace_api.Base.{
  ℕ, ◌≡◌, ap, ◌∙◌, sym, true, Option, none, some, [], Text, codes, same, same_refl, find, Result,
  ok, next-eq-ok, of_result, bind-ok, Bool-cases, inl, inr, ok-inj,
}
use workspace_api.Model.{Pipeline, PipelineRun}
use workspace_api.Postgres
use workspace_api.Postgres.{Db, has_id, get_pending_run, create_run}
use workspace_api.Postgres.Pending.{
  get_pending_run_again, get_pipeline_again, get_pipeline-found, pipelines-get_pending_run,
  pipelines-create_run, get_pending_run-create_run,
}
use workspace_api.Mirror.World.{World, on_db}
use workspace_api.Service.{PipelineService, owned_pipeline}
use workspace_api.Service.Runs.{new_run, queued, trigger_pipeline}

module _ {R : Type 0} (s : PipelineService R) where
  owned_pipeline-found :
      (slug id : Text) (w w1 : World R) (row : Pipeline)
      → owned_pipeline s slug id w ≡ (ok row, w1)
      → (find (has_id id) w1.db.pipelines ≡ some row) × (same row.customer_slug slug ≡ true)
  unfolding owned_pipeline on_db
  owned_pipeline-found slug id w w1 row h =
      let (found, v, read, rest) = next-eq-ok (on_db (Postgres.get_pipeline id) w) _ h in
      elim (Bool-cases (same found.customer_slug slug)) [
        | inl e ↦
            let kept : ◌≡◌ {A = Result Pipeline × World R} (ok found, v) (ok row, w1) =
              rw e at rest in
            let same_row = ok-inj (ap (λ z. z.0) kept) in
            (
              ap (λ z. find (has_id id) z.1.db.pipelines) (sym kept)
                  ∙ (get_pipeline-found id w.db v.db found (ap (λ z. (z.0, z.1.db)) read)
                      ∙ ap some same_row),
              ap (λ q. same q.customer_slug slug) (sym same_row) ∙ e,
            )
        | inr e ↦ cc (rw e at rest)
      ]

  pub owned_pipeline_again :
      (slug id : Text) (t : World R) (row : Pipeline)
      → find (has_id id) t.db.pipelines ≡ some row
      → same row.customer_slug slug ≡ true
      → t.db.faults ≡ []
      → owned_pipeline s slug id t ≡ (ok row, t)
  unfolding owned_pipeline on_db
  owned_pipeline_again slug id t row f e h = rw (get_pipeline_again id t.db row f h, e)

  on_db_again :
      (id : Text) (t : World R) (run : PipelineRun)
      → get_pending_run id t.db ≡ (ok (some run), t.db)
      → on_db (get_pending_run id) t ≡ (ok (some run), t)
  unfolding on_db
  on_db_again id t run h = ap (λ z. (z.0, record t { db = z.1 })) h

  -- What is queued for an id is found when it is looked for.
  queued_again :
      (now : ℕ) (fresh id : Text) (o : Option PipelineRun) (w w1 t : World R) (run : PipelineRun)
      → on_db (get_pending_run id) w ≡ (ok o, w1)
      → queued s now fresh id o w1 ≡ (ok run, t)
      → t.db.faults ≡ []
      → (get_pending_run id t.db ≡ (ok (some run), t.db)) × (t.db.pipelines ≡ w.db.pipelines)
  unfolding queued on_db
  queued_again now fresh id (some r) w w1 t run h k e =
      let read : get_pending_run id w.db ≡ (ok (some r), w1.db) = ap (λ z. (z.0, z.1.db)) h in
      let same_run = ok-inj (ap (λ z. z.0) k) in
      let same_db : w1.db ≡ t.db = ap (λ z. z.1.db) k in
      (
        get_pending_run_again id w.db t.db run
            (read
              ∙ (ap (λ q. (ok (some q), w1.db)) same_run ∙ ap (λ db. (ok (some run), db)) same_db))
            e,
        ap (λ db. db.pipelines) (sym same_db)
            ∙ (ap (λ z. z.1.pipelines) (sym read) ∙ pipelines-get_pending_run id w.db),
      )
  queued_again now fresh id none w w1 t run h k e =
      let read : get_pending_run id w.db ≡ (ok none, w1.db) = ap (λ z. (z.0, z.1.db)) h in
      let made : create_run fresh now (new_run now id) w1.db ≡ (ok run, t.db) =
        ap (λ z. (z.0, z.1.db)) k in
      (
        get_pending_run-create_run id fresh now w.db w1.db t.db (new_run now id) run read made
            (rw (same_refl id, same_refl (codes "pending"))) e,
        ap (λ z. z.1.pipelines) (sym made)
            ∙ (pipelines-create_run fresh now (new_run now id) w1.db
                ∙ (ap (λ z. z.1.pipelines) (sym read) ∙ pipelines-get_pending_run id w.db)),
      )

  -- A trigger is idempotent: a second one, later and with another id at hand, returns the run of the
  -- first and changes nothing, if no statement of it fails.
  pub trigger_pipeline_idem :
      (caller fresh fresh2 id : Text) (now now2 : ℕ) (w t : World R) (run : PipelineRun)
      → trigger_pipeline s caller now fresh id w ≡ (ok run, t)
      → t.db.faults ≡ []
      → trigger_pipeline s caller now2 fresh2 id t ≡ (ok run, t)
  unfolding trigger_pipeline
  trigger_pipeline_idem caller fresh fresh2 id now now2 w t run h e =
      let (ws, w0, known, h1) = next-eq-ok (of_result (s.workspace_by_user caller) w) _ h in
      let (row, w1, owned, h2) = next-eq-ok (owned_pipeline s ws.slug id w0) _ h1 in
      let (o, w2, read, h3) =
        next-eq-ok (on_db (get_pending_run id) w1) (queued s now fresh id) h2 in
      let (found, mine) = owned_pipeline-found ws.slug id w0 w1 row owned in
      let (again, rows) = queued_again now fresh id o w1 w2 t run read h3 e in
      bind-ok (of_result (s.workspace_by_user caller)) _ t (ap (λ z. (z.0, t)) known)
      ∙ (bind-ok (owned_pipeline s ws.slug id) _ t
            (owned_pipeline_again ws.slug id t row (ap (find (has_id id)) rows ∙ found) mine e)
          ∙ bind-ok (on_db (get_pending_run id)) (queued s now2 fresh2 id) t
              (on_db_again id t run again))
