-- ===== src/Service/Updates.antt =====
-- workspace/pipeline.go: an update whose commit or whose earlier step fails.
use workspace_api.Base.{
  ℕ, ◌≡◌, refl, ap, ◌∙◌, sym, subst, Bool, true, false, not, ◌&&◌, ◌||◌, some, List, [], ◌∷◌, inl,
  inr, Bool-cases, Text, same, has, keep, find, change, Result, Error, ok, err, M, next, ◌>>=◌,
  pure, of_result, bind-ok, bind-err,
}
use workspace_api.Model.{Pipeline, is_empty_json}
use workspace_api.Postgres
use workspace_api.Postgres.{Db, statement, has_id, has_name, updated_row}
use workspace_api.Mirror.World.{World, on_db}
use workspace_api.Service.{
  PipelineService, commit_mirror, commit_or_compensate, swap_google_oauth_grant, owned_pipeline,
  resolve_update_credentials, finish_update, update_pipeline,
}
use workspace_api.Service.Compensation.{
  Steady-check, Steady, FailsClean, FailsClean-bind, FailsClean-check, save_err,
}
use workspace_api.Postgres.Restore.{find_only, update-ok, update-err, update-undo}
use workspace_api.Postgres.Pending.{get_pipeline_again}
use workspace_api.Service.Tenancy.{owned_pipeline_foreign}
use workspace_api.Service.Trigger.{owned_pipeline_again}
use workspace_api.Service.Grants.{Steady-swap_reference}

module _ {R : Type 0} (s : PipelineService R)
    (steady : (caller slug : Text) → Steady (commit_mirror s caller slug)) where
  finish_update-plain :
      (caller slug : Text) (p row : Pipeline) (touched : Bool) (w : World R)
      → row.credentials_external ≡ false
      → finish_update s caller slug p row touched w
        ≡ (commit_or_compensate s caller slug (on_db (Postgres.update_pipeline row)) >>= λ _.
              pure p)
            w
  unfolding finish_update
  finish_update-plain caller slug p row true w h = rw h
  finish_update-plain caller slug p row false w h = refl

  -- The row that was updated is put back when its commit fails.
  finish_update_err :
      (caller slug : Text) (p row : Pipeline) (touched : Bool) (rows : List Pipeline)
      (w t : World R) (e : Error)
      → w.db.faults ≡ []
      → w.db.pipelines ≡ change (has_id row.id) (updated_row p) rows
      → keep (has_id row.id) rows ≡ row ∷ []
      → has (λ r. not (has_id row.id r) && has_name row.customer_slug row.name r) rows ≡ false
      → row.credentials_external ≡ false
      → finish_update s caller slug p row touched w ≡ (err e, t)
      → t.db.pipelines ≡ rows
  unfolding on_db
  finish_update_err caller slug p row touched rows w t e q o k n x h =
      let (v, f1, p1, undone) =
        save_err s steady p caller slug (on_db (Postgres.update_pipeline row)) w t e q
          (sym (finish_update-plain caller slug p row touched w x) ∙ h) in
      ap (λ z. z.db.pipelines) (sym undone) ∙ update-undo p row rows v.db f1 (p1 ∙ o) k n

  FailsClean-store :
      (caller slug : Text) (p row : Pipeline) (touched : Bool) (rows : List Pipeline)
      → p.id ≡ row.id
      → keep (has_id row.id) rows ≡ row ∷ []
      → has (λ r. not (has_id row.id r) && has_name row.customer_slug row.name r) rows ≡ false
      → row.credentials_external ≡ false
      → FailsClean rows
          (on_db (Postgres.update_pipeline p) >>= λ _. finish_update s caller slug p row touched)
  unfolding on_db
  FailsClean-store caller slug p row touched rows i k n x w t e q o h =
      by_row (Postgres.update_pipeline p w.db) refl
    where
      after : Result (Unit {0}) × Db → Result Pipeline × World R
      after z = next (z.0, record w { db = z.1 }) (λ _. finish_update s caller slug p row touched)

      by_row :
          (r : Result (Unit {0}) × Db) → Postgres.update_pipeline p w.db ≡ r → t.db.pipelines ≡ rows
      by_row (ok u, db) c =
          let (f1, p1) = update-ok p w.db db q c in
          finish_update_err caller slug p row touched rows (record w { db = db }) t e f1
            (p1
              ∙ (ap (λ id. change (has_id id) (updated_row p) w.db.pipelines) i
                  ∙ ap (change (has_id row.id) (updated_row p)) o))
            k n x (sym (ap after c) ∙ h)
      by_row (err y, db) c =
          ap (λ z. z.1.db.pipelines) (sym h ∙ ap after c) ∙ (update-err p y w.db db q c ∙ o)

module _ {R : Type 0} (s : PipelineService R) where
  FailsClean-owned :
      {B : Type 0} (slug id : Text) (row : Pipeline) (rows : List Pipeline)
      (f : Pipeline → M (World R) B)
      → keep (has_id id) rows ≡ row ∷ []
      → FailsClean rows (f row)
      → FailsClean rows (owned_pipeline s slug id >>= f)
  FailsClean-owned slug id row rows f k clean w t e q o h =
      let (found, same_id) = find_only id row rows k in
      let here = ap (find (has_id id)) o ∙ found in
      elim (Bool-cases (same row.customer_slug slug)) [
        | inl m ↦ clean w t e q o (
            sym (
              bind-ok (owned_pipeline s slug id) f w
                (owned_pipeline_again s slug id w row here m q))
            ∙ h)
        | inr m ↦
            ap (λ z. z.1.db.pipelines)
              (sym h
                ∙ bind-err (owned_pipeline s slug id) f w (
                    owned_pipeline_foreign s slug id row w w.db
                      (get_pipeline_again id w.db row here q) m))
            ∙ o
      ]

  Steady-resolve :
      ((c : Text → Text → M (World R) Text)
        → s.consume_grant ≡ some c
        → (id slug : Text) → Steady (c id slug))
      → (slug : Text) (p row : Pipeline) (clear : Bool)
      → Steady (resolve_update_credentials s slug p row clear)
  unfolding resolve_update_credentials swap_google_oauth_grant
  Steady-resolve consumes slug p row true w q = (q, refl)
  Steady-resolve consumes slug p row false w q =
      elim (Bool-cases (is_empty_json p.source_credentials)) [
        | inl e ↦ rw e (q, refl)
        | inr e ↦ rw e (
            Steady-check
              (s.validate_source_credentials p.source_type p.source_config p.source_credentials) _
              (λ _.
                Steady-swap_reference s consumes slug p
                  (s.google_connection_ref p.source_type p.source_credentials))
              w q)
      ]

-- An update that fails, at whatever step, leaves the rows of the pipelines as they were: where the
-- commit to the repo is what fails, the old row is written back. No statement fails, the commit and
-- the consumption of a grant write no row of a pipeline, the pipeline is the only one with its id and
-- the only one of its workspace with its name, and the box does not own its credentials.
pub update_pipeline_atomic :
    {R : Type 0} (s : PipelineService R)
    → ((caller slug : Text) → Steady (commit_mirror s caller slug))
    → ((consume : Text → Text → M (World R) Text)
        → s.consume_grant ≡ some consume
        → (id slug : Text) → Steady (consume id slug))
    → (caller : Text) (now : ℕ) (clear : Bool) (given row : Pipeline) (w t : World R) (e : Error)
    → w.db.faults ≡ []
    → keep (has_id given.id) w.db.pipelines ≡ row ∷ []
    → has (λ r. not (has_id given.id r) && has_name row.customer_slug row.name r) w.db.pipelines
      ≡ false
    → row.credentials_external ≡ false
    → update_pipeline s caller now clear given w ≡ (err e, t)
    → t.db.pipelines ≡ w.db.pipelines
unfolding update_pipeline
update_pipeline_atomic {R = R} s commits consumes caller now clear given row w t e q k n x h =
    elim (Bool-cases (clear && not (is_empty_json given.source_credentials))) [
      | inl b ↦ ap (λ z. z.1.db.pipelines) (sym (rw b at h))
      | inr b ↦ save w t e q refl (rw b at h)
    ]
  where
    rows : List Pipeline
    rows = w.db.pipelines

    same_id : given.id ≡ row.id
    same_id = sym (find_only given.id row rows k).1

    save : FailsClean rows (
        of_result (s.workspace_by_user caller) >>= λ ws.
        owned_pipeline s ws.slug given.id >>= λ existing.
        let p : Pipeline = record given { customer_slug = ws.slug; updated_at = now } in
        of_result (s.validate_source_config p.source_type p.source_config) >>= λ _.
        resolve_update_credentials s ws.slug p existing clear >>= λ credentials.
        let stored : Pipeline = record p { source_credentials = credentials } in
        on_db (Postgres.update_pipeline stored) >>= λ _.
        finish_update s caller ws.slug stored existing
          (not (is_empty_json given.source_credentials) || clear))
    save = FailsClean-check (s.workspace_by_user caller) _ λ ws.
        FailsClean-owned s ws.slug given.id row rows _ k (
          FailsClean-check (s.validate_source_config given.source_type given.source_config) _ λ _.
            FailsClean-bind
              (resolve_update_credentials s ws.slug
                (record given { customer_slug = ws.slug; updated_at = now }) row clear)
              _
              (Steady-resolve s consumes ws.slug
                (record given { customer_slug = ws.slug; updated_at = now }) row clear)
              λ credentials.
                FailsClean-store s commits caller ws.slug
                  (record given {
                    customer_slug = ws.slug;
                    updated_at = now;
                    source_credentials = credentials;
                  })
                  row (not (is_empty_json given.source_credentials) || clear) rows same_id
                  (subst (λ id. keep (has_id id) rows ≡ row ∷ []) same_id k)
                  (subst
                    (λ id.
                      has (λ r. not (has_id id r) && has_name row.customer_slug row.name r) rows
                      ≡ false)
                    same_id n)
                  x)
