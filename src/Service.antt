-- ===== src/Service.antt =====
-- workspace/pipeline.go: the service behind the Console and the worker. A save writes the row and then
-- commits the repo; a commit that fails rolls the row back.
pub mod Tenancy
pub mod Runs
pub mod Trigger
pub mod Compensation
pub mod Grants
pub mod Atomic
pub mod Updates
pub mod Deletes
use workspace_api.Base.{
  ℕ, Bool, true, false, not, ◌&&◌, ◌||◌, Option, none, some, List, [], ◌∷◌, Text, codes, same,
  is_empty, Result, Error, ok, err, pipeline_not_found, run_not_found, box_repo_unavailable,
  invalid_source_config, invalid_source_credentials, grant_not_found, connection_not_found, M,
  ◌>>=◌, ◌>>◌, pure, fail, attempt, best_effort, of_result, if◌then◌else◌, is_ok,
}
use workspace_api.Model.{
  Pipeline, PipelineRun, Workspace, CommitAuthor, Notice, run_succeeded, run_failed, is_empty_json,
}
use workspace_api.Postgres
use workspace_api.Postgres.{
  create_run, get_pending_run, update_run, set_credentials_external, delete_credential_render,
  notify,
}
use workspace_api.Mirror.World.{World, on_db}

-- The fields of `PipelineService`, an unset optional one as `none` or `false`; what reads JSON, the
-- validators, the grants and the connections are code that is called. A connection is its
-- `HasGoogleScope`.
pub record PipelineService (R : Type 0) : Type 0 where
  pub workspace_by_user : Text → Result Workspace
  pub mirror : Option (Text → Option CommitAuthor → M (World R) (Unit {0}))
  pub commit_author : Text → Option CommitAuthor
  pub version_at : Option (Text → Text → Text → M (World R) Pipeline)
  pub ownership : Bool
  pub notifications : Bool
  pub alerts : Bool
  pub google_connection_ref : Text → Text → Option Text
  pub google_grant_id : Text → Text → Option Text
  pub google_scope_required : Text → Text
  pub get_connection : Option (Text → Text → Result (Text → Bool))
  pub consume_grant : Option (Text → Text → M (World R) Text)
  pub stored_google_credentials : Text → Text → Text → Result Text
  pub validate_source_config : Text → Text → Result (Unit {0})
  pub validate_source_credentials : Text → Text → Text → Result (Unit {0})

module _ {R : Type 0} (s : PipelineService R) where
  unfoldable pub commit_with :
      Option (Text → Option CommitAuthor → M (World R) (Unit {0}))
      → Text
      → Text
      → M (World R) (Unit {0})
  commit_with none caller slug = pure tt
  commit_with (some sync) caller slug = sync slug (s.commit_author caller)

  unfoldable pub commit_mirror : Text → Text → M (World R) (Unit {0})
  unfolding commit_with
  commit_mirror caller slug = commit_with s.mirror caller slug

  -- `commitOrCompensate`: the error of the commit is returned, one of the roll-back is logged.
  unfoldable pub or_compensate : M (World R) (Unit {0}) → Result (Unit {0}) → M (World R) (Unit {0})
  or_compensate compensate (ok u) = pure tt
  or_compensate compensate (err e) = best_effort compensate >> fail e

  unfoldable pub commit_or_compensate :
      Text → Text → M (World R) (Unit {0}) → M (World R) (Unit {0})
  unfolding commit_mirror or_compensate
  commit_or_compensate caller slug compensate =
      attempt (commit_mirror caller slug) >>= or_compensate compensate

  -- `checkGoogleConnection`
  unfoldable pub check_scope : Text → Result (Text → Bool) → Result (Unit {0})
  check_scope source_type (ok has_scope) =
      let scope = s.google_scope_required source_type in
      if not (is_empty scope) && not (has_scope scope)
      then err invalid_source_credentials
      else ok tt
  check_scope source_type (err connection_not_found) = err invalid_source_credentials
  check_scope source_type (err e) = err e

  unfoldable pub check_google_connection :
      Option (Text → Text → Result (Text → Bool)) → Text → Text → Text → Result (Unit {0})
  unfolding check_scope
  check_google_connection none slug source_type id = err invalid_source_credentials
  check_google_connection (some get) slug source_type id = check_scope source_type (get slug id)

  -- `swapGoogleOAuthGrant`: the credentials to store.
  unfoldable pub consumed : Pipeline → Result Text → M (World R) Text
  consumed p (ok grant) =
      of_result (s.stored_google_credentials p.source_type p.source_credentials grant)
  consumed p (err grant_not_found) = fail invalid_source_credentials
  consumed p (err e) = fail e

  unfoldable pub swap_grant :
      Option (Text → Text → M (World R) Text) → Text → Pipeline → Option Text → M (World R) Text
  unfolding consumed
  swap_grant consume slug p none = pure p.source_credentials
  swap_grant none slug p (some id) = fail invalid_source_credentials
  swap_grant (some consume) slug p (some id) = attempt (consume id slug) >>= consumed p

  unfoldable pub swap_reference : Text → Pipeline → Option Text → M (World R) Text
  unfolding check_google_connection swap_grant
  swap_reference slug p (some id) =
      of_result (check_google_connection s.get_connection slug p.source_type id) >>= λ _.
      pure p.source_credentials
  swap_reference slug p none =
      swap_grant s.consume_grant slug p (s.google_grant_id p.source_type p.source_credentials)

  unfoldable pub swap_google_oauth_grant : Text → Pipeline → M (World R) Text
  unfolding swap_reference
  swap_google_oauth_grant slug p =
      swap_reference slug p (s.google_connection_ref p.source_type p.source_credentials)

  -- `CreatePipeline`; `fresh` is the id that the database draws.
  unfoldable pub create_pipeline : Text → ℕ → Text → Pipeline → M (World R) Pipeline
  unfolding swap_google_oauth_grant on_db commit_or_compensate Postgres.create_pipeline
      Postgres.delete_pipeline
  create_pipeline caller now fresh given = of_result (s.workspace_by_user caller) >>= λ ws.
      let p : Pipeline = record given {
        customer_slug = ws.slug;
        created_at = now;
        updated_at = now;
        write_disposition =
            if is_empty given.write_disposition then codes "append" else given.write_disposition;
        enabled = true;
      } in
      of_result (s.validate_source_config p.source_type p.source_config) >>= λ _.
      of_result (s.validate_source_credentials p.source_type p.source_config p.source_credentials)
      >>= λ _. swap_google_oauth_grant ws.slug p >>= λ credentials.
          on_db (Postgres.create_pipeline fresh (record p { source_credentials = credentials }))
          >>= λ row.
              commit_or_compensate caller ws.slug (on_db (Postgres.delete_pipeline row.id)) >>= λ _.
              pure row

  -- The check that every handler makes: the row, if it is of the caller's workspace.
  unfoldable pub owned_pipeline : Text → Text → M (World R) Pipeline
  unfolding on_db Postgres.get_pipeline same
  owned_pipeline slug id = on_db (Postgres.get_pipeline id) >>= λ row.
      if not (same row.customer_slug slug) then fail pipeline_not_found else pure row

  unfoldable pub reclaim_credentials : Text → M (World R) (Unit {0})
  unfolding on_db set_credentials_external delete_credential_render
  reclaim_credentials id =
      if not s.ownership
      then pure tt
      else (attempt (on_db (set_credentials_external id false)) >>= λ cleared.
          if is_ok cleared then best_effort (on_db (delete_credential_render id)) else pure tt)

  -- `resolveUpdateCredentials`
  unfoldable pub resolve_update_credentials : Text → Pipeline → Pipeline → Bool → M (World R) Text
  unfolding swap_google_oauth_grant is_empty_json
  resolve_update_credentials slug p existing clear =
      if clear
      then pure []
      else (if is_empty_json p.source_credentials
          then pure existing.source_credentials
          else (of_result
                (s.validate_source_credentials p.source_type p.source_config p.source_credentials)
              >>= λ _. swap_google_oauth_grant slug p))

  unfoldable pub finish_update : Text → Text → Pipeline → Pipeline → Bool → M (World R) Pipeline
  unfolding reclaim_credentials commit_or_compensate on_db Postgres.update_pipeline
  finish_update caller slug p existing touched =
      (if touched && existing.credentials_external then reclaim_credentials p.id else pure tt)
      >> commit_or_compensate caller slug (on_db (Postgres.update_pipeline existing))
      >>= λ _. pure p

  unfoldable pub update_pipeline : Text → ℕ → Bool → Pipeline → M (World R) Pipeline
  unfolding owned_pipeline resolve_update_credentials finish_update on_db Postgres.update_pipeline
      is_empty_json
  update_pipeline caller now clear given =
      if clear && not (is_empty_json given.source_credentials)
      then fail invalid_source_credentials
      else (of_result (s.workspace_by_user caller) >>= λ ws.
          owned_pipeline ws.slug given.id >>= λ existing.
          let p : Pipeline = record given { customer_slug = ws.slug; updated_at = now } in
          of_result (s.validate_source_config p.source_type p.source_config) >>= λ _.
          resolve_update_credentials ws.slug p existing clear >>= λ credentials.
          let stored : Pipeline = record p { source_credentials = credentials } in
          on_db (Postgres.update_pipeline stored) >>= λ _.
          finish_update caller ws.slug stored existing
            (not (is_empty_json given.source_credentials) || clear))

  unfoldable pub delete_pipeline : Text → Text → Text → M (World R) (Unit {0})
  unfolding owned_pipeline on_db commit_or_compensate Postgres.create_pipeline
      Postgres.delete_pipeline
  delete_pipeline caller fresh id = of_result (s.workspace_by_user caller) >>= λ ws.
      owned_pipeline ws.slug id >>= λ existing. on_db (Postgres.delete_pipeline id) >>= λ _.
      commit_or_compensate caller ws.slug
        (on_db (Postgres.create_pipeline fresh existing) >>= λ _. pure tt)

  unfoldable pub restore_with :
      Option (Text → Text → Text → M (World R) Pipeline)
      → Text
      → ℕ
      → Text
      → Text
      → M (World R) Pipeline
  unfolding owned_pipeline update_pipeline same
  restore_with none caller now id sha = fail box_repo_unavailable
  restore_with (some version_at) caller now id sha =
      of_result (s.workspace_by_user caller) >>= λ ws. owned_pipeline ws.slug id >>= λ current.
      version_at ws.slug id sha >>= λ restored.
      if not (same restored.source_type current.source_type)
      then fail invalid_source_config
      else update_pipeline caller now false restored

  unfoldable pub restore_pipeline_version : Text → ℕ → Text → Text → M (World R) Pipeline
  unfolding restore_with
  restore_pipeline_version caller now id sha = restore_with s.version_at caller now id sha
