-- ===== src/Mirror/Sync.antt =====
-- workspace/pipelinemirror.go: `SyncCustomer` and what it reads before it converges.
pub mod Paths
pub mod Rendered
pub mod Content
use workspace_api.Base.{
  Bool, true, false, not, ◌&&◌, Option, none, some, List, [], ◌∷◌, ◌++◌, Text, codes, same,
  is_empty, trim_prefix, has, Map, lookup, insert, Result, Error, ok, err, box_credential_not_found,
  repo_file_changed, and_then, M, ◌>>=◌, ◌>>◌, pure, fail, attempt, of_result, if◌then◌else◌,
}
use workspace_api.Model.{
  Pipeline, Workspace, CommitAuthor, DefinitionFile, DefinitionRender, CredentialFile,
  CredentialRender,
}
use workspace_api.Postgres.{
  list_pipelines, list_credentials, get_credential_renders, get_definition_renders,
}
use workspace_api.Mirror.Slug.{pipeline_file_slugs}
use workspace_api.Mirror.World.{RepoClient, World, Mirror, on_db}
use workspace_api.Mirror.Files.{render_pipeline_files, build_credential_files}
use workspace_api.Mirror.Converge.{converge}

-- `Workspace.BareDomain` and `BoxGiteaURL` (workspace/workspace.go).
unfoldable pub bare_domain : Workspace → Text
unfolding trim_prefix
bare_domain ws = trim_prefix (codes "*.") ws.customer_domain

unfoldable pub box_gitea_url : Workspace → Text
unfolding bare_domain
box_gitea_url ws =
    if is_empty ws.gitea_url then codes "https://git." ++ bare_domain ws else ws.gitea_url

abbrev pub file_upload : Text
file_upload = codes "file_upload"

-- `maps.Copy`
unfoldable pub copied : {V : Type 0} → Map V → Map V → Map V
unfolding insert
copied into [] = into
copied into ((k, v) ∷ from) = copied (insert k v into) from

module _ {R : Type 0} (m : Mirror R) where
  -- `boxMirrorClientFor`: `none` is a customer out of scope.
  unfoldable pub client_with :
      Workspace → Result (Text × Text) → Result (Option (RepoClient R × Workspace))
  unfolding box_gitea_url
  client_with ws (ok (username, token)) =
      ok (some (m.new_client (box_gitea_url ws) username token, ws))
  client_with ws (err box_credential_not_found) = ok none
  client_with ws (err e) = err e

  unfoldable pub client_from :
      Option (Text → Result (Text × Text)) → Text → Result (Option (RepoClient R × Workspace))
  unfolding client_with trim_prefix
  client_from none slug = ok none
  client_from (some credentials) slug = and_then (m.workspaces slug) λ ws.
      if not ws.on_vm
      then ok none
      else (if is_empty (trim_prefix (codes "*.") ws.customer_domain)
          then ok none
          else client_with ws (credentials ws.slug))

  unfoldable pub client_for : Text → Result (Option (RepoClient R × Workspace))
  unfolding client_from
  client_for slug = client_from m.git_credentials slug

  -- `resolveFileUploads`: the pipelines as the worker takes them, and the credentials that this adds.
  unfoldable pub resolved_upload :
      Text → Result (Option Pipeline) → List Pipeline × Map Text → List Pipeline × Map Text
  unfolding insert
  resolved_upload id (ok (some p)) (rest, creds) = (p ∷ rest, insert id p.source_credentials creds)
  resolved_upload id (ok none) others = others
  resolved_upload id (err e) others = others

  unfoldable pub resolve_each : Workspace → Bool → List Pipeline → List Pipeline × Map Text
  unfolding resolved_upload same
  resolve_each ws storage_ok [] = ([], [])
  resolve_each ws storage_ok (p ∷ ps) =
      let rest = resolve_each ws storage_ok ps in
      if not (same p.source_type file_upload)
      then (p ∷ rest.0, rest.1)
      else if not storage_ok
      then rest
      else resolved_upload p.id (m.resolve_file_upload ws p) rest

  unfoldable pub resolve_file_uploads : Workspace → List Pipeline → List Pipeline × Map Text
  unfolding resolve_each has same
  resolve_file_uploads ws ps =
      resolve_each ws (has (λ p. same p.source_type file_upload) ps && m.has_storage ws) ps

  -- `desiredCredentialFiles`: the files, the box's age key and the bookkeeping rows.
  abbrev pub DesiredCredentials : Type 0
  DesiredCredentials = Option (Map CredentialFile) × Text × Map CredentialRender

  unfoldable pub credential_files_for :
      Text → List Pipeline → Map Text → Map Text → Result Text → M (World R) DesiredCredentials
  unfolding on_db list_credentials get_credential_renders copied build_credential_files
  credential_files_for slug ps slugs extra (err box_credential_not_found) = pure (some [], [], [])
  credential_files_for slug ps slugs extra (err e) = fail e
  credential_files_for slug ps slugs extra (ok key) =
      on_db (list_credentials slug) >>= λ credentials.
      on_db (get_credential_renders slug) >>= λ renders.
      build_credential_files m slug slugs (copied credentials extra) ps [] >>= λ files.
      pure (some files, key, renders)

  unfoldable pub desired_credential_files :
      Text
      → List Pipeline
      → Map Text
      → Map Text
      → Option (Text → Result Text)
      → M (World R) DesiredCredentials
  unfolding credential_files_for
  desired_credential_files slug ps slugs extra none = pure (none, [], [])
  desired_credential_files slug ps slugs extra (some age_key) =
      credential_files_for slug ps slugs extra (age_key slug)

  unfoldable pub definition_render_rows : Text → M (World R) (Map DefinitionRender)
  unfolding on_db get_definition_renders
  definition_render_rows slug =
      if m.definition_renders then on_db (get_definition_renders slug) else pure []

  -- One retry with a fresh tree after a conflicting commit.
  unfoldable pub after_first : M (World R) (Unit {0}) → Result (Unit {0}) → M (World R) (Unit {0})
  after_first again (ok u) = pure tt
  after_first again (err repo_file_changed) = again
  after_first again (err e) = fail e

  unfoldable pub with_retry : M (World R) (Unit {0}) → M (World R) (Unit {0})
  unfolding after_first
  with_retry once = attempt once >>= after_first once

  unfoldable pub sync_with :
      Text → Option CommitAuthor → Option (RepoClient R × Workspace) → M (World R) (Unit {0})
  unfolding on_db list_pipelines resolve_file_uploads pipeline_file_slugs render_pipeline_files
      desired_credential_files definition_render_rows with_retry converge
  sync_with slug author none = pure tt
  sync_with slug author (some (client, ws)) = on_db (list_pipelines slug) >>= λ rows.
      let resolved = resolve_file_uploads ws rows in
      let slugs = pipeline_file_slugs resolved.0 in
      of_result (render_pipeline_files m resolved.0 slugs []) >>= λ desired.
      desired_credential_files slug resolved.0 slugs resolved.1 m.age_keys >>= λ wanted.
      definition_render_rows slug >>= λ def_renders.
      with_retry (converge m client author slug desired wanted.0 wanted.1 wanted.2 def_renders)

  unfoldable pub sync_customer : Text → Option CommitAuthor → M (World R) (Unit {0})
  unfolding client_for sync_with
  sync_customer slug author = of_result (client_for slug) >>= sync_with slug author
