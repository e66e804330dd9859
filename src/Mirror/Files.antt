-- ===== src/Mirror/Files.antt =====
-- workspace/pipelinemirror.go: the files that the repo should hold.
use workspace_api.Base.{
  Bool, true, false, not, ◌&&◌, Option, none, some, List, [], ◌∷◌, ◌++◌, Text, codes, same,
  has_prefix, has_suffix, Map, lookup, insert, keys, sort, Result, ok, and_then, if◌then◌else◌,
  or_else, M, pure, ◌>>◌, best_effort,
}
use workspace_api.Model.{
  Pipeline, DefinitionFile, CredentialFile, RepoFileEntry, reconnect, is_empty_json,
}
use workspace_api.Mirror.World.{World, Mirror, on_db}
use workspace_api.Postgres.{notify}

-- `pipelineFileHeader`
abbrev pub pipeline_file_header : Text
pipeline_file_header =
    codes "# Rendered by the FairTier Console — a Console save overwrites this file.\n"

abbrev pub yaml_suffix : Text
yaml_suffix = codes ".yaml"

abbrev pub age_suffix : Text
age_suffix = codes ".credentials.age"

unfoldable pub slug_of : Map Text → Text → Text
slug_of slugs id = or_else (lookup id slugs) []

unfoldable pub definition_path : Text → Text
definition_path slug = codes "pipelines/" ++ (slug ++ yaml_suffix)

unfoldable pub credential_path : Text → Text
credential_path slug = codes "pipelines/" ++ (slug ++ age_suffix)

-- `sortedPaths`
unfoldable pub sorted_paths : {V : Type 0} → Map V → List Text
unfolding keys sort
sorted_paths m = sort (keys m)

-- The two maps of `partitionPipelineTree`, from path to blob sha.
abbrev pub is_credential_path : Text → Bool
is_credential_path path = has_prefix (codes "pipelines/") path && has_suffix age_suffix path

abbrev pub is_definition_path : Text → Bool
is_definition_path path =
    has_prefix (codes "pipelines/") path
    && (not (has_suffix age_suffix path) && has_suffix yaml_suffix path)

unfoldable pub partition_pipeline_tree :
    List RepoFileEntry → Map Text × Map Text → Map Text × Map Text
unfolding insert has_prefix has_suffix
partition_pipeline_tree [] (yaml, age) = (yaml, age)
partition_pipeline_tree (e ∷ tree) (yaml, age) =
    let skipped = partition_pipeline_tree tree (yaml, age) in
    let as_age = partition_pipeline_tree tree (yaml, insert e.path e.sha age) in
    let as_yaml = partition_pipeline_tree tree (insert e.path e.sha yaml, age) in
    if not (has_prefix (codes "pipelines/") e.path)
    then skipped
    else (if has_suffix age_suffix e.path
        then as_age
        else if has_suffix yaml_suffix e.path
        then as_yaml
        else skipped)

module _ {R : Type 0} (m : Mirror R) where
  -- `renderPipelineFile`
  unfoldable pub render_pipeline_file : Pipeline → Result Text
  unfolding is_empty_json
  render_pipeline_file p =
      let config =
        if is_empty_json p.source_config then ok [] else m.unmarshal_config p.source_config in
      and_then config λ source_config.
        and_then
          (m.marshal_file (record {
            id = p.id;
            name = p.name;
            source_type = p.source_type;
            source_config = source_config;
            dataset_name = p.dataset_name;
            schedule = p.schedule;
            write_disposition = p.write_disposition;
            merge_strategy = p.merge_strategy;
            enabled = p.enabled;
          }))
          λ out. ok (pipeline_file_header ++ out)

  -- `renderPipelineFiles`, the map so far as an argument.
  unfoldable pub render_pipeline_files :
      List Pipeline → Map Text → Map DefinitionFile → Result (Map DefinitionFile)
  unfolding render_pipeline_file slug_of definition_path insert
  render_pipeline_files [] slugs files = ok files
  render_pipeline_files (p ∷ ps) slugs files = and_then (render_pipeline_file p) λ content.
      render_pipeline_files ps slugs (
        insert (definition_path (slug_of slugs p.id))
          (record { pipeline_id = p.id; content = content }) files)

  -- `importSkips.firstReport` on the map of stale OAuth clients.
  unfoldable pub first_report : Text → Text → Map Text → Bool × Map Text
  unfolding lookup insert same
  first_report key value seen =
      if same (or_else (lookup key seen) []) value
      then (false, seen)
      else (true, insert key value seen)

  -- `notifyStaleOAuthCredential`: told once for each client that the pipeline is stale against.
  unfoldable pub notify_stale_client : Text → Pipeline → Option Text → M (World R) (Unit {0})
  unfolding first_report on_db notify
  notify_stale_client slug p none = pure tt
  notify_stale_client slug p (some client_id) = λ w.
      let reported = first_report p.id client_id w.stale_oauth in
      let w1 = record w { stale_oauth = reported.1 } in
      if reported.0
      then best_effort
          (on_db (notify (record { customer_slug = slug; notice = reconnect; pipeline_id = p.id })))
          w1
      else (ok tt, w1)

  unfoldable pub notify_stale_oauth_credential : Text → Pipeline → Text → M (World R) (Unit {0})
  unfolding notify_stale_client
  notify_stale_oauth_credential slug p raw =
      if m.notifications then notify_stale_client slug p (m.stale_client_id p raw) else pure tt

  -- `buildCredentialFiles`: one file for a pipeline with credentials, and one that is kept and not
  -- written for a pipeline whose credentials the box owns.
  unfoldable pub build_credential_files :
      Text
      → Map Text
      → Map Text
      → List Pipeline
      → Map CredentialFile
      → M (World R) (Map CredentialFile)
  unfolding slug_of credential_path insert is_empty_json notify_stale_oauth_credential lookup
  build_credential_files slug slugs credentials [] files = pure files
  build_credential_files slug slugs credentials (p ∷ ps) files =
      let path = credential_path (slug_of slugs p.id) in
      let raw = or_else (lookup p.id credentials) [] in
      let kept : CredentialFile = record { pipeline_id = p.id; plaintext = []; external = true } in
      let written : CredentialFile = record {
        pipeline_id = p.id;
        plaintext = m.credential_plaintext p raw;
        external = false;
      } in
      let with_kept = build_credential_files slug slugs credentials ps (insert path kept files) in
      let without = build_credential_files slug slugs credentials ps files in
      let with_written =
        build_credential_files slug slugs credentials ps (insert path written files) in
      if p.credentials_external
      then with_kept
      else (if is_empty_json raw
          then without
          else (notify_stale_oauth_credential slug p raw >> with_written))
