-- ===== src/Mirror/Import.antt =====
-- workspace/pipelinemirror_import.go: a row for each definition file that the database does not track.
use workspace_api.Base.{
  ℕ, Bool, true, false, not, ◌||◌, List, [], ◌∷◌, ◌++◌, Text, codes, is_empty, is_some, mem,
  trim_suffix, or_else, Map, lookup, Outcome, Result, ok, err, pipeline_already_exists, and_then, M,
  ◌>>=◌, pure, fail, attempt, if◌then◌else◌,
}
use workspace_api.Model.{Pipeline, PipelineFile, DefinitionRender}
use workspace_api.Postgres.{import_pipeline}
use workspace_api.Mirror.World.{RepoClient, World, Mirror, on_repo, on_db}
use workspace_api.Mirror.Files.{yaml_suffix, age_suffix, sorted_paths, first_report}
use workspace_api.Mirror.Converge.{record_definition_render}

-- `importedSet`: the ids and the names that are taken.
pub record ImportedSet : Type 0 where
  pub ids : List Text
  pub names : List Text

unfoldable pub add : Text → Text → ImportedSet → ImportedSet
add id name taken = record { ids = id ∷ taken.ids; names = name ∷ taken.names }

unfoldable pub all_taken : List Pipeline → ImportedSet
unfolding add
all_taken [] = record { ids = []; names = [] }
all_taken (p ∷ ps) = add p.id p.name (all_taken ps)

-- `trackedPaths`
unfoldable pub tracked_paths : Map DefinitionRender → List Text
tracked_paths [] = []
tracked_paths ((id, row) ∷ rows) = row.path ∷ tracked_paths rows

-- `credentialPathFor`
unfoldable pub credential_path_for : Text → Text
unfolding trim_suffix
credential_path_for path = trim_suffix yaml_suffix path ++ age_suffix

-- `pipelineAdoptState`
pub record AdoptState : Type 0 where
  pub pipelines : List Pipeline
  pub renders : Map DefinitionRender
  pub yaml_tree : Map Text
  pub age_tree : Map Text

module _ {R : Type 0} (m : Mirror R) where
  -- `pipelineFromFile`: what the file does not have is a zero value.
  unfoldable pub pipeline_from_file : Text → PipelineFile → Result Pipeline
  pipeline_from_file id f =
      and_then (if is_empty f.source_config then ok [] else m.marshal_config f.source_config) λ raw.
        ok (record {
          id = id;
          customer_slug = [];
          name = f.name;
          source_type = f.source_type;
          source_config = raw;
          source_credentials = [];
          dataset_name = f.dataset_name;
          schedule = f.schedule;
          write_disposition = f.write_disposition;
          merge_strategy = f.merge_strategy;
          enabled = f.enabled;
          credentials_external = false;
          created_at = 0;
          updated_at = 0;
        })

  -- `parseImportablePipeline`: the row to create, or the reason, empty if there is nothing to do.
  unfoldable pub importable_row : ℕ → Text → Result Pipeline → Outcome Text Pipeline
  importable_row now slug (err e) = err (codes "the file's source_config cannot be read")
  importable_row now slug (ok parsed) =
      let p = m.restore_file_upload parsed in
      if not (m.validate_source_config p.source_type p.source_config)
      then err (codes "the file's source_config is not valid for its source type")
      else ok (record p { customer_slug = slug; created_at = now; updated_at = now })

  unfoldable pub importable_file :
      ℕ → Text → ImportedSet → Result PipelineFile → Outcome Text Pipeline
  unfolding pipeline_from_file importable_row mem
  importable_file now slug taken (err e) = err (codes "the file is not valid YAML")
  importable_file now slug taken (ok f) =
      if not (m.validate_uuid f.id)
      then err (codes "the file has no valid id")
      else (if mem f.id taken.ids
          then err []
          else (if is_empty f.name
              then err (codes "the file has no name")
              else (if mem f.name taken.names
                  then err (codes "another pipeline already uses that name")
                  else importable_row now slug (pipeline_from_file f.id f))))

  unfoldable pub parse_importable_pipeline : ℕ → Text → Text → ImportedSet → Outcome Text Pipeline
  unfolding importable_file
  parse_importable_pipeline now content slug taken =
      importable_file now slug taken (m.unmarshal_file content)

  -- `reportImportSkip`: a log line, once for a path and a blob sha.
  unfoldable pub mark_reported : Text → Text → M (World R) (Unit {0})
  unfolding first_report
  mark_reported path blob_sha w =
      (ok tt, record w { import_skips = (first_report m path blob_sha w.import_skips).1 })

  unfoldable pub report_import_skip : Text → Text → Text → M (World R) (Unit {0})
  unfolding mark_reported
  report_import_skip path blob_sha reason =
      if is_empty reason || not m.logger then pure tt else mark_reported path blob_sha

  -- After `ImportPipeline`.
  unfoldable pub imported :
      Text → Text → Pipeline → ImportedSet → Result Pipeline → M (World R) (Bool × ImportedSet)
  unfolding report_import_skip record_definition_render add
  imported path blob_sha p taken (ok row) =
      record_definition_render m p.id path blob_sha >>= λ _. pure (true, add p.id p.name taken)
  imported path blob_sha p taken (err pipeline_already_exists) =
      report_import_skip path blob_sha (codes "a pipeline with that id or name already exists")
      >>= λ _. pure (false, taken)
  imported path blob_sha p taken (err e) = fail e

  unfoldable pub import_parsed :
      AdoptState
      → Text
      → Text
      → ImportedSet
      → Outcome Text Pipeline
      → M (World R) (Bool × ImportedSet)
  unfolding report_import_skip imported on_db import_pipeline credential_path_for lookup
  import_parsed st path blob_sha taken (err reason) =
      report_import_skip path blob_sha reason >>= λ _. pure (false, taken)
  import_parsed st path blob_sha taken (ok parsed) =
      let external = is_some (lookup (credential_path_for path) st.age_tree) in
      let p = record parsed { credentials_external = external } in
      attempt (on_db (import_pipeline p)) >>= imported path blob_sha p taken

  module _ (client : RepoClient R) (now : ℕ) (slug : Text) where
    unfoldable pub import_file : AdoptState → ImportedSet → Text → M (World R) (Bool × ImportedSet)
    unfolding on_repo parse_importable_pipeline import_parsed lookup
    import_file st taken path = on_repo (client.get_contents path) >>= λ got.
        import_parsed st path (or_else (lookup path st.yaml_tree) []) taken
          (parse_importable_pipeline now got.0 slug taken)

    -- The loop of `importUnrendered`.
    unfoldable pub import_paths :
        AdoptState → List Text → List Text → ImportedSet → M (World R) (Unit {0})
    unfolding import_file mem
    import_paths st tracked [] taken = pure tt
    import_paths st tracked (path ∷ paths) taken =
        let skip = import_paths st tracked paths taken in
        let rest = import_paths st tracked paths in
        if mem path tracked then skip else (import_file st taken path >>= λ r. rest r.1)

    unfoldable pub import_unrendered : AdoptState → M (World R) (Unit {0})
    unfolding tracked_paths all_taken import_paths sorted_paths
    import_unrendered st =
        if m.importer
        then import_paths st (tracked_paths st.renders) (sorted_paths st.yaml_tree)
            (all_taken st.pipelines)
        else pure tt
