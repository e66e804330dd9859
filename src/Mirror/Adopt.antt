-- ===== src/Mirror/Adopt.antt =====
-- workspace/pipelinemirror_adopt.go: commits that the mirror did not make, taken into the database.
pub mod ReadOnly
pub mod Rows
pub mod Credentials
use workspace_api.Base.{
  ℕ, Bool, true, false, not, ◌&&◌, ◌||◌, Option, none, some, List, [], ◌∷◌, ◌++◌, Text, codes, same,
  is_some, Map, lookup, Outcome, Result, Error, ok, err, and_then, M, ◌>>=◌, ◌>>◌, pure, fail,
  attempt, best_effort, of_result, for_each, if◌then◌else◌, is_ok,
}
use workspace_api.Model.{
  Pipeline, PipelineFile, Workspace, DefinitionRender, CredentialRender, file_adopted, file_refused,
}
use workspace_api.Postgres.{
  list_pipelines, update_pipeline, get_definition_renders, get_credential_renders,
  mark_definition_refused,
}
use workspace_api.Mirror.Slug.{pipeline_file_slugs}
use workspace_api.Mirror.World.{RepoClient, World, Mirror, on_repo, on_db}
use workspace_api.Mirror.Files.{partition_pipeline_tree, credential_path, slug_of}
use workspace_api.Mirror.Converge.{record_definition_render, tell, mark_credentials_external}
use workspace_api.Mirror.Sync.{client_for}
use workspace_api.Mirror.Import.{AdoptState, pipeline_from_file, import_unrendered}

module _ {R : Type 0} (m : Mirror R) where
  -- `parseAdoptablePipeline`: the row to store, or the reason.
  unfoldable pub adoptable_row : Pipeline → Result Pipeline → Outcome Text Pipeline
  adoptable_row current (err e) = err (codes "the file's source_config cannot be read")
  adoptable_row current (ok p) =
      if not (m.validate_source_config p.source_type p.source_config)
      then err (codes "the file's source_config is not valid for this source type")
      else ok (record p {
        customer_slug = current.customer_slug;
        source_credentials = current.source_credentials;
        created_at = current.created_at;
        credentials_external = current.credentials_external;
      })

  unfoldable pub adoptable_file : Pipeline → Result PipelineFile → Outcome Text Pipeline
  unfolding adoptable_row pipeline_from_file same
  adoptable_file current (err e) = err (codes "the file is not valid YAML")
  adoptable_file current (ok f) =
      if not (same f.id current.id)
      then err (codes "the file's id field does not match this pipeline")
      else (if not (same f.source_type current.source_type)
          then err (codes "the file changes the pipeline's source type")
          else adoptable_row current (pipeline_from_file m current.id f))

  unfoldable pub parse_adoptable_pipeline : Text → Pipeline → Outcome Text Pipeline
  unfolding adoptable_file
  parse_adoptable_pipeline content current = adoptable_file current (m.unmarshal_file content)

  unfoldable pub refuse_adoption : Pipeline → Text → M (World R) (Unit {0})
  unfolding on_db mark_definition_refused tell
  refuse_adoption p tree_sha = attempt (on_db (mark_definition_refused p.id tree_sha)) >>= λ marked.
      if is_ok marked then tell m p.customer_slug file_refused p.id else pure tt

  unfoldable pub adopt_parsed :
      ℕ → Pipeline → Text → Text → Outcome Text Pipeline → M (World R) (Unit {0})
  unfolding refuse_adoption on_db update_pipeline record_definition_render tell
  adopt_parsed now p path tree_sha (err reason) = refuse_adoption p tree_sha
  adopt_parsed now p path tree_sha (ok adopted) =
      on_db (update_pipeline (record adopted { updated_at = now })) >>= λ _.
      record_definition_render m p.id path tree_sha >> tell m p.customer_slug file_adopted p.id

  module _ (client : RepoClient R) (now : ℕ) where
    -- `adoptDefinition`, with the bookkeeping row and then the blob sha in the tree.
    unfoldable pub adopt_in_tree :
        Pipeline → DefinitionRender → Option Text → M (World R) (Unit {0})
    unfolding on_repo parse_adoptable_pipeline adopt_parsed same
    adopt_in_tree p row none = pure tt
    adopt_in_tree p row (some tree_sha) =
        if same tree_sha row.blob_sha || same tree_sha row.refused_blob_sha
        then pure tt
        else (on_repo (client.get_contents row.path) >>= λ got.
            adopt_parsed now p row.path tree_sha (parse_adoptable_pipeline got.0 p))

    unfoldable pub adopt_tracked :
        Pipeline → Map Text → Option DefinitionRender → M (World R) (Unit {0})
    unfolding adopt_in_tree lookup
    adopt_tracked p yaml_tree none = pure tt
    adopt_tracked p yaml_tree (some row) = adopt_in_tree p row (lookup row.path yaml_tree)

    unfoldable pub adopt_definition :
        Map DefinitionRender → Map Text → Pipeline → M (World R) (Unit {0})
    unfolding adopt_tracked lookup
    adopt_definition renders yaml_tree p = adopt_tracked p yaml_tree (lookup p.id renders)

  unfoldable pub load_adopt_state : RepoClient R → Text → M (World R) AdoptState
  unfolding on_repo on_db partition_pipeline_tree list_pipelines get_definition_renders
  load_adopt_state client slug = on_repo client.list_tree >>= λ tree.
      let parts = partition_pipeline_tree tree ([], []) in
      on_db (list_pipelines slug) >>= λ pipelines.
      on_db (get_definition_renders slug) >>= λ renders.
      pure (record {
        pipelines = pipelines;
        renders = renders;
        yaml_tree = parts.0;
        age_tree = parts.1;
      })

  -- One pipeline of `flagForeignCredentialFiles`.
  unfoldable pub is_foreign : Option CredentialRender → Option Text → Bool
  unfolding same
  is_foreign none in_tree = false
  is_foreign (some row) none = false
  is_foreign (some row) (some tree_sha) = not (same tree_sha row.blob_sha)

  unfoldable pub flag_foreign :
      Map CredentialRender → Map Text → Map Text → Pipeline → M (World R) (Unit {0})
  unfolding is_foreign credential_path slug_of lookup mark_credentials_external
  flag_foreign renders slugs age_tree p =
      if not p.credentials_external
        && is_foreign (lookup p.id renders) (lookup (credential_path (slug_of slugs p.id)) age_tree)
      then mark_credentials_external m p.id
      else pure tt

  unfoldable pub flag_with :
      List Pipeline → Map Text → Result (Map CredentialRender) → M (World R) (Unit {0})
  unfolding for_each flag_foreign pipeline_file_slugs
  flag_with ps age_tree (err e) = pure tt
  flag_with ps age_tree (ok renders) =
      for_each ps (flag_foreign renders (pipeline_file_slugs ps) age_tree)

  unfoldable pub flag_foreign_credential_files :
      Text → List Pipeline → Map Text → M (World R) (Unit {0})
  unfolding flag_with on_db get_credential_renders
  flag_foreign_credential_files slug ps age_tree =
      if not m.credential_renders || not m.ownership
      then pure tt
      else attempt (on_db (get_credential_renders slug)) >>= flag_with ps age_tree

  unfoldable pub adopt_with : ℕ → Text → Option (RepoClient R × Workspace) → M (World R) (Unit {0})
  unfolding load_adopt_state import_unrendered for_each adopt_definition
      flag_foreign_credential_files
  adopt_with now slug none = pure tt
  adopt_with now slug (some (client, ws)) =
      if not m.definition_renders
      then pure tt
      else (load_adopt_state client slug >>= λ st.
          import_unrendered m client now slug st
          >> for_each st.pipelines (adopt_definition client now st.renders st.yaml_tree)
          >> flag_foreign_credential_files slug st.pipelines st.age_tree)

  unfoldable pub adopt_customer : ℕ → Text → M (World R) (Unit {0})
  unfolding client_for adopt_with
  adopt_customer now slug = of_result (client_for m slug) >>= adopt_with now slug

  -- One pass of `AdoptSweeper` over the workspaces (the pipelines plane).
  unfoldable pub sweep : ℕ → Result (List Text) → M (World R) (Unit {0})
  unfolding for_each adopt_customer
  sweep now (err e) = pure tt
  sweep now (ok slugs) = for_each slugs λ slug. best_effort (adopt_customer now slug)
