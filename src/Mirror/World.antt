-- ===== src/Mirror/World.antt =====
-- What the mirror works on: the box's Gitea behind `RepoFileClient` (workspace/boxrepo.go:118), the
-- workspace database, and the two maps that `PipelineMirror` itself keeps.
use workspace_api.Base.{ℕ, Bool, Option, List, Text, Map, Result, M}
use workspace_api.Model.{Pipeline, PipelineFile, Workspace, CommitAuthor, RepoFileEntry}
use workspace_api.Postgres.{Db}

-- The client of the `pipelines` repo. `R` is whatever state the box's Gitea has.
pub record RepoClient (R : Type 0) : Type 0 where
  pub list_tree : M R (List RepoFileEntry)
  pub get_contents : Text → M R (Text × Text)
  pub put_contents : Text → Text → Text → Option CommitAuthor → M R Text
  pub delete_contents : Text → Text → Option CommitAuthor → M R (Unit {0})

-- `draws` counts the random draws of age; `stale_oauth` and `import_skips` are the dedup maps.
pub record World (R : Type 0) : Type 0 where
  pub repo : R
  pub db : Db
  pub draws : ℕ
  pub stale_oauth : Map Text
  pub import_skips : Map Text

-- The fields of `PipelineMirror`, an unset optional one as `false` or `none`, and the code that it
-- calls: the JSON, YAML and age libraries, and what is not modelled of the package.
pub record Mirror (R : Type 0) : Type 0 where
  pub workspaces : Text → Result Workspace
  pub git_credentials : Option (Text → Result (Text × Text))
  pub new_client : Text → Text → Text → RepoClient R
  pub age_keys : Option (Text → Result Text)
  pub definition_renders : Bool
  pub credential_renders : Bool
  pub ownership : Bool
  pub notifications : Bool
  pub importer : Bool
  pub logger : Bool
  pub fingerprint : Text → Text → Text
  pub encrypt_age : ℕ → Text → Text → Result Text
  pub unmarshal_config : Text → Result Text
  pub marshal_config : Text → Result Text
  pub marshal_file : PipelineFile → Result Text
  pub unmarshal_file : Text → Result PipelineFile
  pub has_storage : Workspace → Bool
  pub resolve_file_upload : Workspace → Pipeline → Result (Option Pipeline)
  pub restore_file_upload : Pipeline → Pipeline
  pub validate_source_config : Text → Text → Bool
  pub validate_uuid : Text → Bool
  pub credential_plaintext : Pipeline → Text → Text
  pub stale_client_id : Pipeline → Text → Option Text

module _ {R A : Type 0} where
  unfoldable pub on_repo : M R A → M (World R) A
  on_repo op w = let r = op w.repo in (r.0, record w { repo = r.1 })

  unfoldable pub on_db : M Db A → M (World R) A
  on_db op w = let r = op w.db in (r.0, record w { db = r.1 })
