-- ===== src/Model.antt =====
-- The records of the workspace package: pipelines and their runs (workspace/pipeline.go), the tenant
-- (workspace/workspace.go), render bookkeeping (workspace/boxagekey.go), notifications.
use workspace_api.Base.{
  ℕ, Bool, true, Option, [], ◌∷◌, Text, codes, same, ◌||◌, if◌then◌else◌, ◌==◌, leb, ◌&&◌,
}

-- Times are numbers. `source_config` and `source_credentials` are the raw JSON.
pub record Pipeline : Type 0 where
  pub id : Text
  pub customer_slug : Text
  pub name : Text
  pub source_type : Text
  pub source_config : Text
  pub source_credentials : Text
  pub dataset_name : Text
  pub schedule : Text
  pub write_disposition : Text
  pub merge_strategy : Text
  pub enabled : Bool
  pub credentials_external : Bool
  pub created_at : ℕ
  pub updated_at : ℕ

pub record PipelineRun : Type 0 where
  pub id : Text
  pub pipeline_id : Text
  pub status : Text
  pub started_at : Option ℕ
  pub completed_at : Option ℕ
  pub rows_loaded : ℕ
  pub error_message : Text
  pub created_at : ℕ

pub record DefinitionRender : Type 0 where
  pub path : Text
  pub blob_sha : Text
  pub refused_blob_sha : Text

pub record CredentialRender : Type 0 where
  pub fingerprint : Text
  pub blob_sha : Text

-- `S3Config` (core/s3.go), as far as uploads need it.
pub record S3Config : Type 0 where
  pub bucket : Text
  pub key_prefix : Text
  pub endpoint : Text
  pub region : Text
  pub access_key_id : Text
  pub secret_access_key : Text

pub record Workspace : Type 0 where
  pub slug : Text
  pub on_vm : Bool
  pub rill_enabled : Bool
  pub customer_domain : Text
  pub casdoor_org : Text
  pub gitea_url : Text
  pub effective_s3 : S3Config

pub record CommitAuthor : Type 0 where
  pub name : Text
  pub email : Text

-- What a notification says is its kind here; the wording is not modelled.
pub data Notice : Type 0 where
  run_succeeded run_failed file_overwritten file_adopted file_refused credentials_handed_over :
      Notice
  reconnect : Notice

pub record Notification : Type 0 where
  pub customer_slug : Text
  pub notice : Notice
  pub pipeline_id : Text

pub record RepoFileEntry : Type 0 where
  pub path : Text
  pub sha : Text

-- The rendered YAML of a definition (`pipelineFile`). `source_config` is the object's canonical text,
-- empty if the object is.
pub record PipelineFile : Type 0 where
  pub id : Text
  pub name : Text
  pub source_type : Text
  pub source_config : Text
  pub dataset_name : Text
  pub schedule : Text
  pub write_disposition : Text
  pub merge_strategy : Text
  pub enabled : Bool

pub record DefinitionFile : Type 0 where
  pub pipeline_id : Text
  pub content : Text

pub record CredentialFile : Type 0 where
  pub pipeline_id : Text
  pub plaintext : Text
  pub external : Bool

-- `unicode.IsSpace`
unfoldable pub is_space : ℕ → Bool
is_space c =
    (leb 9 c && leb c 13)
    || c == 0x20
    || c == 0x85
    || c == 0xa0
    || c == 0x1680
    || (leb 0x2000 c && leb c 0x200a)
    || c == 0x2028
    || c == 0x2029
    || c == 0x202f
    || c == 0x205f
    || c == 0x3000

-- `strings.TrimSpace`
unfoldable pub trim_left : Text → Text
unfolding is_space
trim_left [] = []
trim_left (c ∷ s) = let rest = trim_left s in if is_space c then rest else c ∷ s

unfoldable pub trim_right : Text → Text
unfolding is_space
trim_right [] = []
trim_right (c ∷ s) = elim (trim_right s) [
  | [] ↦ if is_space c then [] else c ∷ []
  | d ∷ r ↦ c ∷ d ∷ r
]

unfoldable pub trim_space : Text → Text
unfolding trim_left trim_right
trim_space s = trim_right (trim_left s)

-- `isEmptyJSON` (workspace/pipeline_schema.go)
unfoldable pub is_empty_json : Text → Bool
unfolding trim_space same
is_empty_json [] = true
is_empty_json (c ∷ s) =
    let trimmed = trim_space (c ∷ s) in same trimmed (codes "{}") || same trimmed (codes "null")
