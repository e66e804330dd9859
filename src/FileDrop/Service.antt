-- ===== src/FileDrop/Service.antt =====
-- workspace/filedrop.go: FileDropService, over the object store and the database.
use workspace_api.Base.{
  ℕ, ltb, ◌==◌, Bool, false, not, ◌||◌, Option, none, some, List, [], ◌∷◌, ◌++◌, Text, codes, same,
  keep, map, is_empty, Result, ok, err, M, ◌>>=◌, pure, fail, attempt, of_result,
  pipeline_not_found, invalid_upload_file, not_file_upload_pipeline, customer_not_provisioned,
  if◌then◌else◌,
}
use workspace_api.Model.{Pipeline, Workspace, S3Config, is_empty_json}
use workspace_api.Postgres
use workspace_api.Postgres.{Db}
use workspace_api.Schema.Types.{UploadedFile, FilesystemCreds}
use workspace_api.Schema.Sources.{is_valid_upload_filename}
use workspace_api.FileDrop.Names.{upload_table_name, file_drop_key, file_drop_bucket_url}

pub record ObjectStore (O : Type 0) : Type 0 where
  pub put : S3Config → Text → ℕ → Text → M O (Unit {0})
  pub delete_object : S3Config → Text → M O (Unit {0})
  pub head : S3Config → Text → M O Bool

-- What the service works on, and its fields: JSON of the files in a source_config, and of the source
-- and the credentials that the worker is given. A `max_bytes` of 0 is unset.
pub record Bucket (O : Type 0) : Type 0 where
  pub objects : O
  pub db : Db

pub record FileDropService (O : Type 0) : Type 0 where
  pub workspace_by_user : Text → Result Workspace
  pub store : ObjectStore O
  pub max_bytes : ℕ
  pub unmarshal_files : Text → Result (List UploadedFile)
  pub marshal_files : List UploadedFile → Result Text
  pub marshal_source : Text → List (Text × Text) → Result Text
  pub marshal_creds : FilesystemCreds → Result Text

module _ {O A : Type 0} where
  unfoldable pub on_store : M O A → M (Bucket O) A
  on_store op w = let r = op w.objects in (r.0, record w { objects = r.1 })

  unfoldable pub on_rows : M Db A → M (Bucket O) A
  on_rows op w = let r = op w.db in (r.0, record w { db = r.1 })

abbrev pub default_upload_max_bytes : ℕ
default_upload_max_bytes = 536870912

-- `uploadStorage`
abbrev pub upload_storage : Workspace → Result S3Config
upload_storage ws =
    let s3 = ws.effective_s3 in
    if is_empty s3.bucket
      || is_empty s3.access_key_id
      || is_empty s3.secret_access_key
      || is_empty s3.endpoint
    then err customer_not_provisioned
    else ok s3

module _ {O : Type 0} (s : FileDropService O) where
  abbrev pub upload_limit : ℕ
  upload_limit = if ltb 0 s.max_bytes then s.max_bytes else default_upload_max_bytes

  abbrev pub parse_file_upload_config : Text → Result (List UploadedFile)
  parse_file_upload_config raw = if is_empty_json raw then ok [] else s.unmarshal_files raw

  unfoldable pub owned_file_upload_pipeline : Text → Text → M (Bucket O) (Workspace × Pipeline)
  unfolding on_rows Postgres.get_pipeline same
  owned_file_upload_pipeline caller id = of_result (s.workspace_by_user caller) >>= λ ws.
      on_rows (Postgres.get_pipeline id) >>= λ pipeline.
      (if not (same pipeline.customer_slug ws.slug)
        then fail pipeline_not_found
        else if not (same pipeline.source_type (codes "file_upload"))
        then fail not_file_upload_pipeline
        else pure (ws, pipeline))

  abbrev pub fresh_or : Pipeline → Result Pipeline → Pipeline
  fresh_or pipeline (ok fresh) = fresh
  fresh_or pipeline (err e) = pipeline

  unfoldable pub update_files :
      Pipeline → ℕ → (List UploadedFile → List UploadedFile) → M (Bucket O) (Unit {0})
  unfolding on_rows Postgres.get_pipeline Postgres.update_pipeline is_empty_json
  update_files given now mutate = attempt (on_rows (Postgres.get_pipeline given.id)) >>= λ r.
      let pipeline = fresh_or given r in
      of_result (parse_file_upload_config pipeline.source_config) >>= λ files.
      of_result (s.marshal_files (mutate files)) >>= λ raw.
      on_rows (Postgres.update_pipeline (record pipeline { source_config = raw; updated_at = now }))

  abbrev pub without_file : Text → List UploadedFile → List UploadedFile
  without_file filename files = keep (λ f. not (same f.file filename)) files

  abbrev pub uploaded : Text → ℕ → Text → UploadedFile
  uploaded filename size stamp = record {
    name = upload_table_name filename;
    file = filename;
    size_bytes = size;
    uploaded_at = stamp;
    missing = false;
  }

  unfoldable pub upload_sized : Text → Text → Text → ℕ → Text → ℕ → Text → M (Bucket O) UploadedFile
  unfolding owned_file_upload_pipeline on_store file_drop_key update_files upload_table_name keep
  upload_sized caller id filename size body now stamp =
      owned_file_upload_pipeline caller id >>= λ (ws, pipeline).
      of_result (upload_storage ws) >>= λ s3.
      on_store (s.store.put s3 (file_drop_key s3 pipeline.id filename) size body) >>= λ _.
      update_files pipeline now
        (λ files. without_file filename files ++ uploaded filename size stamp ∷ [])
      >>= λ _. pure (uploaded filename size stamp)

  -- A size of `none` is negative: the length is not known.
  unfoldable pub upload :
      Text → Text → Text → Option ℕ → Text → ℕ → Text → M (Bucket O) UploadedFile
  unfolding upload_sized is_valid_upload_filename
  upload caller id filename size body now stamp =
      if not (is_valid_upload_filename filename) then fail invalid_upload_file else elim size [
        | none ↦ fail invalid_upload_file
        | some n ↦
            if n == 0
            then fail invalid_upload_file
            else if ltb upload_limit n
            then fail invalid_upload_file
            else upload_sized caller id filename n body now stamp
      ]

  -- A file whose object cannot be looked for stays unflagged.
  abbrev pub flagged : UploadedFile → Result Bool → UploadedFile
  flagged f (ok exists) = record f { missing = not exists }
  flagged f (err e) = f

  unfoldable pub flag_each : S3Config → Text → List UploadedFile → M (Bucket O) (List UploadedFile)
  unfolding on_store file_drop_key
  flag_each s3 id [] = pure []
  flag_each s3 id (f ∷ files) =
      attempt (on_store (s.store.head s3 (file_drop_key s3 id f.file))) >>= λ exists.
      flag_each s3 id files >>= λ rest. pure (flagged f exists ∷ rest)

  abbrev pub flag_with :
      Result S3Config → Text → List UploadedFile → M (Bucket O) (List UploadedFile)
  flag_with (err e) id files = pure files
  flag_with (ok s3) id files = flag_each s3 id files

  unfoldable pub list : Text → Text → M (Bucket O) (List UploadedFile)
  unfolding owned_file_upload_pipeline flag_each is_empty_json
  list caller id = owned_file_upload_pipeline caller id >>= λ (ws, pipeline).
      of_result (parse_file_upload_config pipeline.source_config) >>= λ files.
      flag_with (upload_storage ws) pipeline.id files

  unfoldable pub delete : Text → Text → Text → ℕ → M (Bucket O) (Unit {0})
  unfolding owned_file_upload_pipeline on_store file_drop_key update_files is_valid_upload_filename
      keep
  delete caller id filename now =
      if not (is_valid_upload_filename filename)
      then fail invalid_upload_file
      else (owned_file_upload_pipeline caller id >>= λ (ws, pipeline).
          of_result (upload_storage ws) >>= λ s3.
          on_store (s.store.delete_object s3 (file_drop_key s3 pipeline.id filename)) >>= λ _.
          update_files pipeline now (without_file filename))

  abbrev pub filesystem_row : Pipeline → Text → Result Text → Result (Option Pipeline)
  filesystem_row p source (err e) = err e
  filesystem_row p source (ok creds) = ok (
      some (record p {
        source_type = codes "filesystem";
        source_config = source;
        source_credentials = creds;
      }))

  abbrev pub resolved_source : Pipeline → Result Text → Result Text → Result (Option Pipeline)
  resolved_source p creds (err e) = err e
  resolved_source p creds (ok source) = filesystem_row p source creds

  -- The pipeline that the worker is given in place of a file_upload one, if there are files.
  abbrev pub resolved_files : Pipeline → S3Config → List UploadedFile → Result (Option Pipeline)
  resolved_files p s3 [] = ok none
  resolved_files p s3 (f ∷ files) =
      resolved_source p
        (s.marshal_creds (record {
          access_key_id = s3.access_key_id;
          secret_access_key = s3.secret_access_key;
          endpoint_url = s3.endpoint;
          region = s3.region;
        }))
        (s.marshal_source (file_drop_bucket_url s3 p.id)
          (map (λ (u : UploadedFile). (u.name, u.file)) (f ∷ files)))

  abbrev pub resolved_with :
      Pipeline → S3Config → Result (List UploadedFile) → Result (Option Pipeline)
  resolved_with p s3 (err e) = err e
  resolved_with p s3 (ok files) = resolved_files p s3 files

  unfoldable pub resolve_file_upload_pipeline : Pipeline → S3Config → Result (Option Pipeline)
  unfolding is_empty_json file_drop_bucket_url
  resolve_file_upload_pipeline p s3 = resolved_with p s3 (parse_file_upload_config p.source_config)
