-- ===== src/Poll/Serve.antt =====
-- workspace/pipeline.go: GetEnabledPipelines, the worker's poll.
use workspace_api.Base.{
  Bool, not, Option, none, some, List, [], ◌∷◌, Text, codes, same, is_empty, Result, ok, err,
  and_then, M, ◌>>=◌, of_result, if◌then◌else◌,
}
use workspace_api.Model.{Pipeline, Workspace, S3Config}
use workspace_api.Postgres
use workspace_api.Postgres.{Db, EnabledPipeline}
use workspace_api.FileDrop.Service.{FileDropService, upload_storage, resolve_file_upload_pipeline}
use workspace_api.Poll.Resolver.{Stores, Resolver, new_resolver, inject}

-- The fields of `PipelineService` that the poll uses. `files` is the JSON of file_upload pipelines.
pub record Poll (O : Type 0) : Type 0 where
  pub get_workspace : Text → Result Workspace
  pub strip_poll_credentials : Bool
  pub stores : Text → Stores
  pub files : FileDropService O

abbrev pub no_storage : S3Config
no_storage = record {
  bucket = [];
  key_prefix = [];
  endpoint = [];
  region = [];
  access_key_id = [];
  secret_access_key = [];
}

abbrev pub or_no_storage : Result S3Config → S3Config
or_no_storage (ok s3) = s3
or_no_storage (err e) = no_storage

-- `out = append(out, p)`
abbrev pub append_ok :
    EnabledPipeline → Result (List EnabledPipeline) → Result (List EnabledPipeline)
append_ok p (ok rest) = ok (p ∷ rest)
append_ok p (err e) = err e

abbrev pub with_credentials : EnabledPipeline → Text → EnabledPipeline
with_credentials p creds = record p { row = record p.row { source_credentials = creds } }

abbrev pub injected : EnabledPipeline → Option Text → EnabledPipeline
injected p none = p
injected p (some creds) = with_credentials p creds

abbrev pub injected_pair : EnabledPipeline → Option Text × Resolver → EnabledPipeline × Resolver
injected_pair p (creds, t) = (injected p creds, t)

module _ {O : Type 0} (s : Poll O) where
  unfoldable pub resolve_upload_storage : Text → Result S3Config
  resolve_upload_storage slug =
      and_then (s.get_workspace slug) λ ws. ok (or_no_storage (upload_storage ws))

  abbrev pub append_resolved :
      EnabledPipeline
      → Result (Option Pipeline)
      → Result (List EnabledPipeline)
      → Result (List EnabledPipeline)
  append_resolved p (err e) rest = rest
  append_resolved p (ok none) rest = rest
  append_resolved p (ok (some row)) rest = append_ok (record p { row = row }) rest

  unfoldable pub append_file_upload_pipeline :
      EnabledPipeline → S3Config → Result (List EnabledPipeline) → Result (List EnabledPipeline)
  unfolding resolve_file_upload_pipeline
  append_file_upload_pipeline p storage rest =
      append_resolved p (resolve_file_upload_pipeline s.files p.row storage) rest

  abbrev pub storage_for : Text → Option S3Config → Result S3Config
  storage_for slug none = resolve_upload_storage slug
  storage_for slug (some s3) = ok s3

  -- A pipeline that is not a file_upload one, and the resolver after it.
  unfoldable pub serve_plain : Text → EnabledPipeline → Resolver → EnabledPipeline × Resolver
  unfolding inject
  serve_plain slug p r =
      if s.strip_poll_credentials
      then (with_credentials p [], r)
      else injected_pair p (inject (s.stores slug) p.row r)

  abbrev pub serve_upload :
      EnabledPipeline → S3Config → Result (List EnabledPipeline) → Result (List EnabledPipeline)
  serve_upload p s3 rest =
      if is_empty s3.bucket then rest else append_file_upload_pipeline p s3 rest

  unfoldable pub serve_each :
      Text → List EnabledPipeline → Option S3Config → Resolver → Result (List EnabledPipeline)
  unfolding same serve_plain resolve_upload_storage append_file_upload_pipeline
  serve_each slug [] storage r = ok []
  serve_each slug (p ∷ ps) storage r =
      let (plain, t) = serve_plain slug p r in
      let plain_rest = serve_each slug ps storage t in
      let upload_rest = λ (s3 : S3Config). serve_each slug ps (some s3) r in
      if not (same p.row.source_type (codes "file_upload"))
      then append_ok plain plain_rest
      else and_then (storage_for slug storage) λ s3. serve_upload p s3 (upload_rest s3)

  unfoldable pub get_enabled_pipelines : Text → M Db (List EnabledPipeline)
  unfolding Postgres.get_enabled_pipelines serve_each
  get_enabled_pipelines slug =
      Postgres.get_enabled_pipelines slug >>= λ ps. of_result (serve_each slug ps none new_resolver)
