-- ===== src/Schema/Validate.antt =====
-- workspace/pipeline_schema.go: the validators of a source_config and of source_credentials, by the
-- source type.
use workspace_api.Base.{Text, codes, same, err, if◌then◌else◌}
use workspace_api.Schema.Types.{at, invalid_config, invalid_credentials, Check, Json}
use workspace_api.Schema.Sources.{
  validate_rest_api_config, validate_rest_api_creds, validate_sql_database_config,
  validate_sql_database_creds, validate_filesystem_config, validate_filesystem_creds,
  validate_file_upload_config, validate_file_upload_creds,
}
use workspace_api.Schema.Google.{validate_google_sheets_config, validate_google_sheets_creds}
use workspace_api.Schema.DuckDb.{validate_duckdb_config, validate_duckdb_creds}

module _ (json : Json) where
  unfoldable pub validate_source_config : Text → Text → Check (Unit {0})
  unfolding same
  validate_source_config source_type raw =
      if same source_type (codes "rest_api")
      then validate_rest_api_config json raw
      else if same source_type (codes "sql_database")
      then validate_sql_database_config json raw
      else if same source_type (codes "filesystem")
      then validate_filesystem_config json raw
      else if same source_type (codes "google_sheets")
      then validate_google_sheets_config json raw
      else if same source_type (codes "file_upload")
      then validate_file_upload_config json raw
      else if same source_type (codes "duckdb")
      then validate_duckdb_config json raw
      else err (invalid_config (at (codes "source_type")))

  unfoldable pub validate_source_credentials : Text → Text → Text → Check (Unit {0})
  unfolding same
  validate_source_credentials source_type config raw =
      if same source_type (codes "rest_api")
      then validate_rest_api_creds json raw
      else if same source_type (codes "sql_database")
      then validate_sql_database_creds json raw
      else if same source_type (codes "filesystem")
      then validate_filesystem_creds json config raw
      else if same source_type (codes "google_sheets")
      then validate_google_sheets_creds json raw
      else if same source_type (codes "file_upload")
      then validate_file_upload_creds raw
      else if same source_type (codes "duckdb")
      then validate_duckdb_creds json config raw
      else err (invalid_credentials (at (codes "source_type")))
