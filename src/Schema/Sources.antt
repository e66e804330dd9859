-- ===== src/Schema/Sources.antt =====
-- workspace/pipeline_schema.go: the validators of rest_api, sql_database, filesystem and file_upload;
-- workspace/filedrop.go: the names of uploaded files.
use workspace_api.Base.{
  ℕ, Bool, true, false, not, ◌&&◌, ◌||◌, ◌==◌, leb, Option, none, some, List, [], ◌∷◌, Text, codes,
  length, map, same, mem, is_empty, has_prefix, has_suffix, or_else, ok, err, and_then,
  if◌then◌else◌, find,
}
use workspace_api.Model.{is_empty_json}
use workspace_api.Mirror.Slug.{lower}
use workspace_api.Schema.Types.{
  at, nth, invalid_config, invalid_credentials, Check, validate_each, no_items, IncrementalConfig,
  RestApiResource, RestApiConfig, SqlDatabaseTableCfg, FilesystemConfig, FilesystemCreds,
  UploadedFile, Json,
}
use workspace_api.Schema.Cut.{cut}

-- `cfg.Incremental != nil && cfg.Incremental.CursorPath == ""`
abbrev pub lacks_cursor : Option IncrementalConfig → Bool
lacks_cursor none = false
lacks_cursor (some incremental) = is_empty incremental.cursor_path

abbrev pub validate_resource : ℕ → RestApiResource → Check (Unit {0})
validate_resource i r =
    if is_empty r.name
    then err (invalid_config (nth (codes "resources") i (codes "name")))
    else if is_empty r.endpoint
    then err (invalid_config (nth (codes "resources") i (codes "endpoint")))
    else ok tt

abbrev pub validate_rest_api_resources : List RestApiResource → Check (Unit {0})
validate_rest_api_resources resources = validate_each validate_resource 0 resources

abbrev pub write_dispositions : List Text
write_dispositions = codes "append" ∷ codes "replace" ∷ codes "merge" ∷ []

abbrev pub validate_rest_api_write_disposition : Text → Check (Unit {0})
validate_rest_api_write_disposition write_disposition =
    if is_empty write_disposition
    then ok tt
    else if mem write_disposition write_dispositions
    then ok tt
    else err (invalid_config (at (codes "write_disposition")))

abbrev pub check_rest_api_config : Option RestApiConfig → Check (Unit {0})
check_rest_api_config none = err (invalid_config (at (codes "source_config")))
check_rest_api_config (some cfg) =
    if is_empty cfg.base_url
    then err (invalid_config (at (codes "base_url")))
    else if no_items cfg.resources
    then err (invalid_config (at (codes "resources")))
    else (and_then (validate_rest_api_resources cfg.resources) λ _.
        and_then (validate_rest_api_write_disposition cfg.write_disposition) λ _.
          if lacks_cursor cfg.incremental
          then err (invalid_config (at (codes "incremental.cursor_path")))
          else ok tt)

abbrev pub validate_table_cfg : ℕ → SqlDatabaseTableCfg → Check (Unit {0})
validate_table_cfg i tc =
    if is_empty tc.name
    then err (invalid_config (nth (codes "tables_config") i (codes "name")))
    else if lacks_cursor tc.incremental
    then err (invalid_config (nth (codes "tables_config") i (codes "incremental.cursor_path")))
    else ok tt

abbrev pub check_sql_database_config : Option (List SqlDatabaseTableCfg) → Check (Unit {0})
check_sql_database_config none = err (invalid_config (at (codes "source_config")))
check_sql_database_config (some tables) = validate_each validate_table_cfg 0 tables

-- `strings.ToLower`
unfoldable pub to_lower : Text → Text
unfolding lower
to_lower s = map lower s

-- `dialect, driver, _ := strings.Cut(…, "+")`
unfoldable pub dialect_driver : Text → Text × Text
unfolding cut
dialect_driver s = or_else (cut (codes "+") s) (s, [])

abbrev pub check_dialect : Text × Text → Check (Unit {0})
check_dialect (dialect, driver) =
    if not (same dialect (codes "postgres")) && not (same dialect (codes "postgresql"))
    then err (invalid_credentials (at (codes "connection_string")))
    else if not (is_empty driver) && not (same driver (codes "psycopg"))
    then err (invalid_credentials (at (codes "connection_string")))
    else ok tt

abbrev pub check_scheme : Option (Text × Text) → Check (Unit {0})
check_scheme none = err (invalid_credentials (at (codes "connection_string")))
check_scheme (some (scheme, rest)) = check_dialect (dialect_driver (to_lower scheme))

unfoldable pub validate_sql_database_dialect : Text → Check (Unit {0})
unfolding cut to_lower dialect_driver same
validate_sql_database_dialect connection_string = check_scheme (cut (codes "://") connection_string)

abbrev pub check_sql_database_creds : Option Text → Check (Unit {0})
check_sql_database_creds none = err (invalid_credentials (at (codes "source_credentials")))
check_sql_database_creds (some connection_string) =
    if is_empty connection_string
    then err (invalid_credentials (at (codes "connection_string")))
    else validate_sql_database_dialect connection_string

abbrev pub check_filesystem_config : Option FilesystemConfig → Check (Unit {0})
check_filesystem_config none = err (invalid_config (at (codes "source_config")))
check_filesystem_config (some cfg) =
    if is_empty cfg.bucket_url then err (invalid_config (at (codes "bucket_url"))) else ok tt

abbrev pub is_public : Option FilesystemConfig → Bool
is_public none = false
is_public (some cfg) =
    let bucket = to_lower cfg.bucket_url in
    has_prefix (codes "http://") bucket || has_prefix (codes "https://") bucket

abbrev pub check_filesystem_creds : Option FilesystemCreds → Check (Unit {0})
check_filesystem_creds none = err (invalid_credentials (at (codes "source_credentials")))
check_filesystem_creds (some creds) =
    if is_empty creds.access_key_id
    then err (invalid_credentials (at (codes "access_key_id")))
    else if is_empty creds.secret_access_key
    then err (invalid_credentials (at (codes "secret_access_key")))
    else ok tt

-- `uploadFilenamePattern`: a letter or a digit, then at most 199 letters of a small set.
abbrev pub is_ascii_alnum : ℕ → Bool
is_ascii_alnum c =
    (leb b'A' c && leb c b'Z') || (leb b'a' c && leb c b'z') || (leb b'0' c && leb c b'9')

unfoldable pub all_name_chars : Text → Bool
all_name_chars [] = true
all_name_chars (c ∷ s) =
    (is_ascii_alnum c || c == b'.' || c == b'_' || c == b' ' || c == b'-') && all_name_chars s

abbrev pub is_upload_filename : Text → Bool
is_upload_filename [] = false
is_upload_filename (c ∷ s) = is_ascii_alnum c && all_name_chars s && leb (length s) 199

-- `uploadExtensions`: no two of them end one name, so the longest match is the only one.
abbrev pub upload_extensions : List (Text × Text)
upload_extensions =
    (codes ".csv", codes "csv")
    ∷ (codes ".tsv", codes "csv")
    ∷ (codes ".parquet", codes "parquet")
    ∷ (codes ".jsonl", codes "jsonl")
    ∷ (codes ".ndjson", codes "jsonl")
    ∷ []

abbrev pub format_of : Text → Option (Text × Text) → Text
format_of name none = []
format_of name (some (ext, format)) = if length name == length ext then [] else format

unfoldable pub upload_format : Text → Text
unfolding to_lower has_suffix find
upload_format name = format_of name (find (λ e. has_suffix e.0 (to_lower name)) upload_extensions)

unfoldable pub is_valid_upload_filename : Text → Bool
unfolding all_name_chars upload_format
is_valid_upload_filename name =
    if is_empty name
    then false
    else if not (is_upload_filename name)
    then false
    else not (is_empty (upload_format name))

abbrev pub validate_file : ℕ → UploadedFile → Check (Unit {0})
validate_file i f =
    if is_empty f.name
    then err (invalid_config (nth (codes "files") i (codes "name")))
    else if not (is_valid_upload_filename f.file)
    then err (invalid_config (nth (codes "files") i (codes "file")))
    else ok tt

abbrev pub check_file_upload_config : Option (List UploadedFile) → Check (Unit {0})
check_file_upload_config none = err (invalid_config (at (codes "source_config")))
check_file_upload_config (some files) = validate_each validate_file 0 files

module _ (json : Json) where
  unfoldable pub validate_rest_api_config : Text → Check (Unit {0})
  unfolding is_empty_json validate_each
  validate_rest_api_config raw =
      if is_empty_json raw
      then err (invalid_config (at (codes "source_config")))
      else check_rest_api_config (json.rest_api_config raw)

  unfoldable pub validate_rest_api_creds : Text → Check (Unit {0})
  unfolding is_empty_json
  validate_rest_api_creds raw =
      if is_empty_json raw then ok tt else elim (json.rest_api_creds raw) [
        | none ↦ err (invalid_credentials (at (codes "source_credentials")))
        | some creds ↦ ok tt
      ]

  unfoldable pub validate_sql_database_config : Text → Check (Unit {0})
  unfolding is_empty_json validate_each
  validate_sql_database_config raw =
      if is_empty_json raw then ok tt else check_sql_database_config (json.sql_database_config raw)

  unfoldable pub validate_sql_database_creds : Text → Check (Unit {0})
  unfolding is_empty_json validate_sql_database_dialect
  validate_sql_database_creds raw =
      if is_empty_json raw
      then err (invalid_credentials (at (codes "source_credentials")))
      else check_sql_database_creds (json.sql_database_creds raw)

  unfoldable pub validate_filesystem_config : Text → Check (Unit {0})
  unfolding is_empty_json
  validate_filesystem_config raw =
      if is_empty_json raw
      then err (invalid_config (at (codes "source_config")))
      else check_filesystem_config (json.filesystem_config raw)

  unfoldable pub is_public_bucket_url : Text → Bool
  unfolding is_empty_json to_lower has_prefix
  is_public_bucket_url config =
      if is_empty_json config then false else is_public (json.filesystem_config config)

  unfoldable pub validate_filesystem_creds : Text → Text → Check (Unit {0})
  unfolding is_empty_json is_public_bucket_url
  validate_filesystem_creds config raw =
      if is_public_bucket_url config
      then ok tt
      else if is_empty_json raw
      then err (invalid_credentials (at (codes "source_credentials")))
      else check_filesystem_creds (json.filesystem_creds raw)

  unfoldable pub validate_file_upload_config : Text → Check (Unit {0})
  unfolding is_empty_json validate_each is_valid_upload_filename
  validate_file_upload_config raw =
      if is_empty_json raw then ok tt else check_file_upload_config (json.file_upload_config raw)

unfoldable pub validate_file_upload_creds : Text → Check (Unit {0})
unfolding is_empty_json
validate_file_upload_creds raw =
    if is_empty_json raw then ok tt else err (invalid_credentials (at (codes "source_credentials")))
