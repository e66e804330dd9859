-- ===== src/Schema/Google.antt =====
-- workspace/pipeline_schema.go: the delegated Google credential that google_sheets and duckdb carry as
-- their oauth member, and the validators of google_sheets.
use workspace_api.Base.{
  ℕ, Bool, not, ◌&&◌, ◌||◌, Option, none, some, [], Text, codes, same, is_empty, or_else, Map,
  insert, ok, err, if◌then◌else◌,
}
use workspace_api.Model.{Pipeline, is_empty_json, trim_space}
use workspace_api.Schema.Types.{
  at, item, invalid_config, invalid_credentials, Check, validate_each, GoogleSheetsConfig,
  GoogleOauthCredential, GoogleSheetsCreds, GoogleServiceAccountKey, Json,
}

abbrev pub validate_range : ℕ → Text → Check (Unit {0})
validate_range i r =
    if is_empty (trim_space r) then err (invalid_config (item (codes "range_names") i)) else ok tt

abbrev pub check_google_sheets_config : Option GoogleSheetsConfig → Check (Unit {0})
check_google_sheets_config none = err (invalid_config (at (codes "source_config")))
check_google_sheets_config (some cfg) =
    if is_empty cfg.spreadsheet_url_or_id
    then err (invalid_config (at (codes "spreadsheet_url_or_id")))
    else validate_each validate_range 0 cfg.range_names

unfoldable pub validate_google_oauth : GoogleOauthCredential → Check (Unit {0})
validate_google_oauth o =
    if is_empty o.grant_id && is_empty o.connection_id && is_empty o.refresh_token
    then err (invalid_credentials (at (codes "oauth")))
    else ok tt

abbrev pub check_key : Option GoogleServiceAccountKey → Check (Unit {0})
check_key none = err (invalid_credentials (at (codes "service_account_key")))
check_key (some key) =
    if is_empty key.client_email
    then err (invalid_credentials (at (codes "service_account_key")))
    else if is_empty key.private_key
    then err (invalid_credentials (at (codes "service_account_key")))
    else ok tt

unfoldable pub is_google_oauth_source_type : Text → Bool
unfolding same
is_google_oauth_source_type source_type =
    same source_type (codes "google_sheets") || same source_type (codes "duckdb")

-- `core.GoogleDriveFileScope`
abbrev pub google_drive_file_scope : Text
google_drive_file_scope = codes "https://www.googleapis.com/auth/drive.file"

unfoldable pub google_scope_required : Text → Text
unfolding same
google_scope_required source_type =
    if same source_type (codes "duckdb") then google_drive_file_scope else []

abbrev pub grant_of : Option GoogleOauthCredential → Option Text
grant_of none = none
grant_of (some o) = if is_empty o.grant_id then none else some o.grant_id

abbrev pub connection_of : Option GoogleOauthCredential → Option Text
connection_of none = none
connection_of (some o) =
    if is_empty o.connection_id || not (is_empty o.refresh_token)
    then none
    else some o.connection_id

abbrev pub client_of : Option GoogleOauthCredential → Option Text
client_of none = none
client_of (some o) = if is_empty o.refresh_token then none else some o.client_id

module _ (json : Json) where
  unfoldable pub validate_google_sheets_config : Text → Check (Unit {0})
  unfolding is_empty_json validate_each trim_space
  validate_google_sheets_config raw =
      if is_empty_json raw
      then err (invalid_config (at (codes "source_config")))
      else check_google_sheets_config (json.google_sheets_config raw)

  -- The key is an object, or a string that holds one.
  unfoldable pub validate_google_sheets_service_account : Text → Check (Unit {0})
  validate_google_sheets_service_account key =
      check_key (json.google_service_account_key (or_else (json.string key) key))

  abbrev pub check_google_sheets_creds : Option GoogleSheetsCreds → Check (Unit {0})
  check_google_sheets_creds none = err (invalid_credentials (at (codes "source_credentials")))
  check_google_sheets_creds (some creds) =
      let has_sa = not (is_empty_json creds.service_account_key) in
      elim creds.oauth [
        | some o ↦
            if has_sa
            then err (invalid_credentials (at (codes "source_credentials")))
            else validate_google_oauth o
        | none ↦
            if has_sa
            then validate_google_sheets_service_account creds.service_account_key
            else err (invalid_credentials (at (codes "source_credentials")))
      ]

  unfoldable pub validate_google_sheets_creds : Text → Check (Unit {0})
  unfolding is_empty_json validate_google_oauth validate_google_sheets_service_account
  validate_google_sheets_creds raw =
      if is_empty_json raw
      then err (invalid_credentials (at (codes "source_credentials")))
      else check_google_sheets_creds (json.google_sheets_creds raw)

  unfoldable pub parse_google_oauth : Text → Text → Option GoogleOauthCredential
  unfolding is_google_oauth_source_type is_empty_json
  parse_google_oauth source_type raw =
      if not (is_google_oauth_source_type source_type) || is_empty_json raw
      then none
      else or_else (json.oauth raw) none

  abbrev pub with_oauth : Option (Map Text) → Option Text → Option Text
  with_oauth none encoded = none
  with_oauth (some env) none = none
  with_oauth (some env) (some encoded) = json.of_env (insert (codes "oauth") encoded env)

  -- `none` is an error.
  unfoldable pub store_google_oauth : Text → Text → GoogleOauthCredential → Option Text
  unfolding is_google_oauth_source_type is_empty_json insert
  store_google_oauth source_type raw o =
      if not (is_google_oauth_source_type source_type)
      then none
      else with_oauth (if is_empty_json raw then some [] else json.env raw) (json.of_oauth o)

  unfoldable pub google_grant_id : Text → Text → Option Text
  unfolding parse_google_oauth
  google_grant_id source_type raw = grant_of (parse_google_oauth source_type raw)

  unfoldable pub google_connection_ref : Text → Text → Option Text
  unfolding parse_google_oauth
  google_connection_ref source_type raw = connection_of (parse_google_oauth source_type raw)

  unfoldable pub connection_id : Pipeline → Text
  unfolding google_connection_ref
  connection_id p = or_else (google_connection_ref p.source_type p.source_credentials) []

  unfoldable pub stored_google_oauth_creds : Text → Text → Text → Text → Text → Option Text
  unfolding store_google_oauth
  stored_google_oauth_creds source_type raw refresh_token email client_id =
      store_google_oauth source_type raw (record {
        grant_id = [];
        connection_id = [];
        refresh_token = refresh_token;
        email = email;
        client_id = client_id;
        client_secret = [];
      })

  unfoldable pub google_oauth_client_id : Text → Text → Option Text
  unfolding parse_google_oauth
  google_oauth_client_id source_type raw = client_of (parse_google_oauth source_type raw)

unfoldable pub has_credentials : Pipeline → Bool
unfolding is_empty_json
has_credentials p = not (is_empty_json p.source_credentials)
