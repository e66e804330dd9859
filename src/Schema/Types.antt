-- ===== src/Schema/Types.antt =====
-- workspace/pipeline_schema.go: the structs that JSON is decoded into, and the validation errors.
use workspace_api.Base.{
  ℕ, suc, Bool, true, false, Option, List, [], ◌∷◌, Text, Map, Outcome, ok, and_then,
}

-- The JSON path of a field: a member, an element of a list, or a member of one.
pub data Field : Type 0 where
  at : Text → Field
  item : Text → ℕ → Field
  nth : Text → ℕ → Text → Field

-- `ErrInvalidSourceConfig` and `ErrInvalidSourceCredentials`, without the message.
pub data SchemaError : Type 0 where
  invalid_config invalid_credentials : Field → SchemaError

abbrev pub Check {ℓ} : Type ℓ → Type ℓ
Check A = Outcome SchemaError A

-- `for i, x := range xs { if err := … }`
unfoldable pub validate_each :
    {A : Type 0} → (ℕ → A → Check (Unit {0})) → ℕ → List A → Check (Unit {0})
validate_each validate i [] = ok tt
validate_each validate i (x ∷ xs) = and_then (validate i x) λ _. validate_each validate (suc i) xs

-- `len(xs) == 0`
abbrev pub no_items : {A : Type 0} → List A → Bool
no_items [] = true
no_items (x ∷ xs) = false

pub record IncrementalConfig : Type 0 where
  pub cursor_path : Text

pub record RestApiResource : Type 0 where
  pub name : Text
  pub endpoint : Text

-- The members that are only passed on are left out.
pub record RestApiConfig : Type 0 where
  pub base_url : Text
  pub resources : List RestApiResource
  pub write_disposition : Text
  pub incremental : Option IncrementalConfig

pub record SqlDatabaseTableCfg : Type 0 where
  pub name : Text
  pub incremental : Option IncrementalConfig

pub record FilesystemConfig : Type 0 where
  pub bucket_url : Text
  pub file_glob : Text

pub record FilesystemCreds : Type 0 where
  pub access_key_id : Text
  pub secret_access_key : Text
  pub endpoint_url : Text
  pub region : Text

pub record GoogleSheetsConfig : Type 0 where
  pub spreadsheet_url_or_id : Text
  pub range_names : List Text

-- `missing` is no part of the JSON.
pub record UploadedFile : Type 0 where
  pub name : Text
  pub file : Text
  pub size_bytes : ℕ
  pub uploaded_at : Text
  pub missing : Bool

pub record GoogleOauthCredential : Type 0 where
  pub grant_id : Text
  pub connection_id : Text
  pub refresh_token : Text
  pub email : Text
  pub client_id : Text
  pub client_secret : Text

pub record GoogleSheetsCreds : Type 0 where
  pub service_account_key : Text
  pub oauth : Option GoogleOauthCredential

pub record GoogleServiceAccountKey : Type 0 where
  pub client_email : Text
  pub private_key : Text

pub record DuckDbTable : Type 0 where
  pub name : Text
  pub query : Text
  pub cursor_column : Text

pub record DuckDbConfig : Type 0 where
  pub extension : Text
  pub extensions : List Text
  pub attach : Text
  pub tables : List DuckDbTable

-- A map that is missing is empty.
pub record DuckDbCreds : Type 0 where
  pub attach_params : Map Text
  pub secret : Map Text
  pub oauth : Option GoogleOauthCredential

-- `json.Unmarshal` into each struct, `none` where it fails, and `json.Marshal`. `sql_database` decodes
-- into its tables_config and its connection_string, `file_upload` into its files, `env` into the raw
-- members of an object, `oauth` into that member of one, `string` into a string.
pub record Json : Type 0 where
  pub rest_api_config : Text → Option RestApiConfig
  pub rest_api_creds : Text → Option (Unit {0})
  pub sql_database_config : Text → Option (List SqlDatabaseTableCfg)
  pub sql_database_creds : Text → Option Text
  pub filesystem_config : Text → Option FilesystemConfig
  pub filesystem_creds : Text → Option FilesystemCreds
  pub google_sheets_config : Text → Option GoogleSheetsConfig
  pub google_sheets_creds : Text → Option GoogleSheetsCreds
  pub google_service_account_key : Text → Option GoogleServiceAccountKey
  pub string : Text → Option Text
  pub file_upload_config : Text → Option (List UploadedFile)
  pub duckdb_config : Text → Option DuckDbConfig
  pub duckdb_creds : Text → Option DuckDbCreds
  pub oauth : Text → Option (Option GoogleOauthCredential)
  pub env : Text → Option (Map Text)
  pub of_oauth : GoogleOauthCredential → Option Text
  pub of_env : Map Text → Option Text
  pub of_duckdb_creds : DuckDbCreds → Option Text
