-- ===== src/Tests/Schema.antt =====
-- workspace/pipeline_schema.go: a decoder that knows two texts, and configs of a few sources.
use workspace_api.Base.{
  ◌≡◌, ◌↔◌, refl, ap, sym, ◌∙◌, Bool, true, false, ◌&&◌, and_parts, Option, none, some, [], ◌∷◌,
  ◌++◌, Text, codes, same, same→eq, mem, is_some, or_else, Map, lookup, ok, err, if◌then◌else◌,
}
use workspace_api.Schema.Types.{
  at, invalid_credentials, GoogleOauthCredential, DuckDbConfig, DuckDbCreds, Json,
}
use workspace_api.Schema.Sources.{to_lower, validate_sql_database_dialect}
use workspace_api.Schema.Google.{parse_google_oauth}
use workspace_api.Schema.DuckDb.{
  load_list, has_extension, placeholders, validate_duckdb_attach_params, decoded_config,
  validate_duckdb_creds, inject_google_oauth_client,
}
use workspace_api.Schema.Dialect.{postgres_schemes, validate_sql_database_dialect_iff}
use workspace_api.Schema.Extensions.{AreDistinct, AreSupported, load_list-has_extension}
use workspace_api.Schema.Placeholders.{IsPlaceholder}
use workspace_api.Schema.Params.{
  validate_duckdb_attach_params-filled, validate_duckdb_attach_params-missing,
}
use workspace_api.Schema.Drive.{IsCodec, validate_duckdb_creds-gdrive}
use workspace_api.Schema.Secret.{IsServed, inject_google_oauth_client-IsServed}

abbrev url : Text
url = codes "PostgreSQL+psycopg://u:p@host/db"

validate_sql_database_dialect_iff_example : (validate_sql_database_dialect url ≡ ok tt) ↔ (
    (scheme : Text) × (rest : Text) × (url ≡ scheme ++ codes "://" ++ rest)
    × (mem (to_lower scheme) postgres_schemes ≡ true))
validate_sql_database_dialect_iff_example = validate_sql_database_dialect_iff url

accepted_url : validate_sql_database_dialect url ≡ ok tt
unfolding validate_sql_database_dialect
accepted_url = refl

mysql_url :
    validate_sql_database_dialect (codes "mysql://h")
    ≡ err (invalid_credentials (at (codes "connection_string")))
unfolding validate_sql_database_dialect
mysql_url = refl

abbrev pdf_in_drive : DuckDbConfig
pdf_in_drive = record {
  extension = [];
  extensions = codes "gdrive" ∷ codes "pdf" ∷ codes "gdrive" ∷ [];
  attach = codes "user={user} host={host} {user}";
  tables = [];
}

load_list-has_extension_example :
    (true ≡ has_extension pdf_in_drive (codes "pdf"))
    × AreDistinct (codes "gdrive" ∷ codes "pdf" ∷ [])
    × AreSupported (codes "gdrive" ∷ codes "pdf" ∷ [])
unfolding load_list mem same
load_list-has_extension_example =
    load_list-has_extension pdf_in_drive (codes "gdrive" ∷ codes "pdf" ∷ []) (codes "pdf") refl refl

names_in_braces : placeholders pdf_in_drive.attach ≡ codes "user" ∷ codes "host" ∷ codes "user" ∷ []
unfolding placeholders
names_in_braces = refl

abbrev params : Map Text
params = (codes "user", codes "u") ∷ (codes "host", codes "h") ∷ []

validate_duckdb_attach_params-filled_example : is_some (lookup (codes "host") params) ≡ true
unfolding validate_duckdb_attach_params same
validate_duckdb_attach_params-filled_example =
    validate_duckdb_attach_params-filled pdf_in_drive.attach params (codes "host") refl
      (codes "user={user} host=", codes " {user}", refl, (refl, (refl, (refl, (refl, (refl, tt))))))

validate_duckdb_attach_params-missing_example :
    (name : Text) × IsPlaceholder pdf_in_drive.attach name
    × (is_some (lookup name ((codes "user", codes "u") ∷ [])) ≡ false)
unfolding validate_duckdb_attach_params same
validate_duckdb_attach_params-missing_example =
    validate_duckdb_attach_params-missing pdf_in_drive.attach ((codes "user", codes "u") ∷ [])
      (invalid_credentials (at (codes "attach_params"))) refl

-- Stored credentials, and what the worker is given of them.
abbrev pub minted : GoogleOauthCredential
minted = record {
  grant_id = [];
  connection_id = [];
  refresh_token = codes "1//rt";
  email = [];
  client_id = codes "app";
  client_secret = [];
}

abbrev stored : DuckDbCreds
stored = record {
  attach_params = params;
  secret = (codes "SCOPE", codes "drive") ∷ [];
  oauth = some minted;
}

abbrev served : DuckDbCreds
served = record {
  attach_params = params;
  secret =
      (codes "SCOPE", codes "drive")
      ∷ (codes "type", codes "gdrive")
      ∷ (codes "PROVIDER", codes "config")
      ∷ (codes "REFRESH_TOKEN", codes "1//rt")
      ∷ (codes "CLIENT_ID", codes "app")
      ∷ (codes "CLIENT_SECRET", codes "s")
      ∷ [];
  oauth = none;
}

unfoldable pub same_map : Map Text → Map Text → Bool
unfolding same
same_map [] [] = true
same_map [] (b ∷ n) = false
same_map (a ∷ m) [] = false
same_map ((k, v) ∷ m) ((j, w) ∷ n) = (same k j && same v w) && same_map m n

same_map-eq : (m n : Map Text) → same_map m n ≡ true → m ≡ n
unfolding same_map
same_map-eq [] [] h = refl
same_map-eq [] (b ∷ n) h = cc
same_map-eq (a ∷ m) [] h = cc
same_map-eq ((k, v) ∷ m) ((j, w) ∷ n) h =
    let (heads, rest) = and_parts (same k j && same v w) (same_map m n) h in
    let (key, value) = and_parts (same k j) (same v w) heads in
    cc (same→eq k j key, same→eq v w value, same_map-eq m n rest)

abbrev creds_of : Text → Option DuckDbCreds
creds_of raw =
    if same raw (codes "served")
    then some served
    else if same raw (codes "stored")
    then some stored
    else none

abbrev oauth_of : Option DuckDbCreds → Option (Option GoogleOauthCredential)
oauth_of none = none
oauth_of (some c) = some c.oauth

abbrev encoded : Option GoogleOauthCredential → Map Text → Map Text → Option Text
encoded (some o) attach_params secret = none
encoded none attach_params secret =
    if same_map attach_params served.attach_params && same_map secret served.secret
    then some (codes "served")
    else none

abbrev pub json : Json
json = record {
  rest_api_config = λ raw. none;
  rest_api_creds = λ raw. none;
  sql_database_config = λ raw. none;
  sql_database_creds = λ raw. none;
  filesystem_config = λ raw. none;
  filesystem_creds = λ raw. none;
  google_sheets_config = λ raw. none;
  google_sheets_creds = λ raw. none;
  google_service_account_key = λ raw. none;
  string = λ raw. none;
  file_upload_config = λ raw. none;
  duckdb_config = λ raw. some pdf_in_drive;
  duckdb_creds = creds_of;
  oauth = λ raw. oauth_of (creds_of raw);
  env = λ raw. none;
  of_oauth = λ o. none;
  of_env = λ m. none;
  of_duckdb_creds = λ c. encoded c.oauth c.attach_params c.secret;
}

-- What the decoder makes of an encoded text.
abbrev IsDecoded : DuckDbCreds → Text → Type 0
IsDecoded creds raw =
    (out : DuckDbCreds) × (creds_of raw ≡ some out)
    × (out.oauth ≡ creds.oauth)
    × ((k : Text) → lookup k out.attach_params ≡ lookup k creds.attach_params)
    × ((k : Text) → lookup k out.secret ≡ lookup k creds.secret)

creds_of-served : creds_of (codes "served") ≡ some served
unfolding same
creds_of-served = refl

encoded-IsDecoded :
    (o : Option GoogleOauthCredential) (m n : Map Text) (raw : Text)
    → encoded o m n ≡ some raw
    → IsDecoded (record { attach_params = m; secret = n; oauth = o }) raw
encoded-IsDecoded (some o) m n raw h = cc
encoded-IsDecoded none m n raw h =
    by_test (same_map m served.attach_params && same_map n served.secret) refl h
  where
    by_test :
        (b : Bool)
        → (same_map m served.attach_params && same_map n served.secret) ≡ b
        → ◌≡◌ {A = Option Text} (if b then some (codes "served") else none) (some raw)
        → IsDecoded (record { attach_params = m; secret = n; oauth = none }) raw
    by_test false e k = cc
    by_test true e k =
        let (params_same, secret_same) =
          and_parts (same_map m served.attach_params) (same_map n served.secret) e in
        let raw_same : codes "served" ≡ raw = ap (λ o. or_else o []) k in
        (
          served,
          ap creds_of (sym raw_same) ∙ creds_of-served,
          refl,
          λ j. ap (lookup j) (sym (same_map-eq m served.attach_params params_same)),
          λ j. ap (lookup j) (sym (same_map-eq n served.secret secret_same)),
        )

json-IsCodec : IsCodec json
json-IsCodec = record {
  same_oauth = λ {raw = raw} {creds = creds} h. ap oauth_of h;
  decoded = λ {creds = creds} {raw = raw} h.
      encoded-IsDecoded creds.oauth creds.attach_params creds.secret raw h;
}

validate_duckdb_creds-gdrive_example :
    (cfg : DuckDbConfig) × (decoded_config json (codes "config") ≡ some cfg)
    × (has_extension cfg (codes "gdrive") ≡ true)
unfolding validate_duckdb_creds parse_google_oauth same
validate_duckdb_creds-gdrive_example =
    validate_duckdb_creds-gdrive json json-IsCodec (codes "config") (codes "stored") minted refl
      refl

inject_google_oauth_client-IsServed_example :
    (o : GoogleOauthCredential) × (out : DuckDbCreds) × (stored.oauth ≡ some o)
    × (o.client_id ≡ codes "app")
    × (creds_of (codes "served") ≡ some out)
    × IsServed stored out o (codes "s") (codes "SCOPE")
unfolding inject_google_oauth_client same same_map mem
inject_google_oauth_client-IsServed_example =
    inject_google_oauth_client-IsServed json json-IsCodec (codes "stored") (codes "app") (codes "s")
      (codes "served") (codes "SCOPE") stored refl refl refl
