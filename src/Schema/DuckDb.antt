-- ===== src/Schema/DuckDb.antt =====
-- workspace/pipeline_schema.go: the duckdb source, its extensions, the placeholders of its attach
-- template and the secret of its gdrive extension.
use workspace_api.Base.{
  ℕ, Bool, true, false, not, ◌&&◌, ◌||◌, ◌==◌, leb, Option, none, some, List, [], ◌∷◌, ◌++◌, Text,
  codes, same, mem, is_empty, is_some, or_else, Map, lookup, insert, sort, ok, err, and_then,
  if◌then◌else◌,
}
use workspace_api.Model.{is_empty_json}
use workspace_api.Schema.Types.{
  at, nth, invalid_config, invalid_credentials, Check, validate_each, no_items,
  GoogleOauthCredential, DuckDbTable, DuckDbConfig, DuckDbCreds, Json,
}
use workspace_api.Schema.Sources.{to_lower}
use workspace_api.Schema.Google.{validate_google_oauth, parse_google_oauth, store_google_oauth}

abbrev pub duckdb_extension_allowlist : List Text
duckdb_extension_allowlist =
    codes "mysql"
    ∷ codes "mssql"
    ∷ codes "pdf"
    ∷ codes "webbed"
    ∷ codes "gdrive"
    ∷ codes "httpfs"
    ∷ []

-- `duckdbIdentRe`
unfoldable pub all_ident_chars : Text → Bool
all_ident_chars [] = true
all_ident_chars (c ∷ s) =
    ((leb b'a' c && leb c b'z') || (leb b'0' c && leb c b'9') || c == b'_') && all_ident_chars s

abbrev pub is_ident : Text → Bool
is_ident s = not (is_empty s) && all_ident_chars s

-- The loop of `loadList`; what is seen is what is out.
abbrev pub add_name : Text → List Text → List Text
add_name name out = if mem name out then out else out ++ name ∷ []

unfoldable pub load_names : List Text → List Text → Check (List Text)
unfolding all_ident_chars mem
load_names out [] = ok out
load_names out (name ∷ names) =
    let rest = load_names (add_name name out) names in
    if not (is_ident name)
    then err (invalid_config (at (codes "extension")))
    else if not (mem name duckdb_extension_allowlist)
    then err (invalid_config (at (codes "extension")))
    else rest

abbrev pub named : DuckDbConfig → List Text
named c = if not (is_empty c.extension) then c.extension ∷ [] else c.extensions

unfoldable pub load_list : DuckDbConfig → Check (List Text)
unfolding load_names
load_list c =
    if not (is_empty c.extension) && not (no_items c.extensions)
    then err (invalid_config (at (codes "extensions")))
    else if no_items (named c)
    then err (invalid_config (at (codes "extension")))
    else load_names [] (named c)

unfoldable pub has_extension : DuckDbConfig → Text → Bool
unfolding same mem
has_extension c name = if same c.extension name then true else mem name c.extensions

abbrev pub validate_table : Text → ℕ → DuckDbTable → Check (Unit {0})
validate_table attach i tbl =
    if is_empty tbl.name
    then err (invalid_config (nth (codes "tables") i (codes "name")))
    else if is_empty attach && is_empty tbl.query
    then err (invalid_config (nth (codes "tables") i (codes "query")))
    else if not (is_empty tbl.cursor_column) && not (is_ident (to_lower tbl.cursor_column))
    then err (invalid_config (nth (codes "tables") i (codes "cursor_column")))
    else ok tt

unfoldable pub validate_duckdb_tables : Text → List DuckDbTable → Check (Unit {0})
unfolding validate_each all_ident_chars to_lower
validate_duckdb_tables attach tables = validate_each (validate_table attach) 0 tables

abbrev pub check_duckdb_config : Option DuckDbConfig → Check (Unit {0})
check_duckdb_config none = err (invalid_config (at (codes "source_config")))
check_duckdb_config (some cfg) = and_then (load_list cfg) λ names.
    if no_items cfg.tables
    then err (invalid_config (at (codes "tables")))
    else validate_duckdb_tables cfg.attach cfg.tables

unfoldable pub duckdb_supported_extensions : List Text
unfolding sort
duckdb_supported_extensions = sort duckdb_extension_allowlist

-- `duckdbPlaceholderRe`: a name that `{` opens is closed by the first `}`, with word characters between.
abbrev pub is_word_char : ℕ → Bool
is_word_char c =
    (leb b'A' c && leb c b'Z')
    || (leb b'a' c && leb c b'z')
    || (leb b'0' c && leb c b'9')
    || c == b'_'

abbrev pub longer : ℕ → Option Text → Option Text
longer c none = none
longer c (some name) = some (c ∷ name)

unfoldable pub closed : Text → Option Text
closed [] = none
closed (c ∷ s) =
    let rest = longer c (closed s) in
    if c == b'}' then some [] else if is_word_char c then rest else none

abbrev pub opened : Option Text → List Text → List Text
opened none found = found
opened (some name) found = if is_empty name then found else name ∷ found

-- `FindAllStringSubmatch`: a match holds one `{` only, so the search may go on right behind it.
unfoldable pub placeholders : Text → List Text
unfolding closed
placeholders [] = []
placeholders (c ∷ s) =
    let found = placeholders s in if c == b'{' then opened (closed s) found else found

-- The loop of `validateDuckDBAttachParams`; what is seen is what is missing.
unfoldable pub missing_params : Map Text → List Text → List Text → List Text
unfolding lookup mem
missing_params params missing [] = missing
missing_params params missing (name ∷ names) =
    missing_params params
      (if not (is_some (lookup name params)) && not (mem name missing)
        then missing ++ name ∷ []
        else missing)
      names

unfoldable pub validate_duckdb_attach_params : Text → Map Text → Check (Unit {0})
unfolding missing_params placeholders
validate_duckdb_attach_params attach params =
    if no_items (missing_params params [] (placeholders attach))
    then ok tt
    else err (invalid_credentials (at (codes "attach_params")))

unfoldable pub validate_duckdb_oauth :
    DuckDbConfig → Option GoogleOauthCredential → Check (Unit {0})
unfolding has_extension validate_google_oauth
validate_duckdb_oauth cfg none = ok tt
validate_duckdb_oauth cfg (some o) =
    if not (has_extension cfg (codes "gdrive"))
    then err (invalid_credentials (at (codes "oauth")))
    else validate_google_oauth o

-- A key of the secret that is empty or missing takes its default.
abbrev pub default_key : Text → Text → Map Text → Map Text
default_key key value secret =
    if is_empty (or_else (lookup key secret) []) then insert key value secret else secret

unfoldable pub google_secret : GoogleOauthCredential → Map Text → Map Text
unfolding lookup insert
google_secret o secret = insert (codes "CLIENT_SECRET") o.client_secret (
    insert (codes "CLIENT_ID") o.client_id (
      insert (codes "REFRESH_TOKEN") o.refresh_token (
        default_key (codes "PROVIDER") (codes "config")
          (default_key (codes "type") (codes "gdrive") secret))))

abbrev pub no_creds : DuckDbCreds
no_creds = record { attach_params = []; secret = []; oauth = none }

module _ (json : Json) where
  unfoldable pub validate_duckdb_config : Text → Check (Unit {0})
  unfolding is_empty_json load_list validate_duckdb_tables
  validate_duckdb_config raw =
      if is_empty_json raw
      then err (invalid_config (at (codes "source_config")))
      else check_duckdb_config (json.duckdb_config raw)

  abbrev pub decoded_config : Text → Option DuckDbConfig
  decoded_config config =
      if is_empty_json config
      then some (record { extension = []; extensions = []; attach = []; tables = [] })
      else json.duckdb_config config

  abbrev pub decoded_creds : Text → Option DuckDbCreds
  decoded_creds raw = if is_empty_json raw then some no_creds else json.duckdb_creds raw

  abbrev pub check_duckdb_creds : Option DuckDbConfig → Option DuckDbCreds → Check (Unit {0})
  check_duckdb_creds none creds = err (invalid_credentials (at (codes "source_config")))
  check_duckdb_creds (some cfg) none = err (invalid_credentials (at (codes "source_credentials")))
  check_duckdb_creds (some cfg) (some creds) =
      and_then (validate_duckdb_attach_params cfg.attach creds.attach_params)
        λ _. validate_duckdb_oauth cfg creds.oauth

  unfoldable pub validate_duckdb_creds : Text → Text → Check (Unit {0})
  unfolding is_empty_json validate_duckdb_attach_params validate_duckdb_oauth
  validate_duckdb_creds config raw = check_duckdb_creds (decoded_config config) (decoded_creds raw)

  abbrev pub rendered_secret : GoogleOauthCredential → Option DuckDbCreds → Option Text
  rendered_secret o none = none
  rendered_secret o (some creds) =
      json.of_duckdb_creds (record creds { secret = google_secret o creds.secret; oauth = none })

  unfoldable pub render_duckdb_google_secret : Text → GoogleOauthCredential → Option Text
  unfolding is_empty_json google_secret
  render_duckdb_google_secret raw o = rendered_secret o (decoded_creds raw)

  abbrev pub serve_as_secret : Text → Option GoogleOauthCredential → Text
  serve_as_secret raw none = raw
  serve_as_secret raw (some o) = or_else (render_duckdb_google_secret raw o) raw

  unfoldable pub serve_google_oauth_credential : Text → Text → Text
  unfolding same parse_google_oauth render_duckdb_google_secret
  serve_google_oauth_credential source_type raw =
      if not (same source_type (codes "duckdb"))
      then raw
      else serve_as_secret raw (parse_google_oauth json source_type raw)

  abbrev pub or_raw : Text → Option Text → Text × Bool
  or_raw raw none = (raw, false)
  or_raw raw (some rendered) = (rendered, true)

  abbrev pub inject_with : Text → Text → Text → Text → Option GoogleOauthCredential → Text × Bool
  inject_with source_type raw client_id client_secret none = (raw, false)
  inject_with source_type raw client_id client_secret (some o) =
      if is_empty o.refresh_token || not (same o.client_id client_id)
      then (raw, false)
      else (let served = record o { client_secret = client_secret } in
          if same source_type (codes "duckdb")
          then or_raw raw (render_duckdb_google_secret raw served)
          else or_raw raw (store_google_oauth json source_type raw served))

  unfoldable pub inject_google_oauth_client : Text → Text → Text → Text → Text × Bool
  unfolding same parse_google_oauth render_duckdb_google_secret store_google_oauth
  inject_google_oauth_client source_type raw client_id client_secret =
      inject_with source_type raw client_id client_secret (parse_google_oauth json source_type raw)
