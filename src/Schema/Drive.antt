-- ===== src/Schema/Drive.antt =====
-- workspace/pipeline_schema.go: the Google credential of a duckdb source, as it is validated.
use workspace_api.Base.{
  ◌≡◌, refl, ap, sym, ◌∙◌, Bool, true, false, not, Option, none, some, Text, codes, or_else, lookup,
  ok, err, and_then-eq-ok, if◌then◌else◌,
}
use workspace_api.Model.{is_empty_json}
use workspace_api.Schema.Types.{
  at, invalid_credentials, Check, GoogleOauthCredential, DuckDbConfig, DuckDbCreds, Json,
}
use workspace_api.Schema.Google.{validate_google_oauth, parse_google_oauth}
use workspace_api.Schema.DuckDb.{
  has_extension, validate_duckdb_attach_params, validate_duckdb_oauth, decoded_config,
  check_duckdb_creds, validate_duckdb_creds,
}

-- What `encoding/json` does with the credentials of a duckdb source: both structs read the same oauth
-- member, and what is encoded decodes to the same oauth member and to maps with the same entries.
pub record IsCodec (json : Json) : Type 0 where
  pub same_oauth :
      {raw : Text} {creds : DuckDbCreds}
      → json.duckdb_creds raw ≡ some creds
      → json.oauth raw ≡ some creds.oauth
  pub decoded :
      {creds : DuckDbCreds} {raw : Text}
      → json.of_duckdb_creds creds ≡ some raw
      → (out : DuckDbCreds) × (json.duckdb_creds raw ≡ some out)
        × (out.oauth ≡ creds.oauth)
        × ((k : Text) → lookup k out.attach_params ≡ lookup k creds.attach_params)
        × ((k : Text) → lookup k out.secret ≡ lookup k creds.secret)

module _ {A : Type 0} where
  join_some : {o : Option (Option A)} {a : A} → or_else o none ≡ some a → o ≡ some (some a)
  join_some {o = none} h = cc
  join_some {o = some r} h = ap some h

  pub some-eq : {a b : A} → ◌≡◌ {A = Option A} (some a) (some b) → a ≡ b
  some-eq {a = a} h = ap (λ o. or_else o a) h

module _ (json : Json) (codec : IsCodec json) where
  -- A parsed credential is that of the decoded struct.
  pub parsed_oauth :
      (raw : Text) (o : GoogleOauthCredential)
      → parse_google_oauth json (codes "duckdb") raw ≡ some o
      → (is_empty_json raw ≡ false) × (json.oauth raw ≡ some (some o))
  unfolding parse_google_oauth
  parsed_oauth raw o h = by_test (is_empty_json raw) refl h
    where
      by_test :
          (b : Bool)
          → is_empty_json raw ≡ b
          → (if b then none else or_else (json.oauth raw) none) ≡ some o
          → (is_empty_json raw ≡ false) × (json.oauth raw ≡ some (some o))
      by_test true e k = cc
      by_test false e k = (e, join_some k)

  oauth-gdrive :
      (cfg : DuckDbConfig) (c : Option GoogleOauthCredential) (o : GoogleOauthCredential)
      → c ≡ some o
      → validate_duckdb_oauth cfg c ≡ ok tt
      → has_extension cfg (codes "gdrive") ≡ true
  unfolding validate_duckdb_oauth
  oauth-gdrive cfg none o e h = cc
  oauth-gdrive cfg (some c) o e h = by_test (has_extension cfg (codes "gdrive")) h
    where
      by_test :
          (b : Bool)
          → ◌≡◌ {A = Check (Unit {0})}
              (if not b
                then err (invalid_credentials (at (codes "oauth")))
                else validate_google_oauth c)
              (ok tt)
          → b ≡ true
      by_test true k = refl
      by_test false k = cc

  -- Credentials that are accepted for a duckdb source and carry a Google credential come with a config
  -- that loads the gdrive extension.
  pub validate_duckdb_creds-gdrive :
      (config raw : Text) (o : GoogleOauthCredential)
      → validate_duckdb_creds json config raw ≡ ok tt
      → parse_google_oauth json (codes "duckdb") raw ≡ some o
      → (cfg : DuckDbConfig) × (decoded_config json config ≡ some cfg)
        × (has_extension cfg (codes "gdrive") ≡ true)
  unfolding validate_duckdb_creds
  validate_duckdb_creds-gdrive config raw o h p =
      let (full, found) = parsed_oauth raw o p in
      by_decoded (decoded_config json config) (json.duckdb_creds raw) found refl refl (rw full at h)
    where
      by_decoded :
          (c : Option DuckDbConfig) (r : Option DuckDbCreds)
          → json.oauth raw ≡ some (some o)
          → decoded_config json config ≡ c
          → json.duckdb_creds raw ≡ r
          → check_duckdb_creds json c r ≡ ok tt
          → (cfg : DuckDbConfig) × (decoded_config json config ≡ some cfg)
            × (has_extension cfg (codes "gdrive") ≡ true)
      by_decoded none r found e f k = cc
      by_decoded (some cfg) none found e f k = cc
      by_decoded (some cfg) (some creds) found e f k =
          let (u, filled, valid) =
            and_then-eq-ok (validate_duckdb_attach_params cfg.attach creds.attach_params) _ k in
          (
            cfg,
            e,
            oauth-gdrive cfg creds.oauth o (some-eq (sym (codec.same_oauth f) ∙ found)) valid,
          )
