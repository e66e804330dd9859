-- ===== src/Schema/Secret.antt =====
-- workspace/pipeline_schema.go: the Google credential of a duckdb source, as the worker is given it.
use workspace_api.Base.{
  ◌≡◌, refl, ap, sym, subst, ◌∙◌, Bool, true, false, not, ◌||◌, Option, none, some, List, [], ◌∷◌,
  Text, codes, same, same→eq, same_refl, is_empty, mem, or_else, Map, lookup, insert, lookup-insert,
  if◌then◌else◌,
}
use workspace_api.Model.{is_empty_json}
use workspace_api.Schema.Types.{GoogleOauthCredential, DuckDbCreds, Json}
use workspace_api.Schema.Google.{parse_google_oauth}
use workspace_api.Schema.DuckDb.{
  default_key, google_secret, rendered_secret, render_duckdb_google_secret, or_raw, inject_with,
  inject_google_oauth_client,
}
use workspace_api.Schema.Drive.{IsCodec, some-eq, parsed_oauth}

-- The keys of a secret that are given to the gdrive extension.
abbrev pub secret_keys : List Text
secret_keys =
    codes "type"
    ∷ codes "PROVIDER"
    ∷ codes "REFRESH_TOKEN"
    ∷ codes "CLIENT_ID"
    ∷ codes "CLIENT_SECRET"
    ∷ []

lookup_here : (k v : Text) (m : Map Text) → lookup k (insert k v m) ≡ some v
lookup_here k v m = lookup-insert k k v m ∙ rw (same_refl k) refl

lookup_there :
    (k j v : Text) (m : Map Text) → same k j ≡ false → lookup j (insert k v m) ≡ lookup j m
lookup_there k j v m h = lookup-insert k j v m ∙ rw h refl

lookup-default_key :
    (k j v : Text) (m : Map Text) → same k j ≡ false → lookup j (default_key k v m) ≡ lookup j m
lookup-default_key k j v m h = by_test (is_empty (or_else (lookup k m) []))
  where
    by_test : (b : Bool) → lookup j (if b then insert k v m else m) ≡ lookup j m
    by_test true = lookup_there k j v m h
    by_test false = refl

-- The secret has the token, the client and its secret, and what it had of another key.
google_secret_lookups :
    (o : GoogleOauthCredential) (m : Map Text) (key : Text)
    → mem key secret_keys ≡ false
    → (lookup (codes "REFRESH_TOKEN") (google_secret o m) ≡ some o.refresh_token)
      × (lookup (codes "CLIENT_ID") (google_secret o m) ≡ some o.client_id)
      × (lookup (codes "CLIENT_SECRET") (google_secret o m) ≡ some o.client_secret)
      × (lookup key (google_secret o m) ≡ lookup key m)
unfolding google_secret same mem
google_secret_lookups o m key h =
    let d1 = default_key (codes "type") (codes "gdrive") m in
    let d2 = default_key (codes "PROVIDER") (codes "config") d1 in
    let d3 = insert (codes "REFRESH_TOKEN") o.refresh_token d2 in
    let d4 = insert (codes "CLIENT_ID") o.client_id d3 in
    (
      lookup_there (codes "CLIENT_SECRET") (codes "REFRESH_TOKEN") o.client_secret d4 refl
          ∙ (lookup_there (codes "CLIENT_ID") (codes "REFRESH_TOKEN") o.client_id d3 refl
              ∙ lookup_here (codes "REFRESH_TOKEN") o.refresh_token d2),
      lookup_there (codes "CLIENT_SECRET") (codes "CLIENT_ID") o.client_secret d4 refl
          ∙ lookup_here (codes "CLIENT_ID") o.client_id d3,
      lookup_here (codes "CLIENT_SECRET") o.client_secret d4,
      lookup_there (codes "CLIENT_SECRET") key o.client_secret d4
            (apart (codes "CLIENT_SECRET") refl)
          ∙ (lookup_there (codes "CLIENT_ID") key o.client_id d3 (apart (codes "CLIENT_ID") refl)
              ∙ (lookup_there (codes "REFRESH_TOKEN") key o.refresh_token d2
                    (apart (codes "REFRESH_TOKEN") refl)
                  ∙ (lookup-default_key (codes "PROVIDER") key (codes "config") d1
                        (apart (codes "PROVIDER") refl)
                      ∙ lookup-default_key (codes "type") key (codes "gdrive") m
                          (apart (codes "type") refl)))),
    )
  where
    apart : (k : Text) → mem k secret_keys ≡ true → same k key ≡ false
    apart k listed = by_test (same k key) refl
      where
        by_test : (b : Bool) → same k key ≡ b → b ≡ false
        by_test true e = cc (same→eq k key e)
        by_test false e = refl

-- What a served secret is, beside the credentials that are stored.
pub record IsServed (creds out : DuckDbCreds) (o : GoogleOauthCredential) (client_secret key : Text)
    : Type 0 where
  pub no_oauth : out.oauth ≡ none
  pub token : lookup (codes "REFRESH_TOKEN") out.secret ≡ some o.refresh_token
  pub client : lookup (codes "CLIENT_ID") out.secret ≡ some o.client_id
  pub secret : lookup (codes "CLIENT_SECRET") out.secret ≡ some client_secret
  pub other_secret : lookup key out.secret ≡ lookup key creds.secret
  pub params : lookup key out.attach_params ≡ lookup key creds.attach_params

module _ (json : Json) (codec : IsCodec json) where
  never : {A : Type 0} → false ≡ true → A
  never h = absurd (subst (λ b. if b then ⊥ else Unit {0}) h tt)

  or_raw-some :
      (raw served : Text) (r : Option Text) → or_raw json raw r ≡ (served, true) → r ≡ some served
  or_raw-some raw served none h = never (ap (λ z. z.1) h)
  or_raw-some raw served (some t) h = ap (λ z. some z.0) h

  -- The credential that is rendered, with the client's secret, as the secret of stored credentials.
  rendered-IsServed :
      (raw client_secret served key : Text) (o : GoogleOauthCredential) (creds : DuckDbCreds)
      → json.duckdb_creds raw ≡ some creds
      → is_empty_json raw ≡ false
      → mem key secret_keys ≡ false
      → render_duckdb_google_secret json raw (record o { client_secret = client_secret })
        ≡ some served
      → (out : DuckDbCreds) × (json.duckdb_creds served ≡ some out)
        × IsServed creds out o client_secret key
  unfolding render_duckdb_google_secret
  rendered-IsServed raw client_secret served key o creds d full other h =
      let of_creds : rendered_secret json (record o { client_secret = client_secret }) (some creds)
          ≡ some served =
        rw (full, d) at h in
      let (out, known, hidden, params, secret) = codec.decoded of_creds in
      let (token, client, client_key, kept) =
        google_secret_lookups (record o { client_secret = client_secret }) creds.secret key other in
      (
        out,
        known,
        record {
          no_oauth = hidden;
          token = secret (codes "REFRESH_TOKEN") ∙ token;
          client = secret (codes "CLIENT_ID") ∙ client;
          secret = secret (codes "CLIENT_SECRET") ∙ client_key;
          other_secret = secret key ∙ kept;
          params = params key;
        },
      )

  -- A duckdb credential is served with the client's secret only if it has a Google credential that this
  -- client minted; what the worker then decodes has no oauth member, has the token, the client and its
  -- secret under the keys of the gdrive extension, and has of any other key the value that was stored.
  pub inject_google_oauth_client-IsServed :
      (raw client_id client_secret served key : Text) (creds : DuckDbCreds)
      → json.duckdb_creds raw ≡ some creds
      → mem key secret_keys ≡ false
      → inject_google_oauth_client json (codes "duckdb") raw client_id client_secret
        ≡ (served, true)
      → (o : GoogleOauthCredential) × (out : DuckDbCreds) × (creds.oauth ≡ some o)
        × (o.client_id ≡ client_id)
        × (json.duckdb_creds served ≡ some out)
        × IsServed creds out o client_secret key
  unfolding inject_google_oauth_client same
  inject_google_oauth_client-IsServed raw client_id client_secret served key creds d other h =
      by_parsed (parse_google_oauth json (codes "duckdb") raw) refl h
    where
      by_parsed :
          (p : Option GoogleOauthCredential)
          → parse_google_oauth json (codes "duckdb") raw ≡ p
          → inject_with json (codes "duckdb") raw client_id client_secret p ≡ (served, true)
          → (o : GoogleOauthCredential) × (out : DuckDbCreds) × (creds.oauth ≡ some o)
            × (o.client_id ≡ client_id)
            × (json.duckdb_creds served ≡ some out)
            × IsServed creds out o client_secret key
      by_parsed none e k = never (ap (λ z. z.1) k)
      by_parsed (some o) e k =
          by_tests (is_empty o.refresh_token) (same o.client_id client_id) refl k
        where
          by_tests :
              (b1 b2 : Bool)
              → same o.client_id client_id ≡ b2
              → ◌≡◌ {A = Text × Bool}
                  (if b1 || not b2
                    then (raw, false)
                    else or_raw json raw (
                        render_duckdb_google_secret json raw
                          (record o { client_secret = client_secret })))
                  (served, true)
              → (o : GoogleOauthCredential) × (out : DuckDbCreds) × (creds.oauth ≡ some o)
                × (o.client_id ≡ client_id)
                × (json.duckdb_creds served ≡ some out)
                × IsServed creds out o client_secret key
          by_tests true b2 f m = never (ap (λ z. z.1) m)
          by_tests false false f m = never (ap (λ z. z.1) m)
          by_tests false true f m =
              let (full, found) = parsed_oauth json codec raw o e in
              let (out, known, is_served) =
                rendered-IsServed raw client_secret served key o creds d full other (
                  or_raw-some raw served
                    (render_duckdb_google_secret json raw
                      (record o { client_secret = client_secret }))
                    m) in
              (
                o,
                out,
                some-eq (sym (codec.same_oauth d) ∙ found),
                same→eq o.client_id client_id f,
                known,
                is_served,
              )
