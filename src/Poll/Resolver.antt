-- ===== src/Poll/Resolver.antt =====
-- workspace/pipeline.go: oauthClientResolver, with its caches; workspace/connection.go: the credentials
-- of a connection.
use workspace_api.Base.{
  Bool, true, false, not, ◌||◌, Option, none, some, [], Text, codes, same, is_empty, is_some,
  or_else, Map, lookup, insert, Result, ok, err, if◌then◌else◌,
}
use workspace_api.Model.{Pipeline}
use workspace_api.Schema.Types.{Json}
use workspace_api.Schema.Google.{
  is_google_oauth_source_type, google_connection_ref, stored_google_oauth_creds,
  google_oauth_client_id,
}
use workspace_api.Schema.DuckDb.{inject_google_oauth_client, serve_google_oauth_credential}

-- As far as the resolver needs them.
pub record Connection : Type 0 where
  pub connection_type : Text
  pub credentials : Text

pub record GoogleConnectionCredentials : Type 0 where
  pub refresh_token : Text
  pub email : Text
  pub client_id : Text

-- The resolver's slug and stores, an unset one as `none`. What a store answers while a batch is served
-- depends on what it is asked for. `unmarshal_google` is `json.Unmarshal`.
pub record Stores : Type 0 where
  pub json : Json
  pub customer_slug : Text
  pub clients : Option (Text → Text → Result (Text × Text))
  pub connections : Option (Text → Text → Result Connection)
  pub unmarshal_google : Text → Option GoogleConnectionCredentials

-- The fields of `oauthClientResolver` that change.
pub record Resolver : Type 0 where
  pub resolved : Bool
  pub client_id : Text
  pub client_secret : Text
  pub conn_cache : Map (Option GoogleConnectionCredentials)

abbrev pub new_resolver : Resolver
new_resolver = record { resolved = false; client_id = []; client_secret = []; conn_cache = [] }

module _ (s : Stores) where
  abbrev pub with_token : Option GoogleConnectionCredentials → Option GoogleConnectionCredentials
  with_token none = none
  with_token (some gc) = if is_empty gc.refresh_token then none else some gc

  -- `googleCredentials`; `none` is an error.
  unfoldable pub google_credentials : Connection → Option GoogleConnectionCredentials
  unfolding same
  google_credentials c =
      if not (same c.connection_type (codes "google"))
      then none
      else with_token (s.unmarshal_google c.credentials)

  abbrev pub of_connection : Result Connection → Option GoogleConnectionCredentials
  of_connection (err e) = none
  of_connection (ok conn) = google_credentials conn

  abbrev pub cached :
      Option (Option GoogleConnectionCredentials)
      → Text
      → Option GoogleConnectionCredentials
      → Resolver
      → Option GoogleConnectionCredentials × Resolver
  cached (some gc) id fetched r = (gc, r)
  cached none id fetched r = (fetched, record r { conn_cache = insert id fetched r.conn_cache })

  abbrev pub resolved_creds : Text → Text → Option GoogleConnectionCredentials → Option Text
  resolved_creds source_type raw none = none
  resolved_creds source_type raw (some gc) =
      stored_google_oauth_creds s.json source_type raw gc.refresh_token gc.email gc.client_id

  abbrev pub resolve_ref :
      Option Text
      → Option (Text → Text → Result Connection)
      → Text
      → Text
      → Resolver
      → Option Text × Resolver
  resolve_ref none connections source_type raw r = (none, r)
  resolve_ref (some id) none source_type raw r = (none, r)
  resolve_ref (some id) (some get) source_type raw r =
      let (gc, t) = cached (lookup id r.conn_cache) id (of_connection (get s.customer_slug id)) r in
      (resolved_creds source_type raw gc, t)

  unfoldable pub resolve_connection_credential : Text → Text → Resolver → Option Text × Resolver
  unfolding google_connection_ref google_credentials stored_google_oauth_creds lookup insert
  resolve_connection_credential source_type raw r =
      resolve_ref (google_connection_ref s.json source_type raw) s.connections source_type raw r

  abbrev pub with_pair : Result (Text × Text) → Resolver → Resolver
  with_pair (err e) r = r
  with_pair (ok (id, secret)) r = record r { client_id = id; client_secret = secret }

  abbrev pub fetch_pair : Option (Text → Text → Result (Text × Text)) → Resolver → Resolver
  fetch_pair none r = r
  fetch_pair (some get) r = with_pair (get s.customer_slug (codes "google")) r

  unfoldable pub load : Resolver → Resolver
  load r = if r.resolved then r else fetch_pair s.clients (record r { resolved = true })

  abbrev pub served_or : Text → Text → Bool → Option Text
  served_or source_type raw from_connection =
      if from_connection then some (serve_google_oauth_credential s.json source_type raw) else none

  abbrev pub injected_or : Text × Bool → Option Text → Option Text
  injected_or (injected, done) otherwise = if done then some injected else otherwise

  abbrev pub inject_loaded : Text → Text → Bool → Text → Text → Option Text
  inject_loaded source_type raw from_connection client_id client_secret =
      if is_empty client_id || is_empty client_secret
      then served_or source_type raw from_connection
      else injected_or (inject_google_oauth_client s.json source_type raw client_id client_secret)
          (served_or source_type raw from_connection)

  abbrev pub inject_resolved : Text → Text → Option Text × Resolver → Option Text × Resolver
  inject_resolved source_type raw (resolved, r) =
      let t = load r in
      (
        inject_loaded source_type (or_else resolved raw) (is_some resolved) t.client_id
            t.client_secret,
        t,
      )

  unfoldable pub inject : Pipeline → Resolver → Option Text × Resolver
  unfolding is_google_oauth_source_type resolve_connection_credential load
      serve_google_oauth_credential inject_google_oauth_client
  inject p r =
      if not (is_google_oauth_source_type p.source_type)
      then (none, r)
      else inject_resolved p.source_type p.source_credentials
          (resolve_connection_credential p.source_type p.source_credentials r)

  abbrev pub is_stale : Option Text → Resolver → Bool × Resolver
  is_stale none r = (false, r)
  is_stale (some stored) r =
      let t = load r in ((if is_empty t.client_id then false else not (same stored t.client_id)), t)

  abbrev pub stale_resolved : Text → Text → Option Text × Resolver → Bool × Resolver
  stale_resolved source_type raw (resolved, r) =
      is_stale (google_oauth_client_id s.json source_type (or_else resolved raw)) r

  unfoldable pub stale_client_id : Pipeline → Resolver → Bool × Resolver
  unfolding resolve_connection_credential load google_oauth_client_id same
  stale_client_id p r =
      stale_resolved p.source_type p.source_credentials
        (resolve_connection_credential p.source_type p.source_credentials r)
