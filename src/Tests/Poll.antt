-- ===== src/Tests/Poll.antt =====
-- workspace/pipeline.go: a poll of two pipelines, and a batch that shares a Google connection.
use workspace_api.Base.{
  ◌≡◌, refl, true, false, Option, none, some, List, [], ◌∷◌, Text, codes, same, is_empty, lookup,
  map, All, ok, if◌then◌else◌,
}
use workspace_api.Model.{Pipeline, PipelineRun}
use workspace_api.Postgres.{Db, EnabledPipeline}
use workspace_api.Schema.Types.{GoogleOauthCredential, Json}
use workspace_api.Poll.Resolver.{Stores, new_resolver, inject}
use workspace_api.Poll.Cache.{inject_each, inject_each-cached}
use workspace_api.Poll.Serve.{Poll, get_enabled_pipelines}
use workspace_api.Poll.Served.{IsPolled, get_enabled_pipelines-IsPolled}
use workspace_api.Tests.Slugs.{pipeline}
use workspace_api.Tests.Repo.{acme}
use workspace_api.Tests.Schema
use workspace_api.Tests.Schema.{minted}
use workspace_api.Tests.FileDrop.{drops, service}

-- A credential is the name of what it holds.
abbrev oauth_of : Text → Option (Option GoogleOauthCredential)
oauth_of raw =
    if same raw (codes "token")
    then some (some minted)
    else some (some (record minted { connection_id = codes "c1"; refresh_token = [] }))

abbrev json : Json
json = record Schema.json {
  oauth = oauth_of;
  env = λ raw. some [];
  of_oauth = λ o. some (if is_empty o.client_secret then codes "token" else codes "served");
  of_env = λ m. lookup (codes "oauth") m;
}

abbrev stores : Text → Stores
stores slug = record {
  json = json;
  customer_slug = slug;
  clients = some (λ tenant provider. ok (codes "app", codes "s"));
  connections =
      some (λ tenant id. ok (record { connection_type = codes "google"; credentials = id }));
  unmarshal_google =
      λ raw. some (record { refresh_token = codes "1//rt"; email = []; client_id = codes "app" });
}

abbrev sheet : Text → Text → Pipeline
sheet id creds = record (pipeline id id) {
  source_type = codes "google_sheets";
  source_credentials = creds;
}

abbrev batch : List Pipeline
batch =
    sheet (codes "1") (codes "connection")
    ∷ sheet (codes "2") (codes "connection")
    ∷ pipeline (codes "3") (codes "Orders")
    ∷ []

injected_batch :
    inject_each (stores (codes "acme")) batch new_resolver
    ≡ some (codes "served") ∷ some (codes "served") ∷ none ∷ []
unfolding inject_each
injected_batch = refl

inject_each-cached_example :
    inject_each (stores (codes "acme")) batch new_resolver
    ≡ map (λ p. (inject (stores (codes "acme")) p new_resolver).0) batch
inject_each-cached_example = inject_each-cached (stores (codes "acme")) batch

abbrev polls : Poll (List Text)
polls = record {
  get_workspace = λ slug. ok acme;
  strip_poll_credentials = true;
  stores = stores;
  files = record service {
    marshal_source = λ url tables. ok url;
    marshal_creds = λ c. ok c.region;
  };
}

abbrev queued : PipelineRun
queued = record {
  id = codes "r";
  pipeline_id = codes "2";
  status = codes "pending";
  started_at = none;
  completed_at = none;
  rows_loaded = 0;
  error_message = [];
  created_at = 5;
}

-- One is enabled, one is paused with a run that was asked for, one is paused.
abbrev tables : Db
tables = record {
  pipelines =
      record drops { source_config = codes "one"; enabled = true }
      ∷ sheet (codes "2") (codes "connection")
      ∷ pipeline (codes "3") (codes "Orders")
      ∷ [];
  runs = queued ∷ [];
  definition_renders = [];
  credential_renders = [];
  notifications = [];
  faults = [];
}

abbrev polled : List EnabledPipeline
polled =
    record {
      row = record drops {
        enabled = true;
        source_type = codes "filesystem";
        source_config = codes "s3://acme-data/uploads/1/";
        source_credentials = codes "auto";
      };
      pending_run_id = [];
      trigger_now = false;
      last_run_at = none;
    }
    ∷ record {
      row = sheet (codes "2") [];
      pending_run_id = codes "r";
      trigger_now = true;
      last_run_at = none;
    }
    ∷ []

get_enabled_pipelines-IsPolled_example : All (IsPolled polls (codes "acme") (queued ∷ [])) polled
unfolding get_enabled_pipelines
get_enabled_pipelines-IsPolled_example =
    get_enabled_pipelines-IsPolled polls (codes "acme") tables tables polled refl
