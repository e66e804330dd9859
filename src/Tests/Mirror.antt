-- ===== src/Tests/Mirror.antt =====
-- workspace/pipelinemirror.go and pipelinemirror_adopt.go on a small repo and database.
use workspace_api.Base.{
  ◌≡◌, refl, true, none, some, [], ◌∷◌, ◌++◌, Text, codes, Map, lookup, same, has_prefix,
  has_suffix, find, keep, change, order_by, has, map, ◌⊎◌, inr,
}
use workspace_api.Model.{Pipeline, DefinitionFile, DefinitionRender}
use workspace_api.Postgres.{Db, has_id, list_pipelines, joined}
use workspace_api.Mirror.Slug.{pipeline_file_slug, name_file_slug}
use workspace_api.Mirror.World.{World}
use workspace_api.Mirror.Files.{pipeline_file_header, is_definition_path}
use workspace_api.Mirror.Converge.{converge}
use workspace_api.Mirror.Converge.Expected.{expected}
use workspace_api.Mirror.Converge.Whole.{AreCredentialPaths, converge-expected}
use workspace_api.Mirror.Converge.External.{converge-external}
use workspace_api.Mirror.Sync.{client_for, sync_customer}
use workspace_api.Mirror.Sync.Content.{IsRendered, sync_customer-renders}
use workspace_api.Mirror.Adopt.{adopt_customer, adopt_definition}
use workspace_api.Mirror.Adopt.ReadOnly.{adopt_customer-ReadOnly}
use workspace_api.Mirror.Adopt.Rows.{Adopts, rows_of, adopt_definition-rows}
use workspace_api.Mirror.Adopt.Credentials.{adopt_definition-credentials}
use workspace_api.Tests.Slugs.{pipeline}
use workspace_api.Tests.Repo.{client, client-IsRepo, file, mirror, acme}

abbrev orders : Pipeline
orders = record (pipeline (codes "11111111-a") (codes "Orders")) {
  source_credentials = codes "secret";
}

abbrev path : Text
path = codes "pipelines/orders.yaml"

abbrev database : Db
database = record {
  pipelines = orders ∷ [];
  runs = [];
  definition_renders =
      (orders.id, record { path = path; blob_sha = codes "old"; refused_blob_sha = [] }) ∷ [];
  credential_renders = [];
  notifications = [];
  faults = [];
}

-- A rendered file that is stale, one that somebody added, and one that was edited.
abbrev world : World (Map Text)
world = record {
  repo =
      (codes "pipelines/gone.yaml", pipeline_file_header ++ codes "x")
      ∷ (codes "pipelines/mine.yaml", codes "mine")
      ∷ (path, codes "edited")
      ∷ [];
  db = database;
  draws = 0;
  stale_oauth = [];
  import_skips = [];
}

abbrev desired : Map DefinitionFile
desired = (path, record { pipeline_id = orders.id; content = codes "new" }) ∷ []

abbrev converged : World (Map Text)
converged =
    (converge mirror client none (codes "acme") desired (some []) (codes "age1") [] [] world).1

converge-expected_example :
    file converged.repo (codes "pipelines/gone.yaml")
    ≡ expected
        (lookup (codes "pipelines/gone.yaml") desired)
        (is_definition_path (codes "pipelines/gone.yaml"))
        (file world.repo (codes "pipelines/gone.yaml"))
unfolding converge client AreCredentialPaths lookup has_prefix
converge-expected_example =
    converge-expected file client client-IsRepo none mirror (codes "acme") desired (some [])
      (codes "age1") [] [] world converged (λ p h. cc) refl (codes "pipelines/gone.yaml") refl

converge-external_example :
    file
      (converge mirror client none
        (codes "acme")
        desired
        (some (
          (
            codes "pipelines/a.credentials.age",
            record { pipeline_id = codes "a"; plaintext = []; external = true },
          )
          ∷ []))
        (codes "age1")
        []
        []
        world).1.repo
      (codes "pipelines/a.credentials.age")
    ≡ file world.repo (codes "pipelines/a.credentials.age")
unfolding has_prefix has_suffix lookup same
converge-external_example =
    converge-external file client client-IsRepo none mirror (codes "acme") desired
      ((
        codes "pipelines/a.credentials.age",
        record { pipeline_id = codes "a"; plaintext = []; external = true },
      )
        ∷ [])
      (codes "age1") [] [] (codes "pipelines/a.credentials.age")
      (record { pipeline_id = codes "a"; plaintext = []; external = true }) refl refl refl refl
      world

abbrev synced : World (Map Text)
synced = (sync_customer mirror (codes "acme") none world).1

-- A second pipeline, of dropped files.
abbrev uploads : Pipeline
uploads = record (pipeline (codes "22222222-b") (codes "Daily drops")) {
  source_type = codes "file_upload";
  created_at = 2;
}

abbrev both : World (Map Text)
both = record world { db = record database { pipelines = orders ∷ uploads ∷ [] } }

sync_customer-renders_example :
    (content : Text) × IsRendered mirror uploads content
    × (file
          (sync_customer mirror (codes "acme") none both).1.repo
          (codes "pipelines/daily-drops.yaml")
        ≡ some content)
unfolding client_for sync_customer client order_by keep pipeline_file_slug name_file_slug joined has
sync_customer-renders_example =
    sync_customer-renders mirror file client client-IsRepo (codes "acme") none acme both
      (sync_customer mirror (codes "acme") none both).1
      (record orders { source_credentials = [] } ∷ []) [] uploads uploads refl refl
      (inr (refl, refl, refl)) refl refl

stored_credentials :
    lookup (codes "pipelines/orders.credentials.age") synced.repo ≡ some (0 ∷ codes "secret")
unfolding sync_customer client order_by keep pipeline_file_slug name_file_slug joined
stored_credentials = refl

abbrev listed : Pipeline
listed = record orders { source_credentials = [] }

-- The edited file, taken over.
abbrev renders : Map DefinitionRender
renders = database.definition_renders

abbrev tree : Map Text
tree = (path, codes "edited") ∷ []

abbrev adopted : World (Map Text)
adopted = (adopt_definition mirror client 5 renders tree listed world).1

adopt_definition-rows_example : Adopts mirror 5 listed (rows_of world) (rows_of adopted)
unfolding adopt_definition client find has
adopt_definition-rows_example =
    adopt_definition-rows mirror client 5 renders tree listed world adopted refl

adopt_definition-credentials_example :
    (rows_of adopted ≡ rows_of world)
    ⊎ ((row : Pipeline)
        → find (has_id listed.id) (rows_of adopted) ≡ some row
        → row.source_credentials ≡ [])
unfolding adopt_definition client list_pipelines find order_by keep has
adopt_definition-credentials_example =
    adopt_definition-credentials mirror client 5 renders tree (codes "acme") orders.id database
      database (listed ∷ []) listed world adopted refl refl refl

-- The stored credentials are gone.
credentials_lost : map (λ row. row.source_credentials) (rows_of world) ≡ codes "secret" ∷ []
credentials_lost = refl

credentials_lost_after : map (λ row. row.source_credentials) (rows_of adopted) ≡ [] ∷ []
unfolding adopt_definition client find has change
credentials_lost_after = refl

adopt_customer-ReadOnly_example :
    file (adopt_customer mirror 5 (codes "acme") world).1.repo path ≡ file world.repo path
unfolding client_for
adopt_customer-ReadOnly_example =
    adopt_customer-ReadOnly file mirror path client client-IsRepo 5 (codes "acme") acme refl world
