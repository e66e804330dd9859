-- ===== src/Tests/Service.antt =====
-- workspace/pipeline.go on a small database.
use workspace_api.Base.{
  ◌⊎◌, map, ◌≡◌, refl, true, false, none, some, [], ◌∷◌, Text, codes, Map, ok, err, other,
  pipeline_not_found, fail, same, find, has, order_by, keep,
}
use workspace_api.Model.{Pipeline, PipelineRun, is_empty_json}
use workspace_api.Postgres.{get_pipeline}
use workspace_api.Mirror.World.{World}
use workspace_api.Service.{PipelineService, create_pipeline, update_pipeline, delete_pipeline}
use workspace_api.Service.Runs.{trigger_pipeline, report_pipeline_run}
use workspace_api.Service.Tenancy.{foreign_pipeline_refused}
use workspace_api.Service.Trigger.{trigger_pipeline_idem}
use workspace_api.Service.Atomic.{create_pipeline_atomic}
use workspace_api.Service.Deletes.{delete_pipeline-reinserted}
use workspace_api.Postgres.Reinsert.{reinserted}
use workspace_api.Service.Updates.{update_pipeline_atomic}
use workspace_api.Tests.Slugs.{pipeline}
use workspace_api.Tests.Repo.{acme}

-- A service whose commits all fail.
abbrev service : PipelineService (Map Text)
service = record {
  workspace_by_user = λ caller. ok (record acme { slug = caller });
  mirror = some (λ slug author. fail other);
  commit_author = λ caller. none;
  version_at = none;
  ownership = true;
  notifications = true;
  alerts = true;
  google_connection_ref = λ source_type credentials. none;
  google_grant_id = λ source_type credentials. none;
  google_scope_required = λ source_type. [];
  get_connection = none;
  consume_grant = none;
  stored_google_credentials = λ source_type credentials grant. ok credentials;
  validate_source_config = λ source_type config. ok tt;
  validate_source_credentials = λ source_type config credentials. ok tt;
}

abbrev orders : Pipeline
orders = pipeline (codes "1") (codes "Orders")

abbrev world : World (Map Text)
world = record {
  repo = [];
  db = record {
    pipelines = orders ∷ [];
    runs = [];
    definition_renders = [];
    credential_renders = [];
    notifications = [];
    faults = [];
  };
  draws = 0;
  stale_oauth = [];
  import_skips = [];
}

abbrev report : PipelineRun
report = record {
  id = codes "r";
  pipeline_id = codes "1";
  status = codes "success";
  started_at = none;
  completed_at = none;
  rows_loaded = 3;
  error_message = [];
  created_at = 2;
}

-- An update that clears the credentials gives none.
abbrev bare : Pipeline
bare = record orders { source_credentials = [] }

foreign_pipeline_refused_example :
    (update_pipeline service (codes "other") 2 true bare world ≡ (err pipeline_not_found, world))
    × (delete_pipeline service (codes "other") (codes "2") (codes "1") world
        ≡ (err pipeline_not_found, world))
    × (trigger_pipeline service (codes "other") 2 (codes "2") (codes "1") world
        ≡ (err pipeline_not_found, world))
    × (report_pipeline_run service (codes "other") 2 (codes "2") report world
        ≡ (err pipeline_not_found, world))
unfolding same find get_pipeline is_empty_json
foreign_pipeline_refused_example =
    foreign_pipeline_refused service (codes "other") (codes "2") 2 true bare orders report
      (record acme { slug = codes "other" }) world world.db refl refl refl refl refl refl

abbrev triggered : World (Map Text)
triggered = (trigger_pipeline service (codes "acme") 2 (codes "r") (codes "1") world).1

trigger_pipeline_idem_example :
    trigger_pipeline service (codes "acme") 9 (codes "q") (codes "1") triggered
    ≡ (ok (record report { status = codes "pending"; rows_loaded = 0 }), triggered)
unfolding same find trigger_pipeline order_by keep has
trigger_pipeline_idem_example =
    trigger_pipeline_idem service (codes "acme") (codes "r") (codes "q") (codes "1") 2 9 world
      triggered (record report { status = codes "pending"; rows_loaded = 0 }) refl refl

create_pipeline_atomic_example :
    (create_pipeline service
      (codes "acme")
      2
      (codes "2")
      (pipeline [] (codes "Sales"))
      world).1.db.pipelines
    ≡ world.db.pipelines
unfolding create_pipeline has same
create_pipeline_atomic_example =
    create_pipeline_atomic service (λ caller slug w q. (q, refl)) (λ consume h id slug w q. cc)
      (codes "acme") 2 (codes "2") (pipeline [] (codes "Sales")) world
      (create_pipeline service (codes "acme") 2 (codes "2") (pipeline [] (codes "Sales")) world).1
      other refl refl

update_pipeline_atomic_example :
    (update_pipeline service
      (codes "acme")
      2
      false
      (pipeline (codes "1") (codes "Sales"))
      world).1.db.pipelines
    ≡ world.db.pipelines
unfolding update_pipeline has keep find same
update_pipeline_atomic_example =
    update_pipeline_atomic service (λ caller slug w q. (q, refl)) (λ consume h id slug w q. cc)
      (codes "acme") 2 false (pipeline (codes "1") (codes "Sales")) orders world
      (update_pipeline service (codes "acme") 2 false (pipeline (codes "1") (codes "Sales"))
        world).1
      other refl refl refl refl refl

abbrev external : Pipeline
external = record orders { credentials_external = true }

abbrev boxed : World (Map Text)
boxed = record world { db = record world.db { pipelines = external ∷ [] } }

abbrev deleted : World (Map Text)
deleted = (delete_pipeline service (codes "acme") (codes "2") (codes "1") boxed).1

delete_pipeline-reinserted_example :
    (deleted.db.pipelines ≡ boxed.db.pipelines)
    ⊎ (deleted.db.pipelines ≡ reinserted (codes "1") (codes "2") external boxed.db.pipelines)
unfolding delete_pipeline has keep find same
delete_pipeline-reinserted_example =
    delete_pipeline-reinserted service (λ caller slug w q. (q, refl)) (codes "acme") (codes "2")
      (codes "1") external boxed deleted other refl refl refl refl refl

-- The box no longer owns the credentials.
ownership_lost : map (λ row. row.credentials_external) deleted.db.pipelines ≡ false ∷ []
unfolding delete_pipeline has keep find same
ownership_lost = refl
