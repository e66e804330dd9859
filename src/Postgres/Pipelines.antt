-- ===== src/Postgres/Pipelines.antt =====
-- postgres/pipeline.go and import.go: the statements on `pipelines`.
use workspace_api.Base.{
  false, not, ◌&&◌, ◌||◌, none, some, List, [], ◌∷◌, ◌++◌, Text, codes, same, is_empty, Map, remove,
  keep, has, find, change, order_by, Result, ok, err, M, pipeline_not_found,
  pipeline_already_exists, if◌then◌else◌, map,
}
use workspace_api.Model.{Pipeline}
use workspace_api.Postgres.Tables.{Db, statement, has_id, has_name, belongs_to}

-- `INSERT INTO pipelines`: the primary key and the unique name.
unfoldable pub insert_pipeline : Pipeline → Db → Result Pipeline × Db
insert_pipeline row db =
    if has (has_id row.id) db.pipelines || has (has_name row.customer_slug row.name) db.pipelines
    then (err pipeline_already_exists, db)
    else (ok row, record db { pipelines = db.pipelines ++ row ∷ [] })

-- `gen_random_uuid()` gives `fresh`; `credentials_external` takes its default.
unfoldable pub create_pipeline : Text → Pipeline → M Db Pipeline
unfolding statement insert_pipeline
create_pipeline fresh p =
    statement (insert_pipeline (record p { id = fresh; credentials_external = false }))

-- `emptyJSONObject`
abbrev pub empty_json_object : Text → Text
empty_json_object raw = if is_empty raw then codes "{}" else raw

unfoldable pub import_pipeline : Pipeline → M Db Pipeline
unfolding statement insert_pipeline
import_pipeline p =
    statement
      (insert_pipeline (record p { source_credentials = empty_json_object p.source_credentials }))

unfoldable pub get_pipeline : Text → M Db Pipeline
unfolding statement
get_pipeline id = statement λ db. elim (find (has_id id) db.pipelines) [
  | none ↦ (err pipeline_not_found, db)
  | some row ↦ (ok row, db)
]

-- The list never selects the credentials.
abbrev pub without_credentials : Pipeline → Pipeline
without_credentials row = record row { source_credentials = [] }

unfoldable pub list_pipelines : Text → M Db (List Pipeline)
unfolding statement
list_pipelines slug = statement λ db.
    let rows = order_by (λ row. row.created_at) (keep (belongs_to slug) db.pipelines) in
    (ok (map without_credentials rows), db)

-- `ListPipelineCredentialsByCustomer`
abbrev pub credentials_of : List Pipeline → Map Text
credentials_of [] = []
credentials_of (row ∷ rows) = (row.id, row.source_credentials) ∷ credentials_of rows

unfoldable pub list_credentials : Text → M Db (Map Text)
unfolding statement
list_credentials slug =
    statement λ db. (ok (credentials_of (keep (belongs_to slug) db.pipelines)), db)

-- `UPDATE pipelines SET …`: not the slug, nor who owns the credentials, nor the creation time.
abbrev pub updated_row : Pipeline → Pipeline → Pipeline
updated_row p row = record p {
  id = row.id;
  customer_slug = row.customer_slug;
  credentials_external = row.credentials_external;
  created_at = row.created_at;
}

unfoldable pub update_pipeline : Pipeline → M Db (Unit {0})
unfolding statement
update_pipeline p = statement λ db. elim (find (has_id p.id) db.pipelines) [
  | none ↦ (err pipeline_not_found, db)
  | some row ↦
      if has (λ r. not (has_id p.id r) && has_name row.customer_slug p.name r) db.pipelines
      then (err pipeline_already_exists, db)
      else (ok tt, record db { pipelines = change (has_id p.id) (updated_row p) db.pipelines })
]

-- The foreign keys cascade.
unfoldable pub delete_pipeline : Text → M Db (Unit {0})
unfolding statement
delete_pipeline id = statement λ db.
    if has (has_id id) db.pipelines
    then (
      ok tt,
      record db {
        pipelines = keep (λ row. not (has_id id row)) db.pipelines;
        runs = keep (λ run. not (same run.pipeline_id id)) db.runs;
        definition_renders = remove id db.definition_renders;
        credential_renders = remove id db.credential_renders;
      },
    )
    else (err pipeline_not_found, db)
