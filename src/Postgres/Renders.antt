-- ===== src/Postgres/Renders.antt =====
-- postgres/pipeline_ownership.go, pipeline_definition_renders.go and
-- pipeline_credential_renders.go: who owns a credentials file, and what was last rendered.
use workspace_api.Base.{
  Bool, ◌&&◌, none, some, List, [], ◌∷◌, Text, Map, lookup, insert, remove, has, change, ok, err, M,
  other, pipeline_not_found, if◌then◌else◌,
}
use workspace_api.Model.{Pipeline, DefinitionRender, CredentialRender}
use workspace_api.Postgres.Tables.{Db, statement, has_id, belongs_to}

-- Who owns the credentials file, and the render bookkeeping.
unfoldable pub set_credentials_external : Text → Bool → M Db (Unit {0})
unfolding statement
set_credentials_external id external = statement λ db.
    if has (has_id id) db.pipelines
    then (
      ok tt,
      record db {
        pipelines =
            change (has_id id) (λ row. record row { credentials_external = external }) db.pipelines;
      },
    )
    else (err pipeline_not_found, db)

unfoldable pub delete_credential_render : Text → M Db (Unit {0})
unfolding statement
delete_credential_render id =
    statement λ db. (ok tt, record db { credential_renders = remove id db.credential_renders })

-- The foreign key wants the pipeline's row.
unfoldable pub upsert_definition_render : Text → Text → Text → M Db (Unit {0})
unfolding statement
upsert_definition_render id path blob_sha = statement λ db.
    if has (has_id id) db.pipelines
    then (
      ok tt,
      record db {
        definition_renders =
            insert id (record { path = path; blob_sha = blob_sha; refused_blob_sha = [] })
              db.definition_renders;
      },
    )
    else (err other, db)

unfoldable pub upsert_credential_render : Text → Text → Text → M Db (Unit {0})
unfolding statement
upsert_credential_render id fingerprint blob_sha = statement λ db.
    if has (has_id id) db.pipelines
    then (
      ok tt,
      record db {
        credential_renders =
            insert id (record { fingerprint = fingerprint; blob_sha = blob_sha })
              db.credential_renders;
      },
    )
    else (err other, db)

-- No row, no change, no error.
unfoldable pub mark_definition_refused : Text → Text → M Db (Unit {0})
unfolding statement
mark_definition_refused id refused_sha = statement λ db. elim (lookup id db.definition_renders) [
  | none ↦ (ok tt, db)
  | some row ↦ (
    ok tt,
    record db {
      definition_renders =
          insert id (record row { refused_blob_sha = refused_sha }) db.definition_renders;
    },
  )
]

-- `JOIN pipelines p … WHERE p.customer_slug = $1`
unfoldable pub joined {ℓ} : {R : Type ℓ} → Text → List Pipeline → Map R → Map R
joined slug pipelines [] = []
joined slug pipelines ((id, row) ∷ rows) =
    let rest = joined slug pipelines rows in
    if has (λ p. has_id id p && belongs_to slug p) pipelines then (id, row) ∷ rest else rest

unfoldable pub get_definition_renders : Text → M Db (Map DefinitionRender)
unfolding statement
get_definition_renders slug =
    statement λ db. (ok (joined slug db.pipelines db.definition_renders), db)

unfoldable pub get_credential_renders : Text → M Db (Map CredentialRender)
unfolding statement
get_credential_renders slug =
    statement λ db. (ok (joined slug db.pipelines db.credential_renders), db)
