-- ===== src/Postgres/Tables.antt =====
-- The tables of postgres/migrations/000001_workspace.up.sql, and a statement that may fail.
use workspace_api.Base.{
  Bool, ◌&&◌, List, [], ◌∷◌, ◌++◌, ok, Text, same, Map, err, M, other, if◌then◌else◌,
}
use workspace_api.Model.{Pipeline, PipelineRun, DefinitionRender, CredentialRender, Notification}

-- The tables, and for each of the next statements whether it fails (`true`) before it does anything.
pub record Db : Type 0 where
  pub pipelines : List Pipeline
  pub runs : List PipelineRun
  pub definition_renders : Map DefinitionRender
  pub credential_renders : Map CredentialRender
  pub notifications : List Notification
  pub faults : List Bool

unfoldable pub statement : {A : Type 0} → M Db A → M Db A
statement run db = elim db.faults [
  | [] ↦ run db
  | fault ∷ faults ↦
      let rest = record db { faults = faults } in if fault then (err other, rest) else run rest
]

abbrev pub has_id : Text → Pipeline → Bool
has_id id row = same row.id id

-- `UNIQUE (customer_slug, name)`
abbrev pub has_name : Text → Text → Pipeline → Bool
has_name slug name row = same row.customer_slug slug && same row.name name

abbrev pub belongs_to : Text → Pipeline → Bool
belongs_to slug row = same row.customer_slug slug

-- `NotificationService.Notify`, as far as the table goes.
unfoldable pub notify : Notification → M Db (Unit {0})
unfolding statement
notify n = statement λ db. (ok tt, record db { notifications = db.notifications ++ n ∷ [] })
