-- ===== src/Mirror/Adopt/Credentials.antt =====
-- workspace/pipelinemirror_adopt.go: what the adopt pass stores as credentials.
use workspace_api.Base.{
  ◌≡◌, sym, ap, ◌∙◌, some, List, [], ◌∷◌, Text, find, change, keep, order_by, map, Map, ok, ◌⊎◌,
  inl, inr, arith, ℕ,
}
use workspace_api.Model.{Pipeline, DefinitionRender}
use workspace_api.Postgres.{
  Db, statement, has_id, belongs_to, updated_row, without_credentials, list_pipelines,
}
use workspace_api.Mirror.World.{RepoClient, World, Mirror}
use workspace_api.Mirror.Adopt.{adopt_definition}
use workspace_api.Mirror.Adopt.Rows.{rows_of, adopt_definition-rows}

-- A listed pipeline comes without its credentials.
find-without_credentials :
    (id : Text) (rows : List Pipeline) (p : Pipeline)
    → find (has_id id) (map without_credentials rows) ≡ some p
    → p.source_credentials ≡ []
unfolding find
find-without_credentials id [] p h = cc
find-without_credentials id (r ∷ rows) p h = ground (arith, find-without_credentials id rows p)

pub list_pipelines-credentials :
    (slug id : Text) (db t : Db) (rows : List Pipeline) (p : Pipeline)
    → list_pipelines slug db ≡ (ok rows, t)
    → find (has_id id) rows ≡ some p
    → p.source_credentials ≡ []
unfolding list_pipelines statement
list_pipelines-credentials slug id db t rows p h f = ground (
  arith,
  find-without_credentials id
      (order_by (λ row. row.created_at) (keep (belongs_to slug) db.pipelines)) p,
)

-- The row with an id, after the row with that id is updated.
find-change :
    (id : Text) (p row : Pipeline) (rows : List Pipeline)
    → find (has_id id) (change (has_id id) (updated_row p) rows) ≡ some row
    → row.source_credentials ≡ p.source_credentials
unfolding find change
find-change id p row [] h = cc
find-change id p row (r ∷ rows) h = ground (arith, find-change id p row rows)

-- A pass over a listed pipeline that succeeds leaves the rows of the pipelines as they are, or the row
-- of the pipeline has no credentials afterwards, whatever it had.
pub adopt_definition-credentials :
    {R : Type 0} (m : Mirror R) (client : RepoClient R) (now : ℕ) (renders : Map DefinitionRender)
    (tree : Map Text) (slug id : Text) (db db1 : Db) (rows : List Pipeline) (p : Pipeline)
    (w t : World R)
    → list_pipelines slug db ≡ (ok rows, db1)
    → find (has_id id) rows ≡ some p
    → adopt_definition m client now renders tree p w ≡ (ok tt, t)
    → (rows_of t ≡ rows_of w)
      ⊎ ((row : Pipeline) → find (has_id p.id) (rows_of t) ≡ some row → row.source_credentials ≡ [])
adopt_definition-credentials m client now renders tree slug id db db1 rows p w t listed f h =
    elim (adopt_definition-rows m client now renders tree p w t h) [
      | inl e ↦ inl e
      | inr (q, s, e) ↦ inr λ row g.
          find-change p.id (record q { updated_at = now }) row (rows_of w)
            (ap (λ r. find (has_id p.id) r) (sym e) ∙ g)
          ∙ (s.source_credentials ∙ list_pipelines-credentials slug id db db1 rows p listed f)
    ]
