-- ===== src/Postgres/Undo.antt =====
-- A row that is inserted and deleted again, in a database in which no statement fails.
use workspace_api.Base.{
  ◌≡◌, refl, true, false, not, List, [], ◌∷◌, ◌++◌, Text, same_refl, has, keep, Error, ok, err,
  arith,
}
use workspace_api.Model.{Pipeline}
use workspace_api.Postgres.Tables.{Db, statement, has_id}
use workspace_api.Postgres.Pipelines.{insert_pipeline, create_pipeline, delete_pipeline}

pub create-ok :
    (fresh : Text) (p row : Pipeline) (db t : Db)
    → db.faults ≡ []
    → create_pipeline fresh p db ≡ (ok row, t)
    → (t.faults ≡ [])
      × (t.pipelines ≡ db.pipelines ++ row ∷ [])
      × (has (has_id row.id) db.pipelines ≡ false)
unfolding create_pipeline insert_pipeline statement
create-ok fresh p row db t f h = ground arith

pub create-err :
    (fresh : Text) (p : Pipeline) (e : Error) (db t : Db)
    → db.faults ≡ []
    → create_pipeline fresh p db ≡ (err e, t)
    → t.pipelines ≡ db.pipelines
unfolding create_pipeline insert_pipeline statement
create-err fresh p e db t f h = ground arith

pub keep_without :
    (id : Text) (rows : List Pipeline)
    → has (has_id id) rows ≡ false
    → keep (λ row. not (has_id id row)) rows ≡ rows
unfolding has keep
keep_without id [] h = refl
keep_without id (r ∷ rows) h = ground (arith, keep_without id rows)

pub keep-append_own :
    (row : Pipeline) (rows : List Pipeline)
    → has (has_id row.id) rows ≡ false
    → keep (λ r. not (has_id row.id r)) (rows ++ row ∷ []) ≡ rows
unfolding has keep
keep-append_own row [] h = rw (same_refl row.id)
keep-append_own row (r ∷ rows) h = ground (arith, keep-append_own row rows)

pub has-append_own :
    (row : Pipeline) (rows : List Pipeline) → has (has_id row.id) (rows ++ row ∷ []) ≡ true
unfolding has
has-append_own row [] = rw (same_refl row.id)
has-append_own row (r ∷ rows) = ground (arith, has-append_own row rows)

pub delete-all :
    (id : Text) (db : Db)
    → db.faults ≡ []
    → has (has_id id) db.pipelines ≡ true
    → (delete_pipeline id db).1.pipelines ≡ keep (λ row. not (has_id id row)) db.pipelines
unfolding delete_pipeline statement
delete-all id db f h = ground arith
