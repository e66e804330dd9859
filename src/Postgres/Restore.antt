-- ===== src/Postgres/Restore.antt =====
-- A row that is updated and written back, in a database in which no statement fails.
use workspace_api.Base.{
  ◌≡◌, refl, ap, ◌∙◌, Bool, false, not, ◌&&◌, some, List, [], ◌∷◌, Text, same_iff, has, keep, find,
  change, Error, ok, err, arith,
}
use workspace_api.Model.{Pipeline}
use workspace_api.Postgres.Tables.{Db, statement, has_id, has_name}
use workspace_api.Postgres.Pipelines.{updated_row, update_pipeline}

change_none :
    (test : Pipeline → Bool) (f : Pipeline → Pipeline) (rows : List Pipeline)
    → keep test rows ≡ []
    → change test f rows ≡ rows
unfolding change keep
change_none test f [] h = refl
change_none test f (r ∷ rows) h = ground (arith, change_none test f rows)

-- The row with an id that no other row has is put back.
change-undo :
    (id : Text) (p row : Pipeline) (rows : List Pipeline)
    → keep (has_id id) rows ≡ row ∷ []
    → change (has_id id) (updated_row row) (change (has_id id) (updated_row p) rows) ≡ rows
unfolding change keep
change-undo id p row [] h = cc
change-undo id p row (r ∷ rows) h = ground (
  arith,
  change_none (has_id id) (updated_row p) rows,
  change_none (has_id id) (updated_row row) rows,
  change-undo id p row rows,
)

pub find_only :
    (id : Text) (row : Pipeline) (rows : List Pipeline)
    → keep (has_id id) rows ≡ row ∷ []
    → (find (has_id id) rows ≡ some row) × (row.id ≡ id)
unfolding keep find
find_only id row [] h = cc
find_only id row (r ∷ rows) h = ground (arith, find_only id row rows, same_iff r.id id)

-- The names of the other rows are not changed.
has-change :
    (id slug name : Text) (p : Pipeline) (rows : List Pipeline)
    → has (λ r. not (has_id id r) && has_name slug name r) (change (has_id id) (updated_row p) rows)
      ≡ has (λ r. not (has_id id r) && has_name slug name r) rows
unfolding has change
has-change id slug name p [] = refl
has-change id slug name p (r ∷ rows) = ground (arith, has-change id slug name p rows)

find-change :
    (id : Text) (p row : Pipeline) (rows : List Pipeline)
    → find (has_id id) rows ≡ some row
    → find (has_id id) (change (has_id id) (updated_row p) rows) ≡ some (updated_row p row)
unfolding find change
find-change id p row [] h = cc
find-change id p row (r ∷ rows) h = ground (arith, find-change id p row rows)

pub update-ok :
    (p : Pipeline) (db t : Db)
    → db.faults ≡ []
    → update_pipeline p db ≡ (ok tt, t)
    → (t.faults ≡ []) × (t.pipelines ≡ change (has_id p.id) (updated_row p) db.pipelines)
unfolding update_pipeline statement
update-ok p db t f h = ground arith

pub update-err :
    (p : Pipeline) (e : Error) (db t : Db)
    → db.faults ≡ []
    → update_pipeline p db ≡ (err e, t)
    → t.pipelines ≡ db.pipelines
unfolding update_pipeline statement
update-err p e db t f h = ground arith

update-finds :
    (p row : Pipeline) (db : Db)
    → db.faults ≡ []
    → find (has_id p.id) db.pipelines ≡ some row
    → has (λ r. not (has_id p.id r) && has_name row.customer_slug p.name r) db.pipelines ≡ false
    → (update_pipeline p db).1.pipelines ≡ change (has_id p.id) (updated_row p) db.pipelines
unfolding update_pipeline statement
update-finds p row db f h n = ground arith

pub update-undo :
    (p row : Pipeline) (rows : List Pipeline) (db : Db)
    → db.faults ≡ []
    → db.pipelines ≡ change (has_id row.id) (updated_row p) rows
    → keep (has_id row.id) rows ≡ row ∷ []
    → has (λ r. not (has_id row.id r) && has_name row.customer_slug row.name r) rows ≡ false
    → (update_pipeline row db).1.pipelines ≡ rows
update-undo p row rows db f o k n =
    let (found, same_id) = find_only row.id row rows k in
    update-finds row (updated_row p row) db f
      (ap (find (has_id row.id)) o ∙ find-change row.id p row rows found)
      (ap (has (λ r. not (has_id row.id r) && has_name row.customer_slug row.name r)) o
        ∙ (has-change row.id row.customer_slug row.name p rows ∙ n))
    ∙ (ap (change (has_id row.id) (updated_row row)) o ∙ change-undo row.id p row rows k)
