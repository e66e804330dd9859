-- ===== src/Postgres/Reinsert.antt =====
-- A row that is deleted and inserted again, in a database in which no statement fails.
use workspace_api.Base.{
  ◌≡◌, refl, ap, ◌∙◌, Bool, true, false, not, ◌&&◌, List, [], ◌∷◌, ◌++◌, Text, has, keep, find,
  some, arith, ok,
}
use workspace_api.Model.{Pipeline}
use workspace_api.Postgres.Tables.{Db, statement, has_id, has_name}
use workspace_api.Postgres.Pipelines.{insert_pipeline, create_pipeline, delete_pipeline}

module _ {A : Type 0} (p q : A → Bool) where
  has-keep : (xs : List A) → has q (keep p xs) ≡ has (λ x. p x && q x) xs
  unfolding has keep
  has-keep [] = refl
  has-keep (x ∷ xs) = ground (arith, has-keep xs)

  has_none : (xs : List A) → has q xs ≡ false → has (λ x. p x && q x) xs ≡ false
  unfolding has
  has_none [] h = refl
  has_none (x ∷ xs) h = ground (arith, has_none xs)

has_found :
    (id : Text) (row : Pipeline) (rows : List Pipeline)
    → find (has_id id) rows ≡ some row
    → has (has_id id) rows ≡ true
unfolding has find
has_found id row [] h = cc
has_found id row (r ∷ rows) h = ground (arith, has_found id row rows)

-- The rows without the one with an id, and that row behind them as the database inserts it.
abbrev pub reinserted : Text → Text → Pipeline → List Pipeline → List Pipeline
reinserted id fresh row rows =
    keep (λ r. not (has_id id r)) rows
    ++ record row { id = fresh; credentials_external = false } ∷ []

pub delete-found :
    (id : Text) (row : Pipeline) (db : Db)
    → db.faults ≡ []
    → find (has_id id) db.pipelines ≡ some row
    → (t : Db) × (delete_pipeline id db ≡ (ok tt, t))
      × (t.faults ≡ [])
      × (t.pipelines ≡ keep (λ r. not (has_id id r)) db.pipelines)
unfolding delete_pipeline statement
delete-found id row db f h =
    let found = has_found id row db.pipelines h in
    let done : (delete_pipeline id db).0 ≡ ok tt = ground arith in
    (
      (delete_pipeline id db).1,
      ap (λ r. (r, (delete_pipeline id db).1)) done,
      ground arith,
      ground arith,
    )

create-fresh :
    (fresh : Text) (row : Pipeline) (db : Db)
    → db.faults ≡ []
    → has (has_id fresh) db.pipelines ≡ false
    → has (has_name row.customer_slug row.name) db.pipelines ≡ false
    → (create_pipeline fresh row db).1.pipelines
      ≡ db.pipelines ++ record row { id = fresh; credentials_external = false } ∷ []
unfolding create_pipeline insert_pipeline statement
create-fresh fresh row db f i n = ground arith

pub create-reinserted :
    (id fresh : Text) (row : Pipeline) (rows : List Pipeline) (db : Db)
    → db.faults ≡ []
    → db.pipelines ≡ keep (λ r. not (has_id id r)) rows
    → has (has_id fresh) rows ≡ false
    → has (λ r. not (has_id id r) && has_name row.customer_slug row.name r) rows ≡ false
    → (create_pipeline fresh row db).1.pipelines ≡ reinserted id fresh row rows
create-reinserted id fresh row rows db f o i n =
    create-fresh fresh row db f
      (ap (has (has_id fresh)) o
        ∙ (has-keep (λ r. not (has_id id r)) (has_id fresh) rows
            ∙ has_none (λ r. not (has_id id r)) (has_id fresh) rows i))
      (ap (has (has_name row.customer_slug row.name)) o
        ∙ (has-keep (λ r. not (has_id id r)) (has_name row.customer_slug row.name) rows ∙ n))
    ∙ ap (λ rs. rs ++ record row { id = fresh; credentials_external = false } ∷ []) o
