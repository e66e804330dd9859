-- ===== src/Postgres/Pending.antt =====
-- The queued run of a pipeline, read again.
use workspace_api.Base.{
  ℕ, ◌≡◌, refl, ap, sym, ◌∙◌, Bool, true, Option, none, some, List, [], ◌∷◌, ◌++◌, Text, arith,
  keep, order_by, insert_by, ok, find,
}
use workspace_api.Model.{Pipeline, PipelineRun}
use workspace_api.Postgres.Tables.{Db, statement, has_id}
use workspace_api.Postgres.Pipelines.{get_pipeline}
use workspace_api.Postgres.Runs.{
  first_of, is_pending, run_row, insert_run, create_run, get_pending_run,
}

module _ {A : Type 0} where
  first_of-insert_by :
      (k : A → ℕ) (x : A) (xs : List A) → first_of (insert_by k x xs) ≡ none → x ∷ xs ≡ []
  unfolding insert_by
  first_of-insert_by k x [] h = cc
  first_of-insert_by k x (y ∷ xs) h = ground arith

  first_of-order_by : (k : A → ℕ) (xs : List A) → first_of (order_by k xs) ≡ none → xs ≡ []
  unfolding order_by
  first_of-order_by k [] h = refl
  first_of-order_by k (x ∷ xs) h = ground (arith, first_of-insert_by k x (order_by k xs) h)

  keep-append_one :
      (p : A → Bool) (xs : List A) (x : A)
      → keep p xs ≡ []
      → p x ≡ true
      → keep p (xs ++ x ∷ []) ≡ x ∷ []
  unfolding keep
  keep-append_one p [] x h e = rw e
  keep-append_one p (y ∷ xs) x h e = ground (arith, keep-append_one p xs x)

pub get_pending_run_again :
    (id : Text) (db t : Db) (run : PipelineRun)
    → get_pending_run id db ≡ (ok (some run), t)
    → t.faults ≡ []
    → get_pending_run id t ≡ (ok (some run), t)
unfolding get_pending_run statement
get_pending_run_again id db t run h e = ground arith

pub get_pipeline_again :
    (id : Text) (t : Db) (row : Pipeline)
    → find (has_id id) t.pipelines ≡ some row
    → t.faults ≡ []
    → get_pipeline id t ≡ (ok row, t)
unfolding get_pipeline statement
get_pipeline_again id t row h e = ground arith

pub get_pipeline-found :
    (id : Text) (db t : Db) (row : Pipeline)
    → get_pipeline id db ≡ (ok row, t)
    → find (has_id id) t.pipelines ≡ some row
unfolding get_pipeline statement
get_pipeline-found id db t row h = ground arith

pub pipelines-get_pending_run :
    (id : Text) (db : Db) → (get_pending_run id db).1.pipelines ≡ db.pipelines
unfolding get_pending_run statement
pipelines-get_pending_run id db = ground arith

pub pipelines-create_run :
    (fresh : Text) (now : ℕ) (run : PipelineRun) (db : Db)
    → (create_run fresh now run db).1.pipelines ≡ db.pipelines
unfolding create_run insert_run statement
pipelines-create_run fresh now run db = ground arith

-- The first of the queued runs, in the order of their creation.
abbrev oldest : Text → List PipelineRun → Option PipelineRun
oldest id runs = first_of (order_by (λ run. run.created_at) (keep (is_pending id) runs))

none_queued :
    (id : Text) (db t : Db) → get_pending_run id db ≡ (ok none, t) → oldest id t.runs ≡ none
unfolding get_pending_run statement
none_queued id db t h = ground arith

created :
    (fresh : Text) (now : ℕ) (r run : PipelineRun) (db t : Db)
    → create_run fresh now r db ≡ (ok run, t)
    → (run_row fresh now r ≡ run) × (t.runs ≡ db.runs ++ run ∷ [])
unfolding create_run insert_run statement
created fresh now r run db t h = ground arith

read_oldest :
    (id : Text) (t : Db) → t.faults ≡ [] → get_pending_run id t ≡ (ok (oldest id t.runs), t)
unfolding get_pending_run statement
read_oldest id t e = ground arith

-- A run that is queued when there is none is the queued run.
pub get_pending_run-create_run :
    (id fresh : Text) (now : ℕ) (db db1 t : Db) (r run : PipelineRun)
    → get_pending_run id db ≡ (ok none, db1)
    → create_run fresh now r db1 ≡ (ok run, t)
    → is_pending id (run_row fresh now r) ≡ true
    → t.faults ≡ []
    → get_pending_run id t ≡ (ok (some run), t)
unfolding order_by insert_by
get_pending_run-create_run id fresh now db db1 t r run h k p e =
    let (row, added) = created fresh now r run db1 t k in
    let no_run =
      first_of-order_by (λ q. q.created_at) (keep (is_pending id) db1.runs)
        (none_queued id db db1 h) in
    let one =
      keep-append_one (is_pending id) db1.runs run no_run (ap (is_pending id) (sym row) ∙ p) in
    read_oldest id t e
    ∙ ap (λ runs. (ok (first_of (order_by (λ q. q.created_at) runs)), t))
        (ap (keep (is_pending id)) added ∙ one)
