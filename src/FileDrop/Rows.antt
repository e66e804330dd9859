-- ===== src/FileDrop/Rows.antt =====
-- workspace/filedrop.go: the row of the pipeline, before and after its files are rewritten.
use workspace_api.Base.{
  ℕ, ◌≡◌, refl, ap, sym, subst, ◌∙◌, Bool, true, false, not, some, List, [], ◌∷◌, Text, codes, same,
  find, change, map, ok, ◌>>=◌, pure, fail, of_result, next-eq-ok, or_else, arith, if◌then◌else◌,
  pipeline_not_found, not_file_upload_pipeline,
}
use workspace_api.Model.{Pipeline, Workspace}
use workspace_api.Postgres
use workspace_api.Postgres.{Db, has_id, updated_row, statement}
use workspace_api.Postgres.Pending.{get_pipeline-found}
use workspace_api.Postgres.Effects.{pipelines-update_pipeline}
use workspace_api.Schema.Types.{UploadedFile}
use workspace_api.FileDrop.Service.{
  Bucket, FileDropService, on_rows, parse_file_upload_config, owned_file_upload_pipeline, fresh_or,
  update_files,
}

-- A file as its JSON keeps it.
abbrev pub stored : UploadedFile → UploadedFile
stored f = record f { missing = false }

-- What is encoded decodes to the files, without the flag that is no part of the JSON.
abbrev pub IsFileCodec : {O : Type 0} → FileDropService O → Type 0
IsFileCodec s =
    (files : List UploadedFile) (raw : Text)
    → s.marshal_files files ≡ ok raw
    → parse_file_upload_config s raw ≡ ok (map stored files)

pub find-has_id :
    (id : Text) (rows : List Pipeline) (row : Pipeline)
    → find (has_id id) rows ≡ some row
    → same row.id id ≡ true
unfolding find
find-has_id id [] row h = cc
find-has_id id (r ∷ rows) row h = by_test (same r.id id) refl h (find-has_id id rows row)
  where
    by_test :
        (b : Bool)
        → same r.id id ≡ b
        → (if b then some r else find (has_id id) rows) ≡ some row
        → (find (has_id id) rows ≡ some row → same row.id id ≡ true)
        → same row.id id ≡ true
    by_test true e k ih = subst (λ (o : Pipeline). same o.id id ≡ true) (ap (λ o. or_else o r) k) e
    by_test false e k ih = ih k

find-change_row :
    (id : Text) (p row : Pipeline) (rows : List Pipeline)
    → find (has_id id) rows ≡ some row
    → find (has_id id) (change (has_id id) (updated_row p) rows) ≡ some (updated_row p row)
unfolding find change
find-change_row id p row [] h = cc
find-change_row id p row (r ∷ rows) h =
    by_test (same r.id id) refl h (find-change_row id p row rows)
  where
    by_test :
        (b : Bool)
        → same r.id id ≡ b
        → (if b then some r else find (has_id id) rows) ≡ some row
        → (find (has_id id) rows ≡ some row
            → find (has_id id) (change (has_id id) (updated_row p) rows) ≡ some (updated_row p row))
        → find (has_id id) (
            if b
            then updated_row p r ∷ change (has_id id) (updated_row p) rows
            else r ∷ change (has_id id) (updated_row p) rows)
          ≡ some (updated_row p row)
    by_test true e k ih = rw e (ap (λ o. some (updated_row p (or_else o r))) k)
    by_test false e k ih = rw e (ih k)

pipelines-get_pipeline :
    (id : Text) (db : Db) → (Postgres.get_pipeline id db).1.pipelines ≡ db.pipelines
unfolding Postgres.get_pipeline statement
pipelines-get_pipeline id db = ground arith

module _ {O : Type 0} (s : FileDropService O) where
  fresh_same :
      (given : Pipeline) (db : Db)
      → find (has_id given.id) db.pipelines ≡ some given
      → fresh_or s given (Postgres.get_pipeline given.id db).0 ≡ given
  unfolding Postgres.get_pipeline statement
  fresh_same given db h = ground arith

  -- The row that a rewriting of the files leaves, and what its config decodes to.
  abbrev pub IsRewritten :
      Pipeline → ℕ → (List UploadedFile → List UploadedFile) → Bucket O → Type 0
  IsRewritten row now mutate t =
      (files : List UploadedFile) × (raw : Text) × (parse_file_upload_config s row.source_config
        ≡ ok files)
      × (find (has_id row.id) t.db.pipelines
          ≡ some (record row { source_config = raw; updated_at = now }))
      × (parse_file_upload_config s raw ≡ ok (map stored (mutate files)))

  pub update_files-IsRewritten :
      (row : Pipeline) (now : ℕ) (mutate : List UploadedFile → List UploadedFile) (w t : Bucket O)
      → IsFileCodec s
      → find (has_id row.id) w.db.pipelines ≡ some row
      → update_files s row now mutate w ≡ (ok tt, t)
      → IsRewritten row now mutate t
  unfolding update_files on_rows
  update_files-IsRewritten row now mutate w t codec found h =
      let w1 : Bucket O = record w { db = (Postgres.get_pipeline row.id w.db).1 } in
      let h1 =
        subst
          (λ (p : Pipeline).
            (of_result (parse_file_upload_config s p.source_config) >>= λ files.
            of_result (s.marshal_files (mutate files)) >>= λ raw.
            on_rows (Postgres.update_pipeline (record p { source_config = raw; updated_at = now })))
              w1
            ≡ (ok tt, t))
          (fresh_same row w.db found) h in
      let (files, w2, parsed, h2) =
        next-eq-ok (of_result (parse_file_upload_config s row.source_config) w1) _ h1 in
      let (raw, w3, made, h3) = next-eq-ok (of_result (s.marshal_files (mutate files)) w2) _ h2 in
      let rows : w3.db.pipelines ≡ w.db.pipelines =
        ap (λ z. z.1.db.pipelines) (sym made)
        ∙ (ap (λ z. z.1.db.pipelines) (sym parsed) ∙ pipelines-get_pipeline row.id w.db) in
      let written =
        pipelines-update_pipeline (record row { source_config = raw; updated_at = now }) w3.db t.db
          (ap (λ z. (z.0, z.1.db)) h3) in
      (
        files,
        raw,
        ap (λ z. z.0) parsed,
        ap (find (has_id row.id)) (
              written
              ∙ ap
                  (change (has_id row.id)
                    (updated_row (record row { source_config = raw; updated_at = now })))
                  rows)
            ∙ find-change_row row.id (record row { source_config = raw; updated_at = now }) row
                w.db.pipelines found,
        codec (mutate files) raw (ap (λ z. z.0) made),
      )

  pub owned-found :
      (caller id : Text) (ws : Workspace) (row : Pipeline) (w t : Bucket O)
      → owned_file_upload_pipeline s caller id w ≡ (ok (ws, row), t)
      → (find (has_id id) w.db.pipelines ≡ some row) × (t.db.pipelines ≡ w.db.pipelines)
  unfolding owned_file_upload_pipeline on_rows
  owned-found caller id ws row w t h =
      let (c, w0, known, h1) = next-eq-ok (of_result (s.workspace_by_user caller) w) _ h in
      let (r, w1, got, h2) = next-eq-ok (on_rows (Postgres.get_pipeline id) w0) _ h1 in
      let (own, same_state) =
        by_tests (same r.customer_slug c.slug) (same r.source_type (codes "file_upload")) c r w1
          h2 in
      let rows : w1.db.pipelines ≡ w.db.pipelines =
        ap (λ z. z.1.db.pipelines) (sym got)
        ∙ (pipelines-get_pipeline id w0.db ∙ ap (λ z. z.1.db.pipelines) (sym known)) in
      let found = get_pipeline-found id w0.db w1.db r (ap (λ z. (z.0, z.1.db)) got) in
      (
        ap (find (has_id id)) (sym rows) ∙ (found ∙ ap some own),
        ap (λ (z : Bucket O). z.db.pipelines) (sym same_state) ∙ rows,
      )
    where
      by_tests :
          (b1 b2 : Bool) (c : Workspace) (r : Pipeline) (w1 : Bucket O)
          → (if not b1
                then fail {A = Workspace × Pipeline} pipeline_not_found
                else if not b2
                then fail not_file_upload_pipeline
                else pure (c, r))
              w1
            ≡ (ok (ws, row), t)
          → (r ≡ row) × (w1 ≡ t)
      by_tests false b2 c r w1 k = cc
      by_tests true false c r w1 k = cc
      by_tests true true c r w1 k = (cc, cc)
