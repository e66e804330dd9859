-- ===== src/FileDrop/Recorded.antt =====
-- workspace/filedrop.go: what an upload leaves in the database.
use workspace_api.Base.{
  ℕ, ltb, ◌==◌, ◌≡◌, keep, same_refl, refl, ap, sym, subst, ◌∙◌, Bool, true, false, not, Option,
  none, some, List, [], ◌∷◌, ◌++◌, Text, same, same→eq, find, map, ok, ok-inj, fail, of_result,
  next-eq-ok, if◌then◌else◌, invalid_upload_file,
}
use workspace_api.Model.{Pipeline}
use workspace_api.Postgres.{has_id}
use workspace_api.Schema.Types.{UploadedFile}
use workspace_api.Schema.Sources.{is_valid_upload_filename}
use workspace_api.FileDrop.Names.{file_drop_key}
use workspace_api.FileDrop.Service.{
  Bucket, FileDropService, on_store, upload_storage, upload_limit, parse_file_upload_config,
  owned_file_upload_pipeline, update_files, without_file, uploaded, upload_sized, upload,
}
use workspace_api.FileDrop.Rows.{
  stored, IsFileCodec, find-has_id, IsRewritten, update_files-IsRewritten, owned-found,
}

abbrev pub with_name : Text → List UploadedFile → List UploadedFile
with_name filename files = keep (λ f. same f.file filename) files

module _ {O : Type 0} (s : FileDropService O) where
  -- The files of one name, and those of the others, after a file was put in the place of its name.
  with_name-put :
      (filename : Text) (file : UploadedFile) (files : List UploadedFile)
      → file.file ≡ filename
      → with_name filename (map stored (without_file s filename files ++ file ∷ []))
        ≡ stored file ∷ []
  unfolding keep
  with_name-put filename file [] e = rw (e, same_refl filename) refl
  with_name-put filename file (f ∷ files) e =
      by_test (same f.file filename) refl (with_name-put filename file files e)
    where
      by_test :
          (b : Bool)
          → same f.file filename ≡ b
          → with_name filename (map stored (without_file s filename files ++ file ∷ []))
            ≡ stored file ∷ []
          → with_name filename (
              map stored (
                (if not b then f ∷ without_file s filename files else without_file s filename files)
                ++ file ∷ []))
            ≡ stored file ∷ []
      by_test true k ih = ih
      by_test false k ih = rw k ih

  others-put :
      (filename : Text) (file : UploadedFile) (files : List UploadedFile)
      → file.file ≡ filename
      → without_file s filename (map stored (without_file s filename files ++ file ∷ []))
        ≡ map stored (without_file s filename files)
  unfolding keep
  others-put filename file [] e = rw (e, same_refl filename) refl
  others-put filename file (f ∷ files) e =
      by_test (same f.file filename) refl (others-put filename file files e)
    where
      by_test :
          (b : Bool)
          → same f.file filename ≡ b
          → without_file s filename (map stored (without_file s filename files ++ file ∷ []))
            ≡ map stored (without_file s filename files)
          → without_file s filename (
              map stored (
                (if not b then f ∷ without_file s filename files else without_file s filename files)
                ++ file ∷ []))
            ≡ map stored
                (if not b then f ∷ without_file s filename files else without_file s filename files)
      by_test true k ih = ih
      by_test false k ih = rw k (ap (λ rest. stored f ∷ rest) ih)

  upload_sized-recorded :
      (caller id filename body stamp : Text) (size now : ℕ) (w t : Bucket O) (file : UploadedFile)
      → IsFileCodec s
      → upload_sized s caller id filename size body now stamp w ≡ (ok file, t)
      → (row : Pipeline) × (find (has_id id) w.db.pipelines ≡ some row)
        × (same row.id id ≡ true)
        × (file ≡ uploaded s filename size stamp)
        × IsRewritten s row now
            (λ files. without_file s filename files ++ uploaded s filename size stamp ∷ [])
            t
  unfolding upload_sized on_store
  upload_sized-recorded caller id filename body stamp size now w t file codec h =
      let ((ws, row), w1, owned, h1) = next-eq-ok (owned_file_upload_pipeline s caller id w) _ h in
      let (s3, w2, usable, h2) = next-eq-ok (of_result (upload_storage ws) w1) _ h1 in
      let (u, w3, put, h3) =
        next-eq-ok (on_store (s.store.put s3 (file_drop_key s3 row.id filename) size body) w2) _
          h2 in
      let (v, w4, updated, h4) =
        next-eq-ok
          (update_files s row now
            (λ files. without_file s filename files ++ uploaded s filename size stamp ∷ []) w3)
          _ h3 in
      let (found, rows) = owned-found s caller id ws row w w1 owned in
      let own = find-has_id id w.db.pipelines row found in
      let kept : w3.db.pipelines ≡ w.db.pipelines =
        ap (λ z. z.1.db.pipelines) (sym put) ∙ (ap (λ z. z.1.db.pipelines) (sym usable) ∙ rows) in
      let known : find (has_id row.id) w3.db.pipelines ≡ some row =
        ap (find (has_id row.id)) kept
        ∙ subst (λ i. find (has_id i) w.db.pipelines ≡ some row) (sym (same→eq row.id id own))
            found in
      let rewritten =
        update_files-IsRewritten s row now
          (λ files. without_file s filename files ++ uploaded s filename size stamp ∷ []) w3 w4
          codec known updated in
      (
        row,
        found,
        own,
        sym (ok-inj (ap (λ z. z.0) h4)),
        subst
            (IsRewritten s row now
              (λ files. without_file s filename files ++ uploaded s filename size stamp ∷ []))
            (ap (λ z. z.1) h4) rewritten,
      )

  upload-sized :
      (caller id filename body stamp : Text) (size : Option ℕ) (now : ℕ) (w t : Bucket O)
      (file : UploadedFile)
      → upload s caller id filename size body now stamp w ≡ (ok file, t)
      → (n : ℕ) × (upload_sized s caller id filename n body now stamp w ≡ (ok file, t))
  unfolding upload
  upload-sized caller id filename body stamp none now w t file h =
      by_name (is_valid_upload_filename filename) h
    where
      by_name :
          (b : Bool)
          → (if not b
                then fail invalid_upload_file
                else fail {A = UploadedFile} invalid_upload_file)
              w
            ≡ (ok file, t)
          → (n : ℕ) × (upload_sized s caller id filename n body now stamp w ≡ (ok file, t))
      by_name true k = cc
      by_name false k = cc
  upload-sized caller id filename body stamp (some n) now w t file h =
      by_tests (is_valid_upload_filename filename) (n == 0) (ltb (upload_limit s) n) h
    where
      by_tests :
          (b1 b2 b3 : Bool)
          → (if not b1
                then fail invalid_upload_file
                else if b2
                then fail invalid_upload_file
                else if b3
                then fail invalid_upload_file
                else upload_sized s caller id filename n body now stamp)
              w
            ≡ (ok file, t)
          → (m : ℕ) × (upload_sized s caller id filename m body now stamp w ≡ (ok file, t))
      by_tests false b2 b3 k = cc
      by_tests true true b3 k = cc
      by_tests true false true k = cc
      by_tests true false false k = (n, k)

  -- After an upload succeeded, the row of the pipeline is as it was but for its config and its time of
  -- change, and of the files in the config exactly one has the uploaded name, which is the file that
  -- was returned; those of other names are as before, in their order. The JSON of the files decodes to
  -- what was encoded, without the flag that is no part of it.
  pub upload-recorded :
      (caller id filename body stamp : Text) (size : Option ℕ) (now : ℕ) (w t : Bucket O)
      (file : UploadedFile)
      → IsFileCodec s
      → upload s caller id filename size body now stamp w ≡ (ok file, t)
      → (row : Pipeline) × (raw : Text) × (before : List UploadedFile) × (files : List UploadedFile)
        × (find (has_id id) w.db.pipelines ≡ some row)
        × (find (has_id id) t.db.pipelines
            ≡ some (record row { source_config = raw; updated_at = now }))
        × (parse_file_upload_config s row.source_config ≡ ok before)
        × (parse_file_upload_config s raw ≡ ok files)
        × (with_name filename files ≡ file ∷ [])
        × (without_file s filename files ≡ map stored (without_file s filename before))
  upload-recorded caller id filename body stamp size now w t file codec h =
      let (n, sized) = upload-sized caller id filename body stamp size now w t file h in
      let (row, found, own, returned, (before, raw, parsed, written, decoded)) =
        upload_sized-recorded caller id filename body stamp n now w t file codec sized in
      (
        row,
        raw,
        before,
        map stored (without_file s filename before ++ uploaded s filename n stamp ∷ []),
        found,
        subst
            (λ i.
              find (has_id i) t.db.pipelines
              ≡ some (record row { source_config = raw; updated_at = now }))
            (same→eq row.id id own) written,
        parsed,
        decoded,
        with_name-put filename (uploaded s filename n stamp) before refl
            ∙ ap (λ f. f ∷ []) (sym returned),
        others-put filename (uploaded s filename n stamp) before refl,
      )
