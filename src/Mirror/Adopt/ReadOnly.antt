-- ===== src/Mirror/Adopt/ReadOnly.antt =====
-- workspace/pipelinemirror_adopt.go: the adopt pass and the files of the repo.
use workspace_api.Base.{
  ℕ, ◌≡◌, refl, Bool, not, ◌&&◌, ◌||◌, Option, none, some, List, [], ◌∷◌, Text, same, mem, codes,
  is_empty, or_else, is_some, Map, lookup, Outcome, Result, ok, err, pipeline_already_exists, M,
  ◌>>=◌, ◌>>◌, pure, attempt, for_each, if◌then◌else◌, is_ok,
}
use workspace_api.Model.{
  Pipeline, Workspace, DefinitionRender, CredentialRender, file_adopted, file_refused,
}
use workspace_api.Postgres.{
  list_pipelines, update_pipeline, get_definition_renders, get_credential_renders,
  mark_definition_refused, import_pipeline,
}
use workspace_api.Mirror.Slug.{pipeline_file_slugs}
use workspace_api.Mirror.World.{RepoClient, World, Mirror, on_repo, on_db}
use workspace_api.Mirror.Files.{credential_path, slug_of, sorted_paths}
use workspace_api.Mirror.Effects.{
  IsRepo, Leaves, Leaves-bind, Leaves-if, Leaves-on_db, Leaves-attempt, Leaves-for_each,
}
use workspace_api.Mirror.Converge.{record_definition_render, tell, mark_credentials_external}
use workspace_api.Mirror.Converge.Steps.{Leaves-record, Leaves-tell, Leaves-get}
use workspace_api.Mirror.Converge.Credentials.{Leaves-mark}
use workspace_api.Mirror.Sync.{client_for}
use workspace_api.Mirror.Import.{
  ImportedSet, AdoptState, mark_reported, credential_path_for, tracked_paths, all_taken,
  report_import_skip, imported, import_parsed, import_file, import_paths, import_unrendered,
  parse_importable_pipeline,
}
use workspace_api.Mirror.Adopt.{
  refuse_adoption, adopt_parsed, adopt_in_tree, adopt_tracked, adopt_definition, load_adopt_state,
  is_foreign, flag_foreign, flag_with, flag_foreign_credential_files, adopt_with, adopt_customer,
  parse_adoptable_pipeline,
}

module _ {R : Type 0} (file : R → Text → Option Text) (m : Mirror R) (q : Text) where
  Leaves-pure : {A : Type 0} (a : A) → Leaves file (pure a) q
  Leaves-pure a w = refl

  Leaves-refuse : (p : Pipeline) (sha : Text) → Leaves file (refuse_adoption m p sha) q
  unfolding refuse_adoption
  Leaves-refuse p sha =
      let mark = mark_definition_refused p.id sha in
      let told = tell m p.customer_slug file_refused p.id in
      Leaves-bind file q (attempt (on_db mark)) (λ marked. if is_ok marked then told else pure tt)
        (Leaves-attempt file q (on_db mark) (Leaves-on_db file q mark))
        λ marked.
          Leaves-if file q (is_ok marked) told (pure tt)
            (Leaves-tell file m q p.customer_slug file_refused p.id) (Leaves-pure tt)

  Leaves-adopt_parsed :
      (now : ℕ) (p : Pipeline) (path sha : Text) (parsed : Outcome Text Pipeline)
      → Leaves file (adopt_parsed m now p path sha parsed) q
  unfolding adopt_parsed
  Leaves-adopt_parsed now p path sha (err reason) = Leaves-refuse p sha
  Leaves-adopt_parsed now p path sha (ok adopted) =
      let update = update_pipeline (record adopted { updated_at = now }) in
      let recorded = record_definition_render m p.id path sha in
      let told = tell m p.customer_slug file_adopted p.id in
      Leaves-bind file q (on_db update) (λ _. recorded >> told) (Leaves-on_db file q update)
        λ _.
          Leaves-bind file q recorded (λ _. told) (Leaves-record file m q p.id path sha)
            λ _. Leaves-tell file m q p.customer_slug file_adopted p.id

  Leaves-flag_with :
      (ps : List Pipeline) (age_tree : Map Text) (renders : Result (Map CredentialRender))
      → Leaves file (flag_with m ps age_tree renders) q
  unfolding flag_with flag_foreign
  Leaves-flag_with ps age_tree (err e) = Leaves-pure tt
  Leaves-flag_with ps age_tree (ok renders) =
      let slugs = pipeline_file_slugs ps in
      Leaves-for_each file q ps (flag_foreign m renders slugs age_tree) λ p.
        Leaves-if file q
          (not p.credentials_external
            && is_foreign m (lookup p.id renders)
                (lookup (credential_path (slug_of slugs p.id)) age_tree))
          (mark_credentials_external m p.id) (pure tt) (Leaves-mark file m p.id q) (Leaves-pure tt)

  Leaves-flag_foreign_credential_files :
      (slug : Text) (ps : List Pipeline) (age_tree : Map Text)
      → Leaves file (flag_foreign_credential_files m slug ps age_tree) q
  unfolding flag_foreign_credential_files
  Leaves-flag_foreign_credential_files slug ps age_tree =
      let read = attempt (on_db (get_credential_renders slug)) in
      Leaves-if file q (not m.credential_renders || not m.ownership) (pure tt)
        (read >>= flag_with m ps age_tree) (Leaves-pure tt)
        (Leaves-bind file q read (flag_with m ps age_tree)
          (Leaves-attempt file q (on_db (get_credential_renders slug))
            (Leaves-on_db file q (get_credential_renders slug)))
          (Leaves-flag_with ps age_tree))

  Leaves-report : (path sha reason : Text) → Leaves file (report_import_skip m path sha reason) q
  unfolding report_import_skip mark_reported
  Leaves-report path sha reason =
      Leaves-if file q (is_empty reason || not m.logger) (pure tt) (mark_reported m path sha)
        (Leaves-pure tt) (λ w. refl)

  Leaves-imported :
      (path sha : Text) (p : Pipeline) (taken : ImportedSet) (r : Result Pipeline)
      → Leaves file (imported m path sha p taken r) q
  unfolding imported
  Leaves-imported path sha p taken (ok row) =
      Leaves-bind file q (record_definition_render m p.id path sha) _
        (Leaves-record file m q p.id path sha) λ _ w. refl
  Leaves-imported path sha p taken (err pipeline_already_exists) =
      Leaves-bind file q
        (report_import_skip m path sha (codes "a pipeline with that id or name already exists")) _
        (Leaves-report path sha (codes "a pipeline with that id or name already exists"))
        λ _ w. refl
  Leaves-imported path sha p taken (err e) = λ w. refl

  Leaves-import_parsed :
      (st : AdoptState) (path sha : Text) (taken : ImportedSet) (parsed : Outcome Text Pipeline)
      → Leaves file (import_parsed m st path sha taken parsed) q
  unfolding import_parsed
  Leaves-import_parsed st path sha taken (err reason) =
      Leaves-bind file q (report_import_skip m path sha reason) _ (Leaves-report path sha reason)
        λ _ w. refl
  Leaves-import_parsed st path sha taken (ok parsed) =
      let external = is_some (lookup (credential_path_for path) st.age_tree) in
      let p : Pipeline = record parsed { credentials_external = external } in
      Leaves-bind file q (attempt (on_db (import_pipeline p))) (imported m path sha p taken)
        (Leaves-attempt file q (on_db (import_pipeline p))
          (Leaves-on_db file q (import_pipeline p)))
        (Leaves-imported path sha p taken)

  module _ (client : RepoClient R) (repo : IsRepo client file) (now : ℕ) (slug : Text) where
    Leaves-import_file :
        (st : AdoptState) (taken : ImportedSet) (path : Text)
        → Leaves file (import_file m client now slug st taken path) q
    unfolding import_file
    Leaves-import_file st taken path =
        Leaves-bind file q (on_repo (client.get_contents path)) _
          (Leaves-get file client repo none path q)
          λ got.
            Leaves-import_parsed st path (or_else (lookup path st.yaml_tree) []) taken
              (parse_importable_pipeline m now got.0 slug taken)

    Leaves-import_paths :
        (st : AdoptState) (tracked paths : List Text) (taken : ImportedSet)
        → Leaves file (import_paths m client now slug st tracked paths taken) q
    unfolding import_paths
    Leaves-import_paths st tracked [] taken = Leaves-pure tt
    Leaves-import_paths st tracked (path ∷ paths) taken =
        let rest : Bool × ImportedSet → M (World R) (Unit {0}) =
          λ r. import_paths m client now slug st tracked paths r.1 in
        Leaves-if file q (mem path tracked) (import_paths m client now slug st tracked paths taken)
          (import_file m client now slug st taken path >>= rest)
          (Leaves-import_paths st tracked paths taken)
          (Leaves-bind file q (import_file m client now slug st taken path) rest
            (Leaves-import_file st taken path) λ r. Leaves-import_paths st tracked paths r.1)

    Leaves-import_unrendered :
        (st : AdoptState) → Leaves file (import_unrendered m client now slug st) q
    unfolding import_unrendered
    Leaves-import_unrendered st =
        Leaves-if file q m.importer _ (pure tt)
          (Leaves-import_paths st (tracked_paths st.renders) (sorted_paths st.yaml_tree)
            (all_taken st.pipelines))
          (Leaves-pure tt)

    Leaves-adopt_in_tree :
        (p : Pipeline) (row : DefinitionRender) (sha : Option Text)
        → Leaves file (adopt_in_tree m client now p row sha) q
    unfolding adopt_in_tree
    Leaves-adopt_in_tree p row none = Leaves-pure tt
    Leaves-adopt_in_tree p row (some sha) =
        Leaves-if file q (same sha row.blob_sha || same sha row.refused_blob_sha) (pure tt) _
          (Leaves-pure tt)
          (Leaves-bind file q (on_repo (client.get_contents row.path)) _
            (Leaves-get file client repo none row.path q)
            λ got. Leaves-adopt_parsed now p row.path sha (parse_adoptable_pipeline m got.0 p))

    Leaves-adopt_definition :
        (renders : Map DefinitionRender) (tree : Map Text) (p : Pipeline)
        → Leaves file (adopt_definition m client now renders tree p) q
    unfolding adopt_definition adopt_tracked
    Leaves-adopt_definition renders tree p = tracked (lookup p.id renders)
      where
        tracked :
            (row : Option DefinitionRender) → Leaves file (adopt_tracked m client now p tree row) q
        tracked none = Leaves-pure tt
        tracked (some row) = Leaves-adopt_in_tree p row (lookup row.path tree)

    Leaves-load : (slug2 : Text) → Leaves file (load_adopt_state m client slug2) q
    unfolding load_adopt_state on_repo
    Leaves-load slug2 =
        Leaves-bind file q (on_repo client.list_tree) _ (λ w. repo.list_file w.repo q)
          λ tree.
            Leaves-bind file q (on_db (list_pipelines slug2)) _
              (Leaves-on_db file q (list_pipelines slug2))
              λ ps.
                Leaves-bind file q (on_db (get_definition_renders slug2)) _
                  (Leaves-on_db file q (get_definition_renders slug2)) λ rows w. refl

    Leaves-adopt_with : (ws : Workspace) → Leaves file (adopt_with m now slug (some (client, ws))) q
    unfolding adopt_with
    Leaves-adopt_with ws =
        Leaves-if file q (not m.definition_renders) (pure tt) _ (Leaves-pure tt) (
          Leaves-bind file q (load_adopt_state m client slug) _ (Leaves-load slug) λ st.
            let adopt =
              for_each st.pipelines (adopt_definition m client now st.renders st.yaml_tree) in
            let flag = flag_foreign_credential_files m slug st.pipelines st.age_tree in
            let import = import_unrendered m client now slug st in
            Leaves-bind file q (import >> adopt) (λ _. flag)
              (Leaves-bind file q import (λ _. adopt) (Leaves-import_unrendered st)
                λ _.
                  Leaves-for_each file q st.pipelines
                    (adopt_definition m client now st.renders st.yaml_tree)
                    (Leaves-adopt_definition st.renders st.yaml_tree))
              λ _. Leaves-flag_foreign_credential_files slug st.pipelines st.age_tree)

    -- The adopt pass of a customer in scope, whatever comes of it, leaves every file of the repo as it
    -- is.
    pub adopt_customer-ReadOnly :
        (ws : Workspace)
        → client_for m slug ≡ ok (some (client, ws))
        → (w : World R) → file (adopt_customer m now slug w).1.repo q ≡ file w.repo q
    unfolding adopt_customer
    adopt_customer-ReadOnly ws scope w = rw (scope, Leaves-adopt_with ws w)
