-- ===== src/Mirror/Sync/Rendered.antt =====
-- workspace/pipelinemirror.go: what a successful sync leaves in the repo.
use workspace_api.Base.{
  ◌≡◌, refl, ap, subst, ◌∙◌, true, false, Option, none, some, List, [], Text, is_some, Map, lookup,
  Result, box_credential_not_found, repo_file_changed, ok, err, M, next, ◌>>=◌, attempted,
  next-eq-ok, Ensures, Ensures-bind, Ensures-pure, Ensures-fail, of_result,
}
use workspace_api.Model.{
  Pipeline, Workspace, CommitAuthor, DefinitionFile, DefinitionRender, CredentialFile,
}
use workspace_api.Postgres.{list_pipelines, list_credentials, get_credential_renders}
use workspace_api.Mirror.Slug.{pipeline_file_slugs}
use workspace_api.Mirror.World.{RepoClient, World, Mirror, on_db}
use workspace_api.Mirror.Files.{
  is_credential_path, is_definition_path, render_pipeline_files, build_credential_files,
}
use workspace_api.Mirror.Effects.{IsRepo}
use workspace_api.Mirror.Converge.{converge}
use workspace_api.Mirror.Converge.Expected.{expected}
use workspace_api.Mirror.Converge.Whole.{AreCredentialPaths, converge-expected}
use workspace_api.Mirror.Sync.{
  copied, resolve_file_uploads, client_for, DesiredCredentials, credential_files_for,
  desired_credential_files, definition_render_rows, after_first, with_retry, sync_with,
  sync_customer,
}
use workspace_api.Mirror.Sync.Paths.{
  AllPaths, render_pipeline_files-paths, build_credential_files-paths,
}

module _ {R : Type 0} (m : Mirror R) where
  abbrev HasPaths : DesiredCredentials m → Type 0
  HasPaths wanted = AreCredentialPaths wanted.0

  none_yet : AllPaths {V = CredentialFile} is_credential_path true []
  unfolding lookup
  none_yet q h = cc

  no_definitions : AllPaths {V = DefinitionFile} is_credential_path false []
  unfolding lookup
  no_definitions q h = cc

  credential_files_for-paths :
      (slug : Text) (ps : List Pipeline) (slugs extra : Map Text) (key : Result Text)
      → Ensures (credential_files_for m slug ps slugs extra key) (λ wanted t. HasPaths wanted)
  unfolding credential_files_for AreCredentialPaths
  credential_files_for-paths slug ps slugs extra (ok key) =
      let P : DesiredCredentials m → World R → Type 0 = λ wanted t. HasPaths wanted in
      Ensures-bind (on_db (list_credentials slug)) _ (λ _. Unit {0}) P (λ w t a e. tt)
        λ credentials _.
          Ensures-bind (on_db (get_credential_renders slug)) _ (λ _. Unit {0}) P (λ w t a e. tt)
            λ renders _.
              Ensures-bind (build_credential_files m slug slugs (copied credentials extra) ps []) _
                (AllPaths is_credential_path true) P
                (λ w t a e.
                  build_credential_files-paths m slug slugs (copied credentials extra) ps [] w t
                    none_yet e)
                λ files all. Ensures-pure HasPaths (some files, key, renders) all
  credential_files_for-paths slug ps slugs extra (err box_credential_not_found) =
      Ensures-pure HasPaths (some [], [], []) none_yet
  credential_files_for-paths slug ps slugs extra (err e) =
      Ensures-fail (λ wanted t. HasPaths wanted) e

  desired_credential_files-paths :
      (slug : Text) (ps : List Pipeline) (slugs extra : Map Text)
      (key : Option (Text → Result Text))
      → Ensures (desired_credential_files m slug ps slugs extra key) (λ wanted t. HasPaths wanted)
  unfolding desired_credential_files AreCredentialPaths
  desired_credential_files-paths slug ps slugs extra none = Ensures-pure HasPaths (none, [], []) tt
  desired_credential_files-paths slug ps slugs extra (some age_key) =
      credential_files_for-paths slug ps slugs extra (age_key slug)

  -- A retried operation promises what the operation does.
  Ensures-after_first :
      (once : M (World R) (Unit {0})) (P : World R → Type 0)
      → Ensures once (λ u t. P t)
      → (r : Result (Unit {0}) × World R) (t : World R) → ((u : World R) → r ≡ (ok tt, u) → P u)
      → next (attempted r) (after_first m once) ≡ (ok tt, t)
      → P t
  unfolding after_first
  Ensures-after_first once P h (ok u, w) t k e = subst P (ap (λ r. r.1) e) (k w refl)
  Ensures-after_first once P h (err repo_file_changed, w) t k e = h w t tt e
  Ensures-after_first once P h (err x, w) t k e = cc

  Ensures-with_retry :
      (once : M (World R) (Unit {0})) (P : World R → Type 0)
      → Ensures once (λ u t. P t)
      → Ensures (with_retry m once) (λ u t. P t)
  unfolding with_retry
  Ensures-with_retry once P h w t u e =
      Ensures-after_first once P h (once w) t (λ v k. h w v tt k) e

  module _ (file : R → Text → Option Text) (client : RepoClient R) (repo : IsRepo client file) where
    -- The files of a set of definitions are in the repo.
    abbrev pub Holds : Map DefinitionFile → World R → Type 0
    Holds desired t =
        (q : Text) (df : DefinitionFile)
        → lookup q desired ≡ some df
        → file t.repo q ≡ some df.content

    converge-Holds :
        (slug : Text) (author : Option CommitAuthor) (desired : Map DefinitionFile)
        (wanted : DesiredCredentials m) (def_renders : Map DefinitionRender)
        → HasPaths wanted
        → AllPaths is_credential_path false desired
        → Ensures
            (converge m client author slug desired wanted.0 wanted.1 wanted.2 def_renders)
            (λ u t. Holds desired t)
    unfolding expected
    converge-Holds slug author desired wanted def_renders c all w t u e q df f =
        converge-expected file client repo author m slug desired wanted.0 wanted.1 wanted.2
          def_renders w t c e q (all q (ap is_some f))
        ∙ ap (λ o. expected o (is_definition_path q) (file w.repo q)) f

    -- The calls after the definitions are rendered.
    tail-Holds :
        (slug : Text) (author : Option CommitAuthor) (desired : Map DefinitionFile)
        (ps : List Pipeline) (slugs extra : Map Text)
        → AllPaths is_credential_path false desired
        → Ensures
            (desired_credential_files m slug ps slugs extra m.age_keys >>= λ wanted.
              definition_render_rows m slug >>= λ def_renders.
              with_retry m
                (converge m client author slug desired wanted.0 wanted.1 wanted.2 def_renders))
            (λ u t. Holds desired t)
    tail-Holds slug author desired ps slugs extra all =
        let P : Unit {0} → World R → Type 0 = λ u t. Holds desired t in
        Ensures-bind (desired_credential_files m slug ps slugs extra m.age_keys) _ HasPaths P
          (desired_credential_files-paths slug ps slugs extra m.age_keys)
          λ wanted c.
            Ensures-bind (definition_render_rows m slug) _ (λ _. Unit {0}) P (λ w t a e. tt)
              λ def_renders _.
                Ensures-with_retry
                  (converge m client author slug desired wanted.0 wanted.1 wanted.2 def_renders)
                  (Holds desired) (converge-Holds slug author desired wanted def_renders c all)

    -- The entries of the rendered map are in the repo after a sync that succeeds.
    pub sync_customer-Holds :
        (slug : Text) (author : Option CommitAuthor) (ws : Workspace) (w t : World R)
        → client_for m slug ≡ ok (some (client, ws))
        → sync_customer m slug author w ≡ (ok tt, t)
        → (rows : List Pipeline) × (desired : Map DefinitionFile) × ((list_pipelines slug w.db).0
            ≡ ok rows)
          × (render_pipeline_files m
                (resolve_file_uploads m ws rows).0
                (pipeline_file_slugs (resolve_file_uploads m ws rows).0)
                []
              ≡ ok desired)
          × Holds desired t
    unfolding sync_customer sync_with on_db
    sync_customer-Holds slug author ws w t scope h =
        let (rows, w1, e1, h1) = next-eq-ok (on_db (list_pipelines slug) w) _ (rw scope at h) in
        let resolved = resolve_file_uploads m ws rows in
        let slugs = pipeline_file_slugs resolved.0 in
        let rendered = render_pipeline_files m resolved.0 slugs [] in
        let (desired, w2, e2, h2) = next-eq-ok (of_result rendered w1) _ h1 in
        let e3 : rendered ≡ ok desired = ap (λ r. r.0) e2 in
        (
          rows,
          desired,
          ap (λ r. r.0) e1,
          e3,
          tail-Holds slug author desired resolved.0 slugs resolved.1
              (render_pipeline_files-paths m resolved.0 slugs [] no_definitions e3) w2 t tt h2,
        )
