-- ===== src/Mirror/Sync/Content.antt =====
-- workspace/pipelinemirror.go: the definition that a sync leaves in the repo for a pipeline.
use workspace_api.Base.{
  ◌≡◌, refl, ap, sym, subst, ◌∙◌, Bool, true, false, not, ◌&&◌, ◌||◌, ◌⊎◌, inl, inr, Option, none,
  some, List, [], ◌∷◌, ◌++◌, Text, same, same_refl, has, Map, lookup, insert, lookup-insert, Result,
  ok, err, ok-inj, and_then-eq-ok, arith, if◌then◌else◌,
}
use workspace_api.Model.{Pipeline, Workspace, CommitAuthor, DefinitionFile, is_empty_json}
use workspace_api.Postgres.{list_pipelines}
use workspace_api.Mirror.Slug.{pipeline_file_slugs}
use workspace_api.Mirror.World.{RepoClient, World, Mirror}
use workspace_api.Mirror.Files.{
  pipeline_file_header, definition_path, slug_of, render_pipeline_file, render_pipeline_files,
}
use workspace_api.Mirror.Effects.{IsRepo}
use workspace_api.Mirror.Sync.{
  file_upload, resolved_upload, resolve_each, resolve_file_uploads, client_for, sync_customer,
}
use workspace_api.Mirror.Sync.Rendered.{sync_customer-Holds}

-- The YAML of a pipeline, behind the header of rendered files: every field of the definition is the
-- pipeline's, and its config is the decoded one.
pub record IsRendered {R : Type 0} (m : Mirror R) (p : Pipeline) (content : Text) : Type 0 where
  pub source_config : Text
  pub yaml : Text
  pub decoded :
      (if is_empty_json p.source_config then ok [] else m.unmarshal_config p.source_config)
      ≡ ok source_config
  pub marshalled :
      m.marshal_file (record {
        id = p.id;
        name = p.name;
        source_type = p.source_type;
        source_config = source_config;
        dataset_name = p.dataset_name;
        schedule = p.schedule;
        write_disposition = p.write_disposition;
        merge_strategy = p.merge_strategy;
        enabled = p.enabled;
      })
      ≡ ok yaml
  pub headed : content ≡ pipeline_file_header ++ yaml

-- The path of a pipeline's definition.
abbrev pub path_in : Map Text → Pipeline → Text
path_in slugs p = definition_path (slug_of slugs p.id)

abbrev pub takes : Map Text → Text → Pipeline → Bool
takes slugs path p = same (path_in slugs p) path

has-append :
    {A : Type 0} (test : A → Bool) (x : A) (xs ys : List A)
    → test x ≡ true
    → has test (xs ++ x ∷ ys) ≡ true
unfolding has
has-append test x [] ys h = rw h refl
has-append test x (y ∷ xs) ys h = ground (arith, has-append test x xs ys h)

module _ {R : Type 0} (m : Mirror R) where
  render_pipeline_file-IsRendered :
      (p : Pipeline) (content : Text)
      → render_pipeline_file m p ≡ ok content
      → IsRendered m p content
  unfolding render_pipeline_file
  render_pipeline_file-IsRendered p content h =
      let (config, decoded, h1) =
        and_then-eq-ok
          (if is_empty_json p.source_config then ok [] else m.unmarshal_config p.source_config) _
          h in
      let (yaml, marshalled, h2) = and_then-eq-ok (m.marshal_file _) _ h1 in
      record {
        source_config = config;
        yaml = yaml;
        decoded = decoded;
        marshalled = marshalled;
        headed = sym (ok-inj h2);
      }

  -- A path that no later pipeline takes keeps its file.
  render_pipeline_files-kept :
      (ps : List Pipeline) (slugs : Map Text) (files desired : Map DefinitionFile) (path : Text)
      → has (takes slugs path) ps ≡ false
      → render_pipeline_files m ps slugs files ≡ ok desired
      → lookup path desired ≡ lookup path files
  unfolding render_pipeline_files has
  render_pipeline_files-kept [] slugs files desired path u h = ap (lookup path) (sym (ok-inj h))
  render_pipeline_files-kept (p ∷ ps) slugs files desired path u h =
      let (content, first, rest) = and_then-eq-ok (render_pipeline_file m p) _ h in
      let file : DefinitionFile = record { pipeline_id = p.id; content = content } in
      let (other, others) = neither (takes slugs path p) (has (takes slugs path) ps) u in
      render_pipeline_files-kept ps slugs (insert (path_in slugs p) file files) desired path others
        rest
      ∙ lookup-insert (path_in slugs p) path file files
      ∙ rw other refl
    where
      neither : (a b : Bool) → (a || b) ≡ false → (a ≡ false) × (b ≡ false)
      neither true b k = cc
      neither false b k = (refl, k)

  render_pipeline_files-content :
      (before after : List Pipeline) (q : Pipeline) (slugs : Map Text)
      (files desired : Map DefinitionFile)
      → has (takes slugs (path_in slugs q)) after ≡ false
      → render_pipeline_files m (before ++ q ∷ after) slugs files ≡ ok desired
      → (content : Text) × IsRendered m q content
        × (lookup (path_in slugs q) desired
            ≡ some (record { pipeline_id = q.id; content = content }))
  unfolding render_pipeline_files
  render_pipeline_files-content [] after q slugs files desired u h =
      let (content, first, rest) = and_then-eq-ok (render_pipeline_file m q) _ h in
      let path = path_in slugs q in
      let file : DefinitionFile = record { pipeline_id = q.id; content = content } in
      (
        content,
        render_pipeline_file-IsRendered q content first,
        render_pipeline_files-kept after slugs (insert path file files) desired path u rest
            ∙ lookup-insert path path file files
            ∙ rw (same_refl path) refl,
      )
  render_pipeline_files-content (p ∷ before) after q slugs files desired u h =
      let (content, first, rest) = and_then-eq-ok (render_pipeline_file m p) _ h in
      render_pipeline_files-content before after q slugs _ desired u rest

  -- What the worker loads for a listed pipeline: the pipeline itself, or what a file upload resolves to.
  abbrev pub IsLoadedAs : Workspace → Pipeline → Pipeline → Type 0
  IsLoadedAs ws p q =
      ((same p.source_type file_upload ≡ false) × (q ≡ p))
      ⊎ ((same p.source_type file_upload ≡ true)
          × (m.has_storage ws ≡ true)
          × (m.resolve_file_upload ws p ≡ ok (some q)))

  -- The part of the listed pipelines that is kept.
  abbrev pub kept : Workspace → List Pipeline → List Pipeline → List Pipeline
  kept ws rows part =
      (resolve_each m ws (has (λ r. same r.source_type file_upload) rows && m.has_storage ws)
        part).0

  resolve_each-here :
      (ws : Workspace) (storage_ok : Bool) (p q : Pipeline) (after : List Pipeline)
      → IsLoadedAs ws p q
      → (same p.source_type file_upload ≡ true → storage_ok ≡ true)
      → (resolve_each m ws storage_ok (p ∷ after)).0 ≡ q ∷ (resolve_each m ws storage_ok after).0
  unfolding resolve_each resolved_upload
  resolve_each-here ws storage_ok p q after (inl (plain, e)) on =
      rw plain (ap (λ x. x ∷ (resolve_each m ws storage_ok after).0) (sym e))
  resolve_each-here ws true p q after (inr (upload, stored, e)) on = rw (upload, e) refl
  resolve_each-here ws false p q after (inr (upload, stored, e)) on = cc (on upload)

  resolve_each-append :
      (ws : Workspace) (storage_ok : Bool) (before rest : List Pipeline)
      → (resolve_each m ws storage_ok (before ++ rest)).0
        ≡ (resolve_each m ws storage_ok before).0 ++ (resolve_each m ws storage_ok rest).0
  unfolding resolve_each resolved_upload
  resolve_each-append ws storage_ok [] rest = refl
  resolve_each-append ws storage_ok (p ∷ before) rest =
      by_tests (not (same p.source_type file_upload)) storage_ok (m.resolve_file_upload ws p)
        (resolve_each-append ws storage_ok before rest)
    where
      xs : List Pipeline × Map Text
      xs = resolve_each m ws storage_ok (before ++ rest)

      ys : List Pipeline × Map Text
      ys = resolve_each m ws storage_ok before

      zs : List Pipeline
      zs = (resolve_each m ws storage_ok rest).0

      by_result :
          (r : Result (Option Pipeline))
          → xs.0 ≡ ys.0 ++ zs
          → (resolved_upload m p.id r xs).0 ≡ (resolved_upload m p.id r ys).0 ++ zs
      by_result (err e) k = k
      by_result (ok none) k = k
      by_result (ok (some x)) k = ap (λ t. x ∷ t) k

      by_tests :
          (plain on : Bool) (r : Result (Option Pipeline))
          → xs.0 ≡ ys.0 ++ zs
          → (if plain
              then (p ∷ xs.0, xs.1)
              else if not on
              then xs
              else resolved_upload m p.id r xs).0
            ≡ (if plain
                then (p ∷ ys.0, ys.1)
                else if not on
                then ys
                else resolved_upload m p.id r ys).0
              ++ zs
      by_tests true on r e = ap (λ t. p ∷ t) e
      by_tests false false r e = e
      by_tests false true r e = by_result r e

  kept-here :
      (ws : Workspace) (before after : List Pipeline) (p q : Pipeline)
      → IsLoadedAs ws p q
      → kept ws (before ++ p ∷ after) (before ++ p ∷ after)
        ≡ kept ws (before ++ p ∷ after) before ++ q ∷ kept ws (before ++ p ∷ after) after
  kept-here ws before after p q loaded =
      let rows = before ++ p ∷ after in
      let storage_ok =
        has (λ (r : Pipeline). same r.source_type file_upload) rows && m.has_storage ws in
      resolve_each-append ws storage_ok before (p ∷ after)
      ∙ ap (λ t. kept ws rows before ++ t)
          (resolve_each-here ws storage_ok p q after loaded (storage_on loaded))
    where
      storage_on :
          IsLoadedAs ws p q
          → same p.source_type file_upload ≡ true
          → (has (λ (r : Pipeline). same r.source_type file_upload) (before ++ p ∷ after)
              && m.has_storage ws)
            ≡ true
      storage_on (inl (plain, e)) upload = cc (plain, upload)
      storage_on (inr (u, stored, e)) upload =
          rw
            (
              has-append (λ (r : Pipeline). same r.source_type file_upload) p before after upload,
              stored,
            )
            refl

  module _ (file : R → Text → Option Text) (client : RepoClient R) (repo : IsRepo client file) where
    -- After a sync that succeeds for a customer in scope, the repo holds the definition of a listed
    -- pipeline `p`, in the form `q` that the worker loads (`p` itself, or what its file upload resolves
    -- to), at the path of its slug, unless a later one takes the same path: the header of rendered files
    -- and the YAML of the fields of `q`, its config decoded. It holds also if the first attempt met a
    -- conflicting commit. Nobody else commits during an attempt.
    pub sync_customer-renders :
        (slug : Text) (author : Option CommitAuthor) (ws : Workspace) (w t : World R)
        (before after : List Pipeline) (p q : Pipeline)
        → let rows = before ++ p ∷ after in
          let slugs = pipeline_file_slugs (kept ws rows rows) in
          client_for m slug ≡ ok (some (client, ws))
          → (list_pipelines slug w.db).0 ≡ ok rows
          → IsLoadedAs ws p q
          → has (takes slugs (path_in slugs q)) (kept ws rows after) ≡ false
          → sync_customer m slug author w ≡ (ok tt, t)
          → (content : Text) × IsRendered m q content
            × (file t.repo (path_in slugs q) ≡ some content)
    unfolding resolve_file_uploads
    sync_customer-renders slug author ws w t before after p q scope listed loaded last_one h =
        let (listed_rows, desired, read, rendered, holds) =
          sync_customer-Holds m file client repo slug author ws w t scope h in
        let rows = before ++ p ∷ after in
        let same_rows : listed_rows ≡ rows = ok-inj (sym read ∙ listed) in
        let slugs = pipeline_file_slugs (kept ws rows rows) in
        let rendered_rows : render_pipeline_files m (kept ws rows rows) slugs [] ≡ ok desired =
          subst
            (λ x.
              render_pipeline_files m (kept ws x x) (pipeline_file_slugs (kept ws x x)) []
              ≡ ok desired)
            same_rows rendered in
        let (content, is_rendered, found) =
          render_pipeline_files-content (kept ws rows before) (kept ws rows after) q slugs []
            desired last_one
            (subst (λ x. render_pipeline_files m x slugs [] ≡ ok desired)
              (kept-here ws before after p q loaded) rendered_rows) in
        (content, is_rendered, holds (path_in slugs q) _ found)
