-- ===== src/Mirror/Adopt/Rows.antt =====
-- workspace/pipelinemirror_adopt.go: what the adopt pass does to the rows of the pipelines.
use workspace_api.Base.{
  ℕ, ◌≡◌, refl, sym, ap, subst, ◌∙◌, ◌||◌, Option, none, some, List, [], Text, same, same→eq,
  change, Map, lookup, Outcome, Result, ok, err, and_then-eq-ok, is_empty, ok-inj, ◌>>◌, next-eq-ok,
  pure, attempt, best_effort, if◌then◌else◌, is_ok, Bool-cases, inl, inr, ◌⊎◌, Keeps, Keeps-bind,
  Keeps-if, Keeps-best_effort, Keeps-attempt, Keeps-eq,
}
use workspace_api.Model.{
  Pipeline, PipelineFile, DefinitionRender, Notice, Notification, file_adopted, file_refused,
}
use workspace_api.Postgres.{
  has_id, updated_row, update_pipeline, upsert_definition_render, mark_definition_refused, notify,
}
use workspace_api.Postgres.Effects.{
  pipelines-upsert_definition_render, pipelines-mark_definition_refused, pipelines-notify,
  pipelines-update_pipeline,
}
use workspace_api.Mirror.World.{RepoClient, World, Mirror, on_repo, on_db}
use workspace_api.Mirror.Converge.{record_definition_render, tell}
use workspace_api.Mirror.Import.{pipeline_from_file}
use workspace_api.Mirror.Adopt.{
  adoptable_row, adoptable_file, parse_adoptable_pipeline, refuse_adoption, adopt_parsed,
  adopt_in_tree, adopt_tracked, adopt_definition,
}

-- What an edit of the file cannot change of a pipeline.
pub record IsSamePipeline (current p : Pipeline) : Type 0 where
  pub id : p.id ≡ current.id
  pub customer_slug : p.customer_slug ≡ current.customer_slug
  pub source_type : p.source_type ≡ current.source_type
  pub source_credentials : p.source_credentials ≡ current.source_credentials
  pub credentials_external : p.credentials_external ≡ current.credentials_external
  pub created_at : p.created_at ≡ current.created_at

abbrev pub rows_of : {R : Type 0} → World R → List Pipeline
rows_of w = w.db.pipelines

module _ {R : Type 0} (m : Mirror R) where
  from_file :
      (id : Text) (f : PipelineFile) (q : Pipeline)
      → pipeline_from_file m id f ≡ ok q
      → (q.id ≡ id) × (q.source_type ≡ f.source_type)
  unfolding pipeline_from_file
  from_file id f q h =
      let (raw, first, rest) =
        and_then-eq-ok
          (if is_empty f.source_config then ok [] else m.marshal_config f.source_config) _ h in
      let e = ok-inj rest in (ap (λ r. r.id) (sym e), ap (λ r. r.source_type) (sym e))

  adoptable_row-IsSamePipeline :
      (current p : Pipeline) (r : Result Pipeline)
      → ((q : Pipeline) → r ≡ ok q → (q.id ≡ current.id) × (q.source_type ≡ current.source_type))
      → adoptable_row m current r ≡ ok p
      → IsSamePipeline current p
  unfolding adoptable_row
  adoptable_row-IsSamePipeline current p (err e) k h = cc
  adoptable_row-IsSamePipeline current p (ok q) k h =
      elim (Bool-cases (m.validate_source_config q.source_type q.source_config)) [
        | inl e ↦
            let (i, j) = k q refl in
            let g = sym (ok-inj (rw e at h)) in
            record {
              id = ap (λ r. r.id) g ∙ i;
              customer_slug = ap (λ r. r.customer_slug) g;
              source_type = ap (λ r. r.source_type) g ∙ j;
              source_credentials = ap (λ r. r.source_credentials) g;
              credentials_external = ap (λ r. r.credentials_external) g;
              created_at = ap (λ r. r.created_at) g;
            }
        | inr e ↦ cc (rw e at h)
      ]

  adoptable_file-IsSamePipeline :
      (current p : Pipeline) (r : Result PipelineFile)
      → adoptable_file m current r ≡ ok p
      → IsSamePipeline current p
  unfolding adoptable_file
  adoptable_file-IsSamePipeline current p (err e) h = cc
  adoptable_file-IsSamePipeline current p (ok f) h = elim (Bool-cases (same f.id current.id)) [
    | inl d ↦ elim (Bool-cases (same f.source_type current.source_type)) [
      | inl e ↦
          adoptable_row-IsSamePipeline current p (pipeline_from_file m current.id f)
            (λ q g.
              let (i, j) = from_file current.id f q g in
              (i, j ∙ same→eq f.source_type current.source_type e))
            (rw (d, e) at h)
      | inr e ↦ cc (rw (d, e) at h)
    ]
    | inr d ↦ cc (rw d at h)
  ]

  -- Of a foreign edit that is taken over, the pipeline keeps its id, its workspace, its source type,
  -- the credentials of the row at hand and their owner, and its creation time.
  parse_adoptable_pipeline-IsSamePipeline :
      (content : Text) (current p : Pipeline)
      → parse_adoptable_pipeline m content current ≡ ok p
      → IsSamePipeline current p
  unfolding parse_adoptable_pipeline
  parse_adoptable_pipeline-IsSamePipeline content current p =
      adoptable_file-IsSamePipeline current p (m.unmarshal_file content)

  Keeps-record :
      (id path sha : Text) → Keeps (rows_of {R = R}) (record_definition_render m id path sha)
  unfolding record_definition_render on_db
  Keeps-record id path sha =
      let op = on_db (upsert_definition_render id path sha) in
      Keeps-if rows_of m.definition_renders (best_effort op) (pure tt)
        (Keeps-best_effort rows_of op λ w. pipelines-upsert_definition_render id path sha w.db)
        (λ w. refl)

  Keeps-tell :
      (slug : Text) (notice : Notice) (id : Text) → Keeps (rows_of {R = R}) (tell m slug notice id)
  unfolding tell on_db
  Keeps-tell slug notice id =
      let n : Notification = record { customer_slug = slug; notice = notice; pipeline_id = id } in
      Keeps-if rows_of m.notifications (best_effort (on_db (notify n))) (pure tt)
        (Keeps-best_effort rows_of (on_db (notify n)) λ w. pipelines-notify n w.db) (λ w. refl)

  Keeps-refuse : (p : Pipeline) (sha : Text) → Keeps (rows_of {R = R}) (refuse_adoption m p sha)
  unfolding refuse_adoption on_db
  Keeps-refuse p sha =
      let told = tell m p.customer_slug file_refused p.id in
      let mark = on_db (mark_definition_refused p.id sha) in
      Keeps-bind rows_of (attempt mark) (λ marked. if is_ok marked then told else pure tt)
        (Keeps-attempt rows_of mark λ w. pipelines-mark_definition_refused p.id sha w.db)
        λ marked.
          Keeps-if rows_of (is_ok marked) told (pure tt)
            (Keeps-tell p.customer_slug file_refused p.id) (λ w. refl)

  -- What the pass does to the rows for one pipeline: nothing, or an update from the edited file.
  abbrev pub Adopts : ℕ → Pipeline → List Pipeline → List Pipeline → Type 0
  Adopts now p before after =
      (after ≡ before)
      ⊎ ((adopted : Pipeline) × IsSamePipeline p adopted
          × (after
              ≡ change (has_id p.id) (updated_row (record adopted { updated_at = now })) before))

  adopt_parsed-rows :
      (now : ℕ) (p : Pipeline) (path sha : Text) (w t : World R) (r : Outcome Text Pipeline)
      → ((q : Pipeline) → r ≡ ok q → IsSamePipeline p q)
      → adopt_parsed m now p path sha r w ≡ (ok tt, t)
      → Adopts now p (rows_of w) (rows_of t)
  unfolding adopt_parsed on_db
  adopt_parsed-rows now p path sha w t (err reason) k h =
      inl (Keeps-eq rows_of (refuse_adoption m p sha) (Keeps-refuse p sha) h)
  adopt_parsed-rows now p path sha w t (ok q) k h =
      let stored : Pipeline = record q { updated_at = now } in
      let recorded = record_definition_render m p.id path sha in
      let told = tell m p.customer_slug file_adopted p.id in
      let (u, w1, first, rest) =
        next-eq-ok (on_db (update_pipeline stored) w) (λ _. recorded >> told) h in
      let kept =
        Keeps-eq rows_of (recorded >> told)
          (Keeps-bind rows_of recorded (λ _. told) (Keeps-record p.id path sha)
            (λ _. Keeps-tell p.customer_slug file_adopted p.id))
          rest in
      let same_pipeline = k q refl in
      inr (
        q,
        same_pipeline,
        kept
            ∙ (pipelines-update_pipeline stored w.db w1.db (ap (λ r. (r.0, r.1.db)) first)
                ∙ ap (λ i. change (has_id i) (updated_row stored) (rows_of w)) same_pipeline.id),
      )

  module _ (client : RepoClient R) (now : ℕ) where
    adopt_in_tree-rows :
        (p : Pipeline) (row : DefinitionRender) (sha : Option Text) (w t : World R)
        → adopt_in_tree m client now p row sha w ≡ (ok tt, t)
        → Adopts now p (rows_of w) (rows_of t)
    unfolding adopt_in_tree on_repo
    adopt_in_tree-rows p row none w t h = inl (ap (λ r. rows_of r.1) (sym h))
    adopt_in_tree-rows p row (some sha) w t h =
        elim (Bool-cases (same sha row.blob_sha || same sha row.refused_blob_sha)) [
          | inl e ↦ inl (ap (λ r. rows_of r.1) (sym (rw e at h)))
          | inr e ↦
              let (got, w1, first, rest) =
                next-eq-ok (on_repo (client.get_contents row.path) w) _ (rw e at h) in
              subst (λ rows. Adopts now p rows (rows_of t)) (ap (λ r. rows_of r.1) (sym first))
                (adopt_parsed-rows now p row.path sha w1 t (parse_adoptable_pipeline m got.0 p)
                  (parse_adoptable_pipeline-IsSamePipeline got.0 p) rest)
        ]

    -- A pass over one pipeline that succeeds leaves the rows of the pipelines as they are, or replaces
    -- the row with the pipeline's id by one that has the credentials of the pipeline at hand: its
    -- id, workspace, source type, creation time and the owner of its credentials are the same.
    pub adopt_definition-rows :
        (renders : Map DefinitionRender) (tree : Map Text) (p : Pipeline) (w t : World R)
        → adopt_definition m client now renders tree p w ≡ (ok tt, t)
        → Adopts now p (rows_of w) (rows_of t)
    unfolding adopt_definition adopt_tracked
    adopt_definition-rows renders tree p w t = tracked (lookup p.id renders)
      where
        tracked :
            (row : Option DefinitionRender)
            → adopt_tracked m client now p tree row w ≡ (ok tt, t)
            → Adopts now p (rows_of w) (rows_of t)
        tracked none h = inl (ap (λ r. rows_of r.1) (sym h))
        tracked (some row) h = adopt_in_tree-rows p row (lookup row.path tree) w t h
