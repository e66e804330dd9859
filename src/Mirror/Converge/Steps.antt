-- ===== src/Mirror/Converge/Steps.antt =====
-- What one step of the loops of `converge` does to the files of the repo.
use workspace_api.Base.{
  ◌≡◌, refl, sym, ap, ◌∙◌, Bool, false, not, ◌||◌, Option, none, some, [], Text, same, same→eq,
  has_prefix, is_some, lookup, Map, Result, ok, M, ◌>>=◌, ◌>>◌, next-eq-ok, best_effort, pure,
  if◌then◌else◌, arith, Bool-cases, inl, inr,
}
use workspace_api.Model.{
  CommitAuthor, DefinitionFile, DefinitionRender, Notice, file_overwritten, Notification,
}
use workspace_api.Postgres.{notify, upsert_definition_render}
use workspace_api.Mirror.World.{RepoClient, World, Mirror, on_repo, on_db}
use workspace_api.Mirror.Files.{pipeline_file_header}
use workspace_api.Mirror.Effects.{
  IsRepo, Leaves, Sets, Leaves-bind, Leaves-best_effort, Leaves-if, Leaves-on_db,
}
use workspace_api.Mirror.Converge.{
  record_definition_render, tell, adopt_in_sync_render, is_drifted, upsert_file, delete_stale_file,
  delete_stale_rendered_file,
}

-- What the collection of stale definitions does to a file.
abbrev pub without_rendered : Option Text → Option Text
without_rendered none = none
without_rendered (some content) =
    if has_prefix pipeline_file_header content then none else some content

pub on_repo-eq :
    {R A : Type 0} (op : M R A) (w t : World R) {r : Result A}
    → on_repo op w ≡ (r, t)
    → op w.repo ≡ (r, t.repo)
unfolding on_repo
on_repo-eq op w t h = ap (λ z. (z.0, z.1.repo)) h

module _ {R : Type 0} (file : R → Text → Option Text) where
  pub Leaves-eq :
      {A : Type 0} (op : M (World R) A) (q : Text) {w t : World R} {r : Result A}
      → Leaves file op q
      → op w ≡ (r, t)
      → file t.repo q ≡ file w.repo q
  Leaves-eq op q {w} l h = sym (ap (λ z. file z.1.repo q) h) ∙ l w

  module _ (m : Mirror R) (q : Text) where
    pub Leaves-record :
        (id path blob_sha : Text) → Leaves file (record_definition_render m id path blob_sha) q
    unfolding record_definition_render
    Leaves-record id path blob_sha =
        let op = on_db (upsert_definition_render id path blob_sha) in
        Leaves-if file q m.definition_renders (best_effort op) (pure tt)
          (Leaves-best_effort file q op
            (Leaves-on_db file q (upsert_definition_render id path blob_sha)))
          (λ w. refl)

    pub Leaves-tell :
        (slug : Text) (notice : Notice) (id : Text) → Leaves file (tell m slug notice id) q
    unfolding tell
    Leaves-tell slug notice id =
        let n : Notification = record { customer_slug = slug; notice = notice; pipeline_id = id } in
        Leaves-if file q m.notifications (best_effort (on_db (notify n))) (pure tt)
          (Leaves-best_effort file q (on_db (notify n)) (Leaves-on_db file q (notify n)))
          (λ w. refl)

    Leaves-adopt :
        (id path sha : Text) (row : Option DefinitionRender)
        → Leaves file (adopt_in_sync_render m id path sha row) q
    unfolding adopt_in_sync_render
    Leaves-adopt id path sha none = Leaves-record id path sha
    Leaves-adopt id path sha (some row) =
        Leaves-if file q (not (same row.blob_sha sha) || not (same row.path path))
          (record_definition_render m id path sha) (pure tt) (Leaves-record id path sha) (λ w. refl)

    after_put :
        (slug id p sha : Text) (drifted : Bool)
        → Leaves file
            (record_definition_render m id p sha
              >> (if drifted then tell m slug file_overwritten id else pure tt))
            q
    after_put slug id p sha drifted =
        Leaves-bind file q (record_definition_render m id p sha) _ (Leaves-record id p sha) λ _.
          Leaves-if file q drifted (tell m slug file_overwritten id) (pure tt)
            (Leaves-tell slug file_overwritten id) (λ w. refl)

  module _ (client : RepoClient R) (repo : IsRepo client file) (author : Option CommitAuthor) where
    pub Leaves-get : (p q : Text) → Leaves file (on_repo (client.get_contents p)) q
    unfolding on_repo
    Leaves-get p q w = repo.get_file p w.repo q

    pub Leaves-put :
        (p content sha q : Text)
        → same p q ≡ false
        → Leaves file (on_repo (client.put_contents p content sha author)) q
    unfolding on_repo
    Leaves-put p content sha q h w = repo.put_file p content sha author w.repo q h

    pub Leaves-delete :
        (p sha q : Text)
        → same p q ≡ false
        → Leaves file (on_repo (client.delete_contents p sha author)) q
    unfolding on_repo
    Leaves-delete p sha q h w = repo.delete_file p sha author w.repo q h

    -- A put, and then what leaves the file alone.
    put_then :
        (p content sha : Text) (k : Text → M (World R) (Unit {0}))
        → ((a : Text) → Leaves file (k a) p)
        → Sets file (on_repo (client.put_contents p content sha author) >>= k) p (λ _. some content)
    put_then p content sha k l w t h =
        let op = client.put_contents p content sha author in
        let (a, u, first, rest) = next-eq-ok (on_repo op w) k h in
        Leaves-eq (k a) p (l a) rest ∙ repo.put (on_repo-eq op w u first)

    -- A read, and then what depends on the content that it gave.
    get_then :
        (p : Text) (k : Text × Text → M (World R) (Unit {0})) (f : Option Text → Option Text)
        → ((content sha : Text) (w t : World R)
            → file w.repo p ≡ some content
            → k (content, sha) w ≡ (ok tt, t)
            → file t.repo p ≡ f (some content))
        → Sets file (on_repo (client.get_contents p) >>= k) p f
    get_then p k f then_k w t h =
        let op = client.get_contents p in
        let ((content, sha), u, first, rest) = next-eq-ok (on_repo op w) k h in
        let before : file w.repo p ≡ some content = repo.got (on_repo-eq op w u first) in
        then_k content sha u t (Leaves-eq (on_repo op) p (Leaves-get p p) first ∙ before) rest
        ∙ ap f (sym before)

    -- Deleting a stale definition.
    pub delete_stale_rendered_file_other :
        {V : Type 0} (desired : Map V) (p sha q : Text)
        → same p q ≡ false
        → Leaves file (delete_stale_rendered_file client author desired p sha) q
    unfolding delete_stale_rendered_file
    delete_stale_rendered_file_other desired p sha q h =
        Leaves-if file q (is_some (lookup p desired)) (pure tt) _ (λ w. refl)
          (Leaves-bind file q (on_repo (client.get_contents p)) _ (Leaves-get p q) λ got.
            Leaves-if file q (not (has_prefix pipeline_file_header got.0)) (pure tt) _ (λ w. refl)
              (Leaves-delete p sha q h))

    delete_stale_content :
        (p content sha tree_sha : Text) (w t : World R)
        → file w.repo p ≡ some content
        → (if not (has_prefix pipeline_file_header content)
              then pure tt
              else on_repo (client.delete_contents p tree_sha author))
            w
          ≡ (ok tt, t)
        → file t.repo p ≡ without_rendered (some content)
    delete_stale_content p content sha tree_sha w t e h =
        elim (Bool-cases (has_prefix pipeline_file_header content)) [
          | inl g ↦ ground (
            arith,
            repo.deleted (on_repo-eq (client.delete_contents p tree_sha author) w t (rw g at h)),
          )
          | inr g ↦ ground (arith, e, ap (λ r. file r.1.repo p) (rw g at h))
        ]

    pub delete_stale_rendered_file_own :
        {V : Type 0} (desired : Map V) (p sha : Text)
        → Sets file
            (delete_stale_rendered_file client author desired p sha)
            p
            (λ v. if is_some (lookup p desired) then v else without_rendered v)
    unfolding delete_stale_rendered_file
    delete_stale_rendered_file_own desired p sha w t h =
        elim (Bool-cases (is_some (lookup p desired))) [
          | inl e ↦ ground (arith, ap (λ r. file r.1.repo p) (sym (rw e at h)))
          | inr e ↦ rw e (
              get_then p _ without_rendered (λ c s. delete_stale_content p c s sha) w t (rw e at h))
        ]

    pub delete_stale_file_other :
        {V : Type 0} (desired : Map V) (p sha q : Text)
        → same p q ≡ false
        → Leaves file (delete_stale_file client author desired p sha) q
    unfolding delete_stale_file
    delete_stale_file_other desired p sha q h =
        Leaves-if file q (is_some (lookup p desired)) (pure tt) _ (λ w. refl)
          (Leaves-delete p sha q h)

    module _ (m : Mirror R) where
      -- Writing a definition.
      pub upsert_file_other :
          (slug : Text) (renders : Map DefinitionRender) (p : Text) (df : DefinitionFile)
          (tree_sha : Option Text) (q : Text)
          → same p q ≡ false
          → Leaves file (upsert_file m client slug author renders p df tree_sha) q
      unfolding upsert_file
      upsert_file_other slug renders p df none q h =
          Leaves-bind file q (on_repo (client.put_contents p df.content [] author)) _
            (Leaves-put p df.content [] q h) λ sha. Leaves-record m q df.pipeline_id p sha
      upsert_file_other slug renders p df (some tree_sha) q h =
          let row = lookup df.pipeline_id renders in
          Leaves-bind file q (on_repo (client.get_contents p)) _ (Leaves-get p q) λ got.
            Leaves-if file q (same got.0 df.content) _ _
              (Leaves-adopt m q df.pipeline_id p tree_sha row)
              (Leaves-bind file q (on_repo (client.put_contents p df.content got.1 author)) _
                (Leaves-put p df.content got.1 q h)
                λ sha. after_put m q slug df.pipeline_id p sha (is_drifted m p tree_sha row))

      upsert_present :
          (slug : Text) (renders : Map DefinitionRender) (p : Text) (df : DefinitionFile)
          (tree_sha content sha : Text) (w t : World R)
          → file w.repo p ≡ some content
          → (if same content df.content
                then adopt_in_sync_render m df.pipeline_id p tree_sha
                    (lookup df.pipeline_id renders)
                else (on_repo (client.put_contents p df.content sha author) >>= λ new_sha.
                    record_definition_render m df.pipeline_id p new_sha
                    >> (if is_drifted m p tree_sha (lookup df.pipeline_id renders)
                        then tell m slug file_overwritten df.pipeline_id
                        else pure tt)))
              w
            ≡ (ok tt, t)
          → file t.repo p ≡ some df.content
      upsert_present slug renders p df tree_sha content sha w t e h =
          let row = lookup df.pipeline_id renders in
          elim (Bool-cases (same content df.content)) [
            | inl g ↦
                Leaves-eq (adopt_in_sync_render m df.pipeline_id p tree_sha row) p
                  (Leaves-adopt m p df.pipeline_id p tree_sha row) (rw g at h)
                ∙ ground (arith, e, same→eq content df.content g)
            | inr g ↦
                put_then p df.content sha _
                  (λ a. after_put m p slug df.pipeline_id p a (is_drifted m p tree_sha row)) w t
                  (rw g at h)
          ]

      pub upsert_file_own :
          (slug : Text) (renders : Map DefinitionRender) (p : Text) (df : DefinitionFile)
          (tree_sha : Option Text)
          → Sets file
              (upsert_file m client slug author renders p df tree_sha)
              p
              (λ _. some df.content)
      unfolding upsert_file
      upsert_file_own slug renders p df none =
          put_then p df.content [] (record_definition_render m df.pipeline_id p)
            (Leaves-record m p df.pipeline_id p)
      upsert_file_own slug renders p df (some tree_sha) =
          get_then p _ (λ _. some df.content) (upsert_present slug renders p df tree_sha)
