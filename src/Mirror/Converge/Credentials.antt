-- ===== src/Mirror/Converge/Credentials.antt =====
-- What the credential half of `converge` does to the files of the repo.
use workspace_api.Base.{
  ◌≡◌, refl, true, false, not, ◌&&◌, Option, none, some, [], Text, same, lookup, Map, M, ◌>>=◌,
  best_effort, attempt, pure, if◌then◌else◌, is_ok,
}
use workspace_api.Model.{
  CommitAuthor, CredentialFile, CredentialRender, Notice, credentials_handed_over,
}
use workspace_api.Postgres.{
  notify, get_pipeline, set_credentials_external, upsert_credential_render,
}
use workspace_api.Mirror.World.{RepoClient, World, Mirror, on_repo, on_db}
use workspace_api.Mirror.Effects.{
  IsRepo, Leaves, Leaves-bind, Leaves-best_effort, Leaves-attempt, Leaves-if, Leaves-on_db,
}
use workspace_api.Mirror.Converge.{
  notify_for_pipeline, mark_credentials_external, skip_tracked_credential_file, encrypt,
  write_credential_file, upsert_tracked, upsert_credential_file,
}
use workspace_api.Mirror.Converge.Steps.{Leaves-put}

module _ {R : Type 0} (file : R → Text → Option Text) (m : Mirror R) where
  Leaves-notify_for_pipeline :
      (id : Text) (notice : Notice) (q : Text) → Leaves file (notify_for_pipeline m id notice) q
  unfolding notify_for_pipeline
  Leaves-notify_for_pipeline id notice q =
      Leaves-bind file {B = Unit {0}} q (on_db (get_pipeline id)) _
        (Leaves-on_db file q (get_pipeline id))
        λ p.
          Leaves-on_db file q
            (notify (record { customer_slug = p.customer_slug; notice = notice; pipeline_id = id }))

  pub Leaves-mark : (id q : Text) → Leaves file (mark_credentials_external m id) q
  unfolding mark_credentials_external
  Leaves-mark id q =
      let handed = notify_for_pipeline m id credentials_handed_over in
      let told = if m.notifications then best_effort handed else pure tt in
      let mark = on_db (set_credentials_external id true) in
      Leaves-bind file {B = Unit {0}} q (attempt mark)
        (λ marked. if is_ok marked then told else pure tt)
        (Leaves-attempt file q mark (Leaves-on_db file q (set_credentials_external id true)))
        λ marked.
          Leaves-if file q (is_ok marked) told (pure tt)
            (Leaves-if file q m.notifications (best_effort handed) (pure tt)
              (Leaves-best_effort file q handed
                (Leaves-notify_for_pipeline id credentials_handed_over q))
              (λ w. refl))
            (λ w. refl)

  Leaves-skip :
      (cf : CredentialFile) (fp tree_sha : Text) (row : Option CredentialRender) (q : Text)
      → Leaves file (skip_tracked_credential_file m cf fp tree_sha row) q
  unfolding skip_tracked_credential_file
  Leaves-skip cf fp tree_sha none q w = refl
  Leaves-skip cf fp tree_sha (some row) q w =
      let mark = mark_credentials_external m cf.pipeline_id in
      let marked = mark >>= λ _. pure true in
      let handed = if not (same row.blob_sha tree_sha) && m.ownership then marked else pure false in
      Leaves-if file q (same row.fingerprint fp && same row.blob_sha tree_sha) (pure true) handed
        (λ v. refl)
        (Leaves-if file q (not (same row.blob_sha tree_sha) && m.ownership) marked (pure false)
          (Leaves-bind file q mark (λ _. pure true) (Leaves-mark cf.pipeline_id q) (λ _ v. refl))
          (λ v. refl))
        w

  Leaves-encrypt : (recipient plaintext q : Text) → Leaves file (encrypt m recipient plaintext) q
  unfolding encrypt
  Leaves-encrypt recipient plaintext q w = refl

module _ {R : Type 0} (file : R → Text → Option Text) (client : RepoClient R)
    (repo : IsRepo client file) (author : Option CommitAuthor) (m : Mirror R) where
  Leaves-write :
      (recipient p : Text) (cf : CredentialFile) (fp sha q : Text)
      → same p q ≡ false
      → Leaves file (write_credential_file m client author recipient p cf fp sha) q
  unfolding write_credential_file
  Leaves-write recipient p cf fp sha q h =
      let record_render : Text → M (World R) (Unit {0}) =
        λ new_sha. best_effort (on_db (upsert_credential_render cf.pipeline_id fp new_sha)) in
      Leaves-bind file {B = Unit {0}} q (encrypt m recipient cf.plaintext)
        (λ ciphertext. on_repo (client.put_contents p ciphertext sha author) >>= record_render)
        (Leaves-encrypt file m recipient cf.plaintext q)
        λ ciphertext.
          Leaves-bind file q (on_repo (client.put_contents p ciphertext sha author)) record_render
            (Leaves-put file client repo author p ciphertext sha q h)
            λ new_sha.
              let op = upsert_credential_render cf.pipeline_id fp new_sha in
              Leaves-best_effort file q (on_db op) (Leaves-on_db file q op)

  Leaves-upsert_tracked :
      (recipient : Text) (renders : Map CredentialRender) (p : Text) (cf : CredentialFile)
      (tree_sha : Option Text) (q : Text)
      → same p q ≡ false
      → Leaves file (upsert_tracked m client author recipient renders p cf tree_sha) q
  unfolding upsert_tracked
  Leaves-upsert_tracked recipient renders p cf none q h =
      Leaves-write recipient p cf (m.fingerprint recipient cf.plaintext) [] q h
  Leaves-upsert_tracked recipient renders p cf (some tree_sha) q h =
      let fp = m.fingerprint recipient cf.plaintext in
      let write = write_credential_file m client author recipient p cf fp tree_sha in
      Leaves-bind file q
        (skip_tracked_credential_file m cf fp tree_sha (lookup cf.pipeline_id renders))
        (λ skip. if skip then pure tt else write)
        (Leaves-skip file m cf fp tree_sha (lookup cf.pipeline_id renders) q)
        λ skip.
          Leaves-if file q skip (pure tt) write (λ w. refl)
            (Leaves-write recipient p cf fp tree_sha q h)

  pub upsert_credential_file_other :
      (recipient : Text) (renders : Map CredentialRender) (existing : Map Text) (p : Text)
      (cf : CredentialFile) (q : Text)
      → same p q ≡ false
      → Leaves file (upsert_credential_file m client author recipient renders existing p cf) q
  unfolding upsert_credential_file
  upsert_credential_file_other recipient renders existing p cf q h =
      let tracked = upsert_tracked m client author recipient renders p cf (lookup p existing) in
      Leaves-if file q cf.external (pure tt) tracked (λ w. refl)
        (Leaves-upsert_tracked recipient renders p cf (lookup p existing) q h)

  -- A file that the box owns is not written.
  pub upsert_credential_file_external :
      (recipient : Text) (renders : Map CredentialRender) (existing : Map Text) (p : Text)
      (cf : CredentialFile) (q : Text)
      → cf.external ≡ true
      → Leaves file (upsert_credential_file m client author recipient renders existing p cf) q
  unfolding upsert_credential_file
  upsert_credential_file_external recipient renders existing p cf q h w = rw h
