-- ===== src/Mirror/Converge.antt =====
-- workspace/pipelinemirror.go: `converge` and the steps it is made of.
pub mod Steps
pub mod Credentials
pub mod Expected
pub mod Whole
pub mod External
use workspace_api.Base.{
  ◌+◌, Bool, true, false, not, ◌&&◌, ◌||◌, Option, none, some, [], Text, same, has_prefix, is_some,
  Map, lookup, M, ◌>>=◌, ◌>>◌, pure, attempt, best_effort, for_each, if◌then◌else◌, is_ok,
}
use workspace_api.Model.{
  CommitAuthor, DefinitionFile, DefinitionRender, CredentialFile, CredentialRender, Notice,
  file_overwritten, credentials_handed_over,
}
use workspace_api.Postgres.{
  upsert_definition_render, upsert_credential_render, set_credentials_external, get_pipeline,
  notify,
}
use workspace_api.Mirror.World.{RepoClient, World, Mirror, on_repo, on_db}
use workspace_api.Mirror.Files.{pipeline_file_header, sorted_paths, partition_pipeline_tree}

-- A path of a map is looked up in it again.
unfoldable pub for_path :
    {S V : Type 0} → Map V → (Text → V → M S (Unit {0})) → Text → M S (Unit {0})
unfolding lookup
for_path files step path = elim (lookup path files) [ none ↦ pure tt | some file ↦ step path file ]

module _ {R : Type 0} (client : RepoClient R) (author : Option CommitAuthor) where
  -- The bodies of the loops of `deleteStale` and `deleteStaleRendered`.
  unfoldable pub delete_stale_file : {V : Type 0} → Map V → Text → Text → M (World R) (Unit {0})
  unfolding on_repo lookup
  delete_stale_file desired path sha =
      if is_some (lookup path desired)
      then pure tt
      else on_repo (client.delete_contents path sha author)

  unfoldable pub delete_stale_rendered_file :
      {V : Type 0} → Map V → Text → Text → M (World R) (Unit {0})
  unfolding on_repo lookup has_prefix
  delete_stale_rendered_file desired path sha =
      if is_some (lookup path desired)
      then pure tt
      else (on_repo (client.get_contents path) >>= λ got.
          if not (has_prefix pipeline_file_header got.0)
          then pure tt
          else on_repo (client.delete_contents path sha author))

  unfoldable pub delete_stale : {V : Type 0} → Map Text → Map V → M (World R) (Unit {0})
  unfolding for_each for_path sorted_paths delete_stale_file
  delete_stale existing desired =
      for_each (sorted_paths existing) (for_path existing (delete_stale_file desired))

  unfoldable pub delete_stale_rendered : {V : Type 0} → Map Text → Map V → M (World R) (Unit {0})
  unfolding for_each for_path sorted_paths delete_stale_rendered_file
  delete_stale_rendered existing desired =
      for_each (sorted_paths existing) (for_path existing (delete_stale_rendered_file desired))

module _ {R : Type 0} (m : Mirror R) where
  unfoldable pub record_definition_render : Text → Text → Text → M (World R) (Unit {0})
  unfolding on_db upsert_definition_render
  record_definition_render id path blob_sha =
      if m.definition_renders
      then best_effort (on_db (upsert_definition_render id path blob_sha))
      else pure tt

  -- A notification for a workspace, best-effort.
  unfoldable pub tell : Text → Notice → Text → M (World R) (Unit {0})
  unfolding on_db notify
  tell slug notice id =
      if m.notifications
      then best_effort
          (on_db (notify (record { customer_slug = slug; notice = notice; pipeline_id = id })))
      else pure tt

  -- `adoptInSyncRender`: `row` is the bookkeeping row, if there is one.
  unfoldable pub adopt_in_sync_render :
      Text → Text → Text → Option DefinitionRender → M (World R) (Unit {0})
  unfolding record_definition_render same
  adopt_in_sync_render id path tree_sha none = record_definition_render id path tree_sha
  adopt_in_sync_render id path tree_sha (some row) =
      if not (same row.blob_sha tree_sha) || not (same row.path path)
      then record_definition_render id path tree_sha
      else pure tt

  unfoldable pub is_drifted : Text → Text → Option DefinitionRender → Bool
  unfolding same
  is_drifted path tree_sha none = false
  is_drifted path tree_sha (some row) = same row.path path && not (same row.blob_sha tree_sha)

  module _ (client : RepoClient R) (slug : Text) (author : Option CommitAuthor) where
    -- `upsertFile`, with the blob sha that the tree has for the path.
    unfoldable pub upsert_file :
        Map DefinitionRender → Text → DefinitionFile → Option Text → M (World R) (Unit {0})
    unfolding on_repo record_definition_render adopt_in_sync_render is_drifted tell lookup
    upsert_file renders path df none =
        on_repo (client.put_contents path df.content [] author) >>= λ new_sha.
        record_definition_render df.pipeline_id path new_sha
    upsert_file renders path df (some tree_sha) = on_repo (client.get_contents path) >>= λ got.
        let row = lookup df.pipeline_id renders in
        if same got.0 df.content
        then adopt_in_sync_render df.pipeline_id path tree_sha row
        else (on_repo (client.put_contents path df.content got.1 author) >>= λ new_sha.
            record_definition_render df.pipeline_id path new_sha
            >> (if is_drifted path tree_sha row
                then tell slug file_overwritten df.pipeline_id
                else pure tt))

    unfoldable pub upsert_files :
        Map DefinitionFile → Map Text → Map DefinitionRender → M (World R) (Unit {0})
    unfolding for_each for_path upsert_file sorted_paths lookup
    upsert_files desired existing renders =
        for_each (sorted_paths desired)
          (for_path desired λ path df. upsert_file renders path df (lookup path existing))

  -- `notifyForPipeline`
  unfoldable pub notify_for_pipeline : Text → Notice → M (World R) (Unit {0})
  unfolding on_db get_pipeline notify
  notify_for_pipeline id notice = on_db (get_pipeline id) >>= λ p.
      on_db (notify (record { customer_slug = p.customer_slug; notice = notice; pipeline_id = id }))

  unfoldable pub mark_credentials_external : Text → M (World R) (Unit {0})
  unfolding on_db set_credentials_external notify_for_pipeline
  mark_credentials_external id = attempt (on_db (set_credentials_external id true)) >>= λ marked.
      if is_ok marked
      then (if m.notifications
          then best_effort (notify_for_pipeline id credentials_handed_over)
          else pure tt)
      else pure tt

  -- `skipTrackedCredentialFile`, with the file's bookkeeping row.
  unfoldable pub skip_tracked_credential_file :
      CredentialFile → Text → Text → Option CredentialRender → M (World R) Bool
  unfolding mark_credentials_external same
  skip_tracked_credential_file cf fp tree_sha none = pure false
  skip_tracked_credential_file cf fp tree_sha (some row) =
      if same row.fingerprint fp && same row.blob_sha tree_sha
      then pure true
      else (if not (same row.blob_sha tree_sha) && m.ownership
          then (mark_credentials_external cf.pipeline_id >>= λ _. pure true)
          else pure false)

  -- `encryptAge`, with a draw of its own.
  unfoldable pub encrypt : Text → Text → M (World R) Text
  encrypt recipient plaintext w =
      (m.encrypt_age w.draws recipient plaintext, record w { draws = w.draws + 1 })

  module _ (client : RepoClient R) (author : Option CommitAuthor) where
    -- The second half of `upsertCredentialFile`: encrypt, put, record.
    unfoldable pub write_credential_file :
        Text → Text → CredentialFile → Text → Text → M (World R) (Unit {0})
    unfolding encrypt on_repo on_db upsert_credential_render
    write_credential_file recipient path cf fp sha =
        encrypt recipient cf.plaintext >>= λ ciphertext.
        on_repo (client.put_contents path ciphertext sha author) >>= λ new_sha.
        best_effort (on_db (upsert_credential_render cf.pipeline_id fp new_sha))

    unfoldable pub upsert_tracked :
        Text → Map CredentialRender → Text → CredentialFile → Option Text → M (World R) (Unit {0})
    unfolding write_credential_file skip_tracked_credential_file lookup
    upsert_tracked recipient renders path cf none =
        write_credential_file recipient path cf (m.fingerprint recipient cf.plaintext) []
    upsert_tracked recipient renders path cf (some tree_sha) =
        let fp = m.fingerprint recipient cf.plaintext in
        skip_tracked_credential_file cf fp tree_sha (lookup cf.pipeline_id renders) >>= λ skip.
        if skip then pure tt else write_credential_file recipient path cf fp tree_sha

    unfoldable pub upsert_credential_file :
        Text → Map CredentialRender → Map Text → Text → CredentialFile → M (World R) (Unit {0})
    unfolding upsert_tracked lookup
    upsert_credential_file recipient renders existing path cf =
        if cf.external
        then pure tt
        else upsert_tracked recipient renders path cf (lookup path existing)

    unfoldable pub upsert_credential_files :
        Text → Map CredentialFile → Map CredentialRender → Map Text → M (World R) (Unit {0})
    unfolding for_each for_path upsert_credential_file sorted_paths
    upsert_credential_files recipient credentials renders existing =
        for_each (sorted_paths credentials)
          (for_path credentials (upsert_credential_file recipient renders existing))

    -- The credential half of `converge`; no map means that age rendering is not wired.
    unfoldable pub converge_credentials :
        Option (Map CredentialFile)
        → Text
        → Map CredentialRender
        → Map Text
        → M (World R) (Unit {0})
    unfolding upsert_credential_files delete_stale
    converge_credentials none recipient renders existing = pure tt
    converge_credentials (some credentials) recipient renders existing =
        upsert_credential_files recipient credentials renders existing
        >> delete_stale client author existing credentials

    unfoldable pub converge :
        Text
        → Map DefinitionFile
        → Option (Map CredentialFile)
        → Text
        → Map CredentialRender
        → Map DefinitionRender
        → M (World R) (Unit {0})
    unfolding on_repo partition_pipeline_tree upsert_files delete_stale_rendered
        converge_credentials
    converge slug desired credentials recipient renders def_renders =
        on_repo client.list_tree >>= λ tree.
        let parts = partition_pipeline_tree tree ([], []) in
        upsert_files client slug author desired parts.0 def_renders
        >> delete_stale_rendered client author parts.0 desired
        >> converge_credentials credentials recipient renders parts.1
