-- ===== src/BoxRepo/Editor.antt =====
-- workspace/boxrepo.go: BoxRepoService, the gates in front of a box's Gitea and the file operations.
use workspace_api.Base.{
  ℕ, Bool, not, ◌&&◌, ◌==◌, Option, none, some, List, [], ◌∷◌, Text, codes, same, mem, is_empty,
  keep, Result, ok, err, and_then, invalid_source_config, box_repo_unavailable, M, ◌>>=◌, pure,
  fail, of_result, if◌then◌else◌,
}
use workspace_api.Model.{Workspace, CommitAuthor, RepoFileEntry}
use workspace_api.Mirror.World.{RepoClient}
use workspace_api.Mirror.Sync.{bare_domain, box_gitea_url}
use workspace_api.BoxRepo.Path.{is_hidden_repo_path, validate_repo_path, is_commit_sha}

-- `UserInfo`, as far as a commit needs it.
pub record UserInfo : Type 0 where
  pub name : Text
  pub display_name : Text
  pub email : Text

pub record RepoCommit : Type 0 where
  pub sha : Text
  pub message : Text
  pub author_name : Text
  pub author_email : Text
  pub date : Text

pub record PushMirror : Type 0 where
  pub remote_name : Text
  pub remote_url : Text
  pub last_update : Text
  pub last_error : Text
  pub sync_on_commit : Bool

-- `RepoFileClient` of one repo, and `RepoMirrorClient` of one.
pub record RepoFileClient (R : Type 0) : Type 0 where
  pub files : RepoClient R
  pub list_commits : Text → ℕ → M R (List RepoCommit)
  pub get_contents_at : Text → Text → M R (Text × Text)

pub record RepoMirrorClient (R : Type 0) : Type 0 where
  pub list_push_mirrors : M R (List PushMirror)
  pub add_push_mirror : Text → Text → Text → Text → M R (Unit {0})
  pub delete_push_mirror : Text → M R (Unit {0})
  pub sync_push_mirrors : M R (Unit {0})

-- A client is built for a base URL, a user name, a token and a repo. The two URL functions are
-- `net/url`: whether a text is an https URL with a host and without user info, and the text without.
pub record BoxRepoService (R : Type 0) : Type 0 where
  pub workspace_by_user : Text → Result Workspace
  pub credentials : Option (Text → Result (Text × Text))
  pub users : Option (Text → Result UserInfo)
  pub new_client : Text → Text → Text → Text → RepoFileClient R
  pub new_mirror_client : Text → Text → Text → Text → RepoMirrorClient R
  pub is_https_url : Text → Bool
  pub has_userinfo : Text → Bool
  pub strip_userinfo : Text → Text

-- `resolveCommitAuthor`: the display name, else the name, else the e-mail address before its `@`.
unfoldable pub before_at : Text → Text
before_at [] = []
before_at (c ∷ s) = let rest = before_at s in if c == b'@' then [] else c ∷ rest

abbrev pub author_name : UserInfo → Text
author_name user =
    if not (is_empty user.display_name)
    then user.display_name
    else if not (is_empty user.name)
    then user.name
    else before_at user.email

abbrev pub author_of : Result UserInfo → Option CommitAuthor
author_of (err e) = none
author_of (ok user) =
    if is_empty user.email
    then none
    else some (record { name = author_name user; email = user.email })

abbrev pub author_by : Option (Text → Result UserInfo) → Text → Option CommitAuthor
author_by none caller = none
author_by (some get_commit_user) caller =
    if is_empty caller then none else author_of (get_commit_user caller)

module _ {R : Type 0} (s : BoxRepoService R) where
  unfoldable pub resolve_commit_author : Text → Option CommitAuthor
  unfolding before_at
  resolve_commit_author caller = author_by s.users caller

  -- `boxGitea`
  abbrev pub credential_of : Workspace → Result (Text × Text) → Result (Text × Text × Text)
  credential_of ws (err e) = err e
  credential_of ws (ok (username, token)) = ok (box_gitea_url ws, username, token)

  abbrev pub gitea_of :
      (Text → Result (Text × Text)) → Text → Workspace → Result (Text × Text × Text)
  gitea_of get repo ws =
      if not ws.on_vm
      then err box_repo_unavailable
      else if same repo (codes "rill") && not ws.rill_enabled
      then err box_repo_unavailable
      else if is_empty (bare_domain ws)
      then err box_repo_unavailable
      else credential_of ws (get ws.slug)

  abbrev pub gitea_with :
      Option (Text → Result (Text × Text)) → Text → Text → Result (Text × Text × Text)
  gitea_with none caller repo = err box_repo_unavailable
  gitea_with (some get) caller repo = and_then (s.workspace_by_user caller) (gitea_of get repo)

  unfoldable pub box_gitea : Text → Text → Result (Text × Text × Text)
  unfolding bare_domain box_gitea_url same
  box_gitea caller repo = gitea_with s.credentials caller repo

  abbrev pub box_repo_allowlist : List Text
  box_repo_allowlist = codes "rill" ∷ codes "transformations" ∷ []

  abbrev pub box_repo_mirror_allowlist : List Text
  box_repo_mirror_allowlist = codes "rill" ∷ codes "transformations" ∷ codes "pipelines" ∷ []

  unfoldable pub client_for : Text → Text → Result (RepoFileClient R)
  unfolding box_gitea mem
  client_for caller repo =
      if not (mem repo box_repo_allowlist)
      then err invalid_source_config
      else and_then (box_gitea caller repo)
          λ (url, username, token). ok (s.new_client url username token repo)

  unfoldable pub mirror_client_for : Text → Text → Result (RepoMirrorClient R)
  unfolding box_gitea mem
  mirror_client_for caller repo =
      if not (mem repo box_repo_mirror_allowlist)
      then err invalid_source_config
      else and_then (box_gitea caller repo)
          λ (url, username, token). ok (s.new_mirror_client url username token repo)

  unfoldable pub list_files : Text → Text → M R (List RepoFileEntry)
  unfolding client_for is_hidden_repo_path keep
  list_files caller repo = of_result (client_for caller repo) >>= λ client.
      client.files.list_tree >>= λ entries.
      pure (keep (λ e. not (is_hidden_repo_path e.path)) entries)

  unfoldable pub get_file : Text → Text → Text → M R (Text × Text)
  unfolding client_for validate_repo_path
  get_file caller repo path = of_result (client_for caller repo) >>= λ client.
      of_result (validate_repo_path path) >>= λ _. client.files.get_contents path

  unfoldable pub put_file : Text → Text → Text → Text → Text → M R Text
  unfolding client_for validate_repo_path resolve_commit_author
  put_file caller repo path content sha = of_result (client_for caller repo) >>= λ client.
      of_result (validate_repo_path path) >>= λ _.
      client.files.put_contents path content sha (resolve_commit_author caller)

  unfoldable pub delete_file : Text → Text → Text → Text → M R (Unit {0})
  unfolding client_for validate_repo_path resolve_commit_author
  delete_file caller repo path sha = of_result (client_for caller repo) >>= λ client.
      of_result (validate_repo_path path) >>= λ _.
      client.files.delete_contents path sha (resolve_commit_author caller)

  abbrev pub file_history_limit : ℕ
  file_history_limit = 20

  unfoldable pub list_file_history : Text → Text → Text → M R (List RepoCommit)
  unfolding client_for validate_repo_path
  list_file_history caller repo path = of_result (client_for caller repo) >>= λ client.
      of_result (validate_repo_path path) >>= λ _. client.list_commits path file_history_limit

  unfoldable pub get_file_at_ref : Text → Text → Text → Text → M R Text
  unfolding client_for validate_repo_path is_commit_sha
  get_file_at_ref caller repo path ref = of_result (client_for caller repo) >>= λ client.
      of_result (validate_repo_path path) >>= λ _.
      (if not (is_commit_sha ref)
        then fail invalid_source_config
        else (client.get_contents_at path ref >>= λ got. pure got.0))
