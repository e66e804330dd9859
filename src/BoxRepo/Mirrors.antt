-- ===== src/BoxRepo/Mirrors.antt =====
-- workspace/boxrepo.go: the push mirrors of a repo, at most one of which the Console keeps.
use workspace_api.Base.{
  not, Option, none, some, List, [], ◌∷◌, Text, codes, is_empty, Result, ok, err,
  invalid_source_config, M, ◌>>=◌, pure, fail, of_result, for_each, if◌then◌else◌,
}
use workspace_api.BoxRepo.Editor.{PushMirror, RepoMirrorClient, BoxRepoService, mirror_client_for}

abbrev pub push_mirror_interval : Text
push_mirror_interval = codes "8h0m0s"

module _ {R : Type 0} (s : BoxRepoService R) where
  abbrev pub validate_mirror_remote : Text → Result (Unit {0})
  validate_mirror_remote url =
      if not (s.is_https_url url)
      then err invalid_source_config
      else if s.has_userinfo url
      then err invalid_source_config
      else ok tt

  abbrev pub delete_each : RepoMirrorClient R → List PushMirror → M R (Unit {0})
  delete_each client mirrors = for_each mirrors λ m. client.delete_push_mirror m.remote_name

  unfoldable pub set_push_mirror : Text → Text → Text → Text → Text → M R (Unit {0})
  unfolding mirror_client_for for_each
  set_push_mirror caller repo url username password =
      of_result (validate_mirror_remote url) >>= λ _.
      (if is_empty username
        then fail invalid_source_config
        else if is_empty password
        then fail invalid_source_config
        else (of_result (mirror_client_for s caller repo) >>= λ client.
            client.list_push_mirrors >>= λ existing. delete_each client existing >>= λ _.
            client.add_push_mirror url username password push_mirror_interval))

  abbrev pub first_mirror : List PushMirror → Option PushMirror
  first_mirror [] = none
  first_mirror (m ∷ mirrors) = some (record m { remote_url = s.strip_userinfo m.remote_url })

  unfoldable pub get_push_mirror : Text → Text → M R (Option PushMirror)
  unfolding mirror_client_for
  get_push_mirror caller repo = of_result (mirror_client_for s caller repo) >>= λ client.
      client.list_push_mirrors >>= λ mirrors. pure (first_mirror mirrors)

  unfoldable pub delete_push_mirror : Text → Text → M R (Unit {0})
  unfolding mirror_client_for for_each
  delete_push_mirror caller repo = of_result (mirror_client_for s caller repo) >>= λ client.
      client.list_push_mirrors >>= λ mirrors. delete_each client mirrors

  unfoldable pub sync_push_mirror : Text → Text → M R (Unit {0})
  unfolding mirror_client_for
  sync_push_mirror caller repo =
      of_result (mirror_client_for s caller repo) >>= λ client. client.sync_push_mirrors
