-- ===== src/Tests/BoxRepo.antt =====
-- workspace/boxrepo.go: a repo with a file of the customer's and one of the platform's.
use workspace_api.Base.{
  ◌≡◌, ◌↔◌, refl, sym, subst, invalid_source_config, ok-inj, if◌then◌else◌, ap, ◌++◌, true, false,
  not, none, some, List, [], ◌∷◌, Text, codes, All, same, has, keep, Map, ok, err, other, pure,
  fail, has_prefix,
}
use workspace_api.Model.{RepoFileEntry}
use workspace_api.Mirror.Effects.{IsRepo}
use workspace_api.BoxRepo.Path.{split_slash, clean, validate_repo_path}
use workspace_api.BoxRepo.Guard.{IsEditable, validate_repo_path_iff}
use workspace_api.BoxRepo.Editor.{
  PushMirror, RepoFileClient, RepoMirrorClient, BoxRepoService, client_for, mirror_client_for,
  list_files, put_file, delete_file,
}
use workspace_api.BoxRepo.Mirrors.{set_push_mirror}
use workspace_api.BoxRepo.Single.{IsMirrorHost, set_push_mirror-single}
use workspace_api.BoxRepo.Safety.{put_file-managed, list_files-IsEditable}
use workspace_api.Tests.Repo.{acme, client, client-IsRepo, file}

validate_repo_path_iff_example :
    (validate_repo_path (codes "models/orders.sql") ≡ ok tt)
    ↔ IsEditable (codes "models/orders.sql")
validate_repo_path_iff_example = validate_repo_path_iff (codes "models/orders.sql")

cleaned : clean (codes "/a/./b//../c/") ≡ codes "/a/c"
unfolding clean
cleaned = refl

outside_the_repo : validate_repo_path (codes "a/../../b") ≡ err invalid_source_config
unfolding validate_repo_path
outside_the_repo = refl

accepted : validate_repo_path (codes "models/orders.sql") ≡ ok tt
unfolding validate_repo_path
accepted = refl

-- The repo's files, with the push mirrors beside them.
abbrev files : RepoFileClient (Map Text)
files = record {
  files = client;
  list_commits = λ path limit. pure [];
  get_contents_at = λ path ref. fail other;
}

abbrev no_mirrors : RepoMirrorClient (Map Text)
no_mirrors = record {
  list_push_mirrors = pure [];
  add_push_mirror = λ url username password interval. fail other;
  delete_push_mirror = λ name. pure tt;
  sync_push_mirrors = pure tt;
}

abbrev editor : BoxRepoService (Map Text)
editor = record {
  workspace_by_user = λ caller. ok acme;
  credentials = some (λ slug. ok (codes "bot", codes "token"));
  users = none;
  new_client = λ url username token repo. files;
  new_mirror_client = λ url username token repo. no_mirrors;
  is_https_url = λ url. true;
  has_userinfo = λ url. false;
  strip_userinfo = λ url. url;
}

abbrev repo : Map Text
repo = (codes "models/orders.sql", codes "select 1") ∷ (codes ".env", codes "secret") ∷ []

env_managed : ¬ IsEditable (codes ".env")
unfolding split_slash has_prefix
env_managed e = env_dotted e.undotted.0
  where
    env_dotted : true ≡ false → ⊥
    env_dotted h = subst (λ b. if b then Unit {0} else ⊥) h tt

editor_client :
    (c : RepoFileClient (Map Text))
    → client_for editor (codes "alice") (codes "rill") ≡ ok c
    → IsRepo c.files file
unfolding client_for
editor_client c h =
    subst (λ (x : RepoFileClient (Map Text)). IsRepo x.files file) (ok-inj h) client-IsRepo

put_file-managed_example :
    (file
        (put_file editor
          (codes "alice")
          (codes "rill")
          (codes ".env")
          (codes "x")
          (codes "secret")
          repo).1
        (codes ".env")
      ≡ file repo (codes ".env"))
    × (file
          (delete_file editor (codes "alice") (codes "rill") (codes ".env") (codes "secret") repo).1
          (codes ".env")
        ≡ file repo (codes ".env"))
unfolding client_for
put_file-managed_example =
    put_file-managed editor file (codes "alice") (codes "rill") (codes ".env") (codes "x")
      (codes "secret") (codes ".env") repo editor_client env_managed

abbrev tree : List RepoFileEntry
tree =
    record { path = codes "models/orders.sql"; sha = codes "select 1" }
    ∷ record { path = codes ".env"; sha = codes "secret" }
    ∷ []

list_files-IsEditable_example :
    All
      (λ (e : RepoFileEntry). IsEditable e.path)
      (record { path = codes "models/orders.sql"; sha = codes "select 1" } ∷ [])
    × (has
          (λ (e : RepoFileEntry). same e.path (codes "models/orders.sql"))
          (record { path = codes "models/orders.sql"; sha = codes "select 1" } ∷ [])
        ≡ has (λ (e : RepoFileEntry). same e.path (codes "models/orders.sql")) tree)
unfolding list_files client
list_files-IsEditable_example =
    list_files-IsEditable editor (codes "alice") (codes "rill") (codes "models/orders.sql") repo
      repo repo files tree
      (record { path = codes "models/orders.sql"; sha = codes "select 1" } ∷ []) refl refl
      ((refl, (refl, tt)), ((refl, tt), tt))
      ((validate_repo_path_iff (codes "models/orders.sql")).0 accepted) refl

-- A host that keeps the mirrors of one repo, and takes each under the name of its URL.
abbrev mirror_to : Text → PushMirror
mirror_to url = record {
  remote_name = url;
  remote_url = url;
  last_update = [];
  last_error = [];
  sync_on_commit = true;
}

abbrev host : RepoMirrorClient (List PushMirror)
host = record {
  list_push_mirrors = λ mirrors. (ok mirrors, mirrors);
  add_push_mirror =
      λ url username password interval mirrors. (ok tt, mirrors ++ mirror_to url ∷ []);
  delete_push_mirror = λ name mirrors. (ok tt, keep (λ m. not (same m.remote_name name)) mirrors);
  sync_push_mirrors = pure tt;
}

host-IsMirrorHost : IsMirrorHost host (λ mirrors. mirrors)
host-IsMirrorHost = record {
  listed = λ h. (sym (ok-inj (ap (λ z. z.0) h)), ap (λ z. z.1) (sym h));
  deleted = λ h. ap (λ z. z.1) (sym h);
  added = λ {url = url} h. (mirror_to url, ap (λ z. z.1) (sym h), refl);
}

abbrev files_of_host : RepoFileClient (List PushMirror)
files_of_host = record {
  files = record {
    list_tree = pure [];
    get_contents = λ path. fail other;
    put_contents = λ path content sha author. fail other;
    delete_contents = λ path sha author. fail other;
  };
  list_commits = λ path limit. pure [];
  get_contents_at = λ path ref. fail other;
}

abbrev mirror_editor : BoxRepoService (List PushMirror)
mirror_editor = record {
  workspace_by_user = λ caller. ok acme;
  credentials = some (λ slug. ok (codes "bot", codes "token"));
  users = none;
  new_client = λ url username token repo. files_of_host;
  new_mirror_client = λ url username token repo. host;
  is_https_url = λ url. true;
  has_userinfo = λ url. false;
  strip_userinfo = λ url. url;
}

abbrev two_mirrors : List PushMirror
two_mirrors = mirror_to (codes "https://a") ∷ mirror_to (codes "https://b") ∷ []

set_push_mirror-single_example :
    (m : PushMirror) × (mirror_to (codes "https://c") ∷ [] ≡ m ∷ [])
    × (m.remote_url ≡ codes "https://c")
unfolding set_push_mirror mirror_client_for keep
set_push_mirror-single_example =
    set_push_mirror-single mirror_editor host (λ mirrors. mirrors) (codes "alice") (codes "rill")
      (codes "https://c") (codes "bot") (codes "token") two_mirrors
      (mirror_to (codes "https://c") ∷ []) refl host-IsMirrorHost refl
