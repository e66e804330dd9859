-- ===== src/Tests/Repo.antt =====
-- A repo of one branch, whose blob sha of a file is its content, and a mirror on it.
use workspace_api.Base.{
  ◌≡◌, refl, ap, subst, true, Option, none, some, List, [], ◌∷◌, ◌++◌, Text, codes, same, same_iff,
  is_some, or_else, mem, map, Map, lookup, insert, remove, lookup-insert, lookup-remove, ok, err,
  ok-inj, other, repo_file_changed, if◌then◌else◌, arith,
}
use workspace_api.Model.{PipelineFile, S3Config, Workspace, RepoFileEntry}
use workspace_api.Mirror.World.{RepoClient, Mirror}
use workspace_api.Mirror.Effects.{IsRepo}

abbrev entries : Map Text → List RepoFileEntry
entries [] = []
entries ((path, content) ∷ files) = record { path = path; sha = content } ∷ entries files

-- A sha that is not the current one is refused.
abbrev pub current_sha : Text → Map Text → Text
current_sha path files = or_else (lookup path files) []

unfoldable pub client : RepoClient (Map Text)
unfolding lookup insert remove same
client = record {
  list_tree = λ s. (ok (entries s), s);
  get_contents = λ p s. elim (lookup p s) [ none ↦ (err other, s) | some c ↦ (ok (c, c), s) ];
  put_contents = λ p content sha author s.
      if same sha (current_sha p s)
      then (ok content, insert p content s)
      else (err repo_file_changed, s);
  delete_contents = λ p sha author s.
      if same sha (current_sha p s) then (ok tt, remove p s) else (err repo_file_changed, s);
}

abbrev pub file : Map Text → Text → Option Text
file files path = lookup path files

listed_entries :
    (q : Text) (files : Map Text)
    → mem q (map (λ e. e.path) (entries files)) ≡ is_some (lookup q files)
unfolding mem lookup
listed_entries q [] = refl
listed_entries q ((path, content) ∷ files) = ground (arith, listed_entries q files)

pub client-IsRepo : IsRepo client file
unfolding client
client-IsRepo = record {
  list_file = λ s q. refl;
  listed = λ {s} {tree} {t} h q.
      subst (λ es. mem q (map (λ e. e.path) es) ≡ is_some (lookup q s)) (ok-inj (ap (λ r. r.0) h))
        (listed_entries q s);
  get_file = λ p s q. ground arith;
  got = λ {p} {s} {content} {sha} {t} h. ground arith;
  put_file = λ p content sha author s q h. ground (arith, lookup-insert p q content s);
  put = λ {p} {content} {sha} {author} {s} {new_sha} {t} h.
      ground (arith, lookup-insert p p content s, same_iff p p);
  delete_file = λ p sha author s q h. ground (arith, lookup-remove p q s);
  deleted = λ {p} {sha} {author} {s} {t} h. ground (arith, lookup-remove p p s, same_iff p p);
}

abbrev pub bucket : S3Config
bucket = record {
  bucket = codes "acme-data";
  key_prefix = [];
  endpoint = codes "https://r2.example";
  region = codes "auto";
  access_key_id = codes "key";
  secret_access_key = codes "secret";
}

abbrev pub acme : Workspace
acme = record {
  slug = codes "acme";
  on_vm = true;
  rill_enabled = true;
  customer_domain = codes "*.acme.example";
  casdoor_org = codes "customer-acme";
  gitea_url = [];
  effective_s3 = bucket;
}

-- A definition file is the id and the name, with the dataset for what it says.
abbrev pub marshalled : PipelineFile → Text
marshalled f = f.id

abbrev pub mirror : Mirror (Map Text)
mirror = record {
  workspaces = λ slug. ok acme;
  git_credentials = some (λ slug. ok (codes "bot", codes "token"));
  new_client = λ url user token. client;
  age_keys = some (λ slug. ok (codes "age1"));
  definition_renders = true;
  credential_renders = true;
  ownership = true;
  notifications = true;
  importer = true;
  logger = true;
  fingerprint = λ recipient plaintext. recipient ++ plaintext;
  encrypt_age = λ draw recipient plaintext. ok (draw ∷ plaintext);
  unmarshal_config = λ raw. ok raw;
  marshal_config = λ raw. ok raw;
  marshal_file = λ f. ok (marshalled f);
  unmarshal_file = λ content. ok (record {
    id = codes "11111111-a";
    name = content;
    source_type = codes "rest_api";
    source_config = [];
    dataset_name = codes "raw";
    schedule = [];
    write_disposition = [];
    merge_strategy = [];
    enabled = true;
  });
  has_storage = λ ws. true;
  resolve_file_upload = λ ws p. ok (some p);
  restore_file_upload = λ p. p;
  validate_source_config = λ source_type config. true;
  validate_uuid = λ id. true;
  credential_plaintext = λ p raw. raw;
  stale_client_id = λ p raw. none;
}
