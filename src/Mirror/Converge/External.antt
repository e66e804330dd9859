-- ===== src/Mirror/Converge/External.antt =====
-- workspace/pipelinemirror.go: `converge` and the credential files that the box owns.
use workspace_api.Base.{
  ◌≡◌, refl, sym, ap, ◌∙◌, Bool, true, false, not, ◌&&◌, Option, none, some, List, [], Text, same,
  same→eq, has_prefix, has_suffix, codes, is_some, map, lookup, Map, mem, M, ◌>>◌, arith,
  Bool-cases, inl, inr, for_each,
}
use workspace_api.Model.{
  CommitAuthor, DefinitionFile, DefinitionRender, CredentialFile, CredentialRender, RepoFileEntry,
}
use workspace_api.Mirror.World.{RepoClient, World, Mirror, on_repo}
use workspace_api.Mirror.Files.{
  partition_pipeline_tree, is_credential_path, yaml_suffix, age_suffix, sorted_paths,
}
use workspace_api.Mirror.Effects.{IsRepo, Leaves, Leaves-bind, Leaves-for_each}
use workspace_api.Mirror.Converge.{
  for_path, upsert_file, upsert_files, delete_stale_file, delete_stale, delete_stale_rendered_file,
  delete_stale_rendered, upsert_credential_file, upsert_credential_files, converge_credentials,
  converge,
}
use workspace_api.Mirror.Converge.Steps.{
  upsert_file_other, delete_stale_rendered_file_other, delete_stale_file_other,
}
use workspace_api.Mirror.Converge.Credentials.{
  upsert_credential_file_other, upsert_credential_file_external,
}
use workspace_api.Mirror.Converge.Expected.{lookup-partition_yaml, Leaves-for_path}
use workspace_api.Mirror.Converge.Whole.{Leaves-list}

excluded : (a b c d : Bool) → (a && b) ≡ true → ((a && (not b && c)) && d) ≡ false
excluded true true c d h = refl
excluded true false c d h = cc
excluded false b c d h = cc

not_some : {A : Type 0} (o : Option A) → is_some o ≡ false → o ≡ none
not_some none h = refl
not_some (some a) h = cc

-- A path with a file is not a path without.
unlisted :
    {V : Type 0} (files : Map V) (p q : Text) (v : V)
    → lookup p files ≡ some v
    → lookup q files ≡ none
    → same p q ≡ false
unlisted files p q v f g = elim (Bool-cases (same p q)) [
  | inl e ↦ let bad : some v ≡ none = sym f ∙ (ap (λ r. lookup r files) (same→eq p q e) ∙ g) in cc
  | inr e ↦ e
]

-- A credential file is not in the first map of the partition.
yaml_paths :
    (tree : List RepoFileEntry) (q : Text)
    → is_credential_path q ≡ true
    → lookup q (partition_pipeline_tree tree ([], [])).0 ≡ none
unfolding lookup
yaml_paths tree q h = not_some (lookup q (partition_pipeline_tree tree ([], [])).0) (
    lookup-partition_yaml q tree [] []
    ∙ excluded (has_prefix (codes "pipelines/") q) (has_suffix age_suffix q)
        (has_suffix yaml_suffix q) (mem q (map (λ e. e.path) tree)) h)

module _ {R : Type 0} (file : R → Text → Option Text) (client : RepoClient R)
    (repo : IsRepo client file) (author : Option CommitAuthor) (m : Mirror R) where
  Leaves-kept :
      (recipient : Text) (renders : Map CredentialRender) (existing : Map Text)
      (credentials : Map CredentialFile) (p q : Text) (cf cg : CredentialFile)
      → lookup q credentials ≡ some cf
      → lookup p credentials ≡ some cg
      → cf.external ≡ true
      → Leaves file (upsert_credential_file m client author recipient renders existing p cg) q
  Leaves-kept recipient renders existing credentials p q cf cg c f e =
      elim (Bool-cases (same p q)) [
        | inl g ↦
            upsert_credential_file_external file client repo author m recipient renders existing p
              cg q (ground (arith, same→eq p q g, c, f, e))
        | inr g ↦
            upsert_credential_file_other file client repo author m recipient renders existing p cg q
              g
      ]

  Leaves-wanted :
      (credentials : Map CredentialFile) (p sha q : Text) (cf : CredentialFile)
      → lookup q credentials ≡ some cf
      → Leaves file (delete_stale_file client author credentials p sha) q
  unfolding delete_stale_file
  Leaves-wanted credentials p sha q cf c = elim (Bool-cases (same p q)) [
    | inl g ↦ λ w. ground (arith, same→eq p q g, c)
    | inr g ↦ delete_stale_file_other file client repo author credentials p sha q g
  ]

  -- A credential file that the box owns is never touched, whether `converge` succeeds or not, if no
  -- desired definition has its path.
  pub converge-external :
      (slug : Text) (desired : Map DefinitionFile) (credentials : Map CredentialFile)
      (recipient : Text) (renders : Map CredentialRender) (def_renders : Map DefinitionRender)
      (q : Text) (cf : CredentialFile)
      → is_credential_path q ≡ true
      → lookup q desired ≡ none
      → lookup q credentials ≡ some cf
      → cf.external ≡ true
      → (w : World R)
      → file
          (converge m client author slug desired
            (some credentials)
            recipient
            renders
            def_renders
            w).1.repo
          q
        ≡ file w.repo q
  unfolding converge upsert_files delete_stale_rendered converge_credentials upsert_credential_files
      delete_stale delete_stale_file
  converge-external slug desired credentials recipient renders def_renders q cf a d c e =
      Leaves-bind file q (on_repo client.list_tree) _ (Leaves-list file client repo author m q)
        λ tree.
          let parts = partition_pipeline_tree tree ([], []) in
          let upsert : Text → DefinitionFile → M (World R) (Unit {0}) =
            λ p df. upsert_file m client slug author def_renders p df (lookup p parts.0) in
          let collect = delete_stale_rendered_file client author desired in
          let credential = upsert_credential_file m client author recipient renders parts.1 in
          let delete = delete_stale_file client author credentials in
          let first = for_each (sorted_paths desired) (for_path desired upsert) in
          let second = for_each (sorted_paths parts.0) (for_path parts.0 collect) in
          let third = for_each (sorted_paths credentials) (for_path credentials credential) in
          let fourth = for_each (sorted_paths parts.1) (for_path parts.1 delete) in
          Leaves-bind file q (first >> second) (λ _. third >> fourth)
            (Leaves-bind file q first (λ _. second)
              (Leaves-for_each file q (sorted_paths desired) (for_path desired upsert) λ p.
                Leaves-for_path file desired upsert p q λ df f.
                  upsert_file_other file client repo author m slug def_renders p df
                    (lookup p parts.0) q (unlisted desired p q df f d))
              λ _. Leaves-for_each file q (sorted_paths parts.0) (for_path parts.0 collect) λ p.
                Leaves-for_path file parts.0 collect p q λ sha f.
                  delete_stale_rendered_file_other file client repo author desired p sha q
                    (unlisted parts.0 p q sha f (yaml_paths tree q a)))
            λ _.
              Leaves-bind file q third (λ _. fourth)
                (Leaves-for_each file q (sorted_paths credentials) (for_path credentials credential)
                  λ p.
                    Leaves-for_path file credentials credential p q
                      λ cg f. Leaves-kept recipient renders parts.1 credentials p q cf cg c f e)
                λ _. Leaves-for_each file q (sorted_paths parts.1) (for_path parts.1 delete) λ p.
                  Leaves-for_path file parts.1 delete p q
                    λ sha f. Leaves-wanted credentials p sha q cf c
