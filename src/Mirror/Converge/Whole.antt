-- ===== src/Mirror/Converge/Whole.antt =====
-- What a whole `converge` does: the files that it promises.
use workspace_api.Base.{
  ◌≡◌, refl, sym, ap, ◌∙◌, Bool, true, false, ◌&&◌, Option, none, some, List, [], Text, same,
  same→eq, is_some, map, lookup, Map, mem, ok, ◌>>◌, next-eq-ok, if◌then◌else◌, Bool-cases, inl,
  inr, for_each, and_parts,
}
use workspace_api.Model.{
  CommitAuthor, DefinitionFile, DefinitionRender, CredentialFile, CredentialRender, RepoFileEntry,
}
use workspace_api.Mirror.World.{RepoClient, World, Mirror, on_repo}
use workspace_api.Mirror.Files.{
  partition_pipeline_tree, is_definition_path, is_credential_path, sorted_paths,
}
use workspace_api.Mirror.Effects.{IsRepo, Leaves, Sets, Leaves-bind, Leaves-for_each, for_each-Sets}
use workspace_api.Mirror.Converge.{
  for_path, upsert_files, delete_stale_file, delete_stale, delete_stale_rendered_file,
  delete_stale_rendered, upsert_credential_file, upsert_credential_files, converge_credentials,
  converge,
}
use workspace_api.Mirror.Converge.Steps.{
  delete_stale_rendered_file_own, delete_stale_rendered_file_other, delete_stale_file_other,
  Leaves-eq, on_repo-eq,
}
use workspace_api.Mirror.Converge.Credentials.{upsert_credential_file_other}
use workspace_api.Mirror.Converge.Expected.{
  lookup-partition_yaml, lookup-partition_age, mem-sorted_paths, overlay, collected, expected,
  without_rendered_idem, Leaves-for_path, Sets-for_path, upsert_files-Sets,
}

collected_idem :
    (e : Option Text) (b : Bool) (v : Option Text)
    → collected (is_some e) b (collected (is_some e) b v) ≡ collected (is_some e) b v
collected_idem none b v = refl
collected_idem (some s) true v = refl
collected_idem (some s) false v = without_rendered_idem v

listed_collected :
    (e : Option Text) (b l : Bool)
    → l ≡ is_some e
    → (v : Option Text) → (if l then collected (is_some e) b v else v) ≡ collected (is_some e) b v
listed_collected none b l h v = rw h
listed_collected (some s) b l h v = rw h

-- The keys of a desired credential set are paths of credential files.
unfoldable pub AreCredentialPaths : Option (Map CredentialFile) → Type 0
AreCredentialPaths none = Unit
AreCredentialPaths (some files) =
    (p : Text) → is_some (lookup p files) ≡ true → is_credential_path p ≡ true

expected_stages :
    (o : Option DefinitionFile) (d x : Bool) (v : Option Text)
    → x ≡ is_some v
    → collected (d && x) (is_some o) (overlay o v) ≡ expected o d v
unfolding expected
expected_stages (some df) true true v h = refl
expected_stages (some df) true false v h = refl
expected_stages (some df) false x v h = refl
expected_stages none true x none h = rw h
expected_stages none true x (some c) h = rw h
expected_stages none false x v h = refl

module _ {R : Type 0} (file : R → Text → Option Text) (client : RepoClient R)
    (repo : IsRepo client file) (author : Option CommitAuthor) (m : Mirror R) where
  delete_stale_rendered-Sets :
      {V : Type 0} (desired : Map V) (existing : Map Text) (q : Text)
      → Sets file
          (delete_stale_rendered client author existing desired)
          q
          (collected (is_some (lookup q existing)) (is_some (lookup q desired)))
  unfolding delete_stale_rendered
  delete_stale_rendered-Sets desired existing q w t h =
      let step = delete_stale_rendered_file client author desired in
      for_each-Sets file (for_path existing step)
        (λ p. collected (is_some (lookup p existing)) (is_some (lookup p desired)))
        (λ p r e.
          Leaves-for_path file existing step p r
            λ sha _. delete_stale_rendered_file_other file client repo author desired p sha r e)
        (λ p.
          Sets-for_path file existing step p
            (λ o. collected (is_some o) (is_some (lookup p desired))) (λ v. refl)
            λ sha _. delete_stale_rendered_file_own file client repo author desired p sha)
        (λ p v. collected_idem (lookup p existing) (is_some (lookup p desired)) v)
        (sorted_paths existing) q w t h
      ∙ listed_collected (lookup q existing) (is_some (lookup q desired))
          (mem q (sorted_paths existing)) (mem-sorted_paths q existing) (file w.repo q)

  pub Leaves-list : (q : Text) → Leaves file (on_repo client.list_tree) q
  unfolding on_repo
  Leaves-list q w = repo.list_file w.repo q

  -- The second map of the partition has paths of credential files only.
  age_paths :
      (tree : List RepoFileEntry) (p : Text)
      → is_some (lookup p (partition_pipeline_tree tree ([], [])).1) ≡ true
      → is_credential_path p ≡ true
  unfolding lookup
  age_paths tree p h =
      (and_parts (is_credential_path p) (mem p (map (λ e. e.path) tree))
        (sym (lookup-partition_age p tree [] []) ∙ h)).0

  -- The credential half touches only paths of credential files.
  other_path :
      (p q : Text) → is_credential_path p ≡ true → is_credential_path q ≡ false → same p q ≡ false
  other_path p q h k = elim (Bool-cases (same p q)) [
    | inl e ↦ let bad : true ≡ false = sym h ∙ (ap is_credential_path (same→eq p q e) ∙ k) in cc
    | inr e ↦ e
  ]

  converge_credentials-Leaves :
      (credentials : Option (Map CredentialFile)) (recipient : Text)
      (renders : Map CredentialRender) (existing : Map Text) (q : Text)
      → AreCredentialPaths credentials
      → ((p : Text) → is_some (lookup p existing) ≡ true → is_credential_path p ≡ true)
      → is_credential_path q ≡ false
      → Leaves file (converge_credentials m client author credentials recipient renders existing) q
  unfolding converge_credentials upsert_credential_files delete_stale AreCredentialPaths
  converge_credentials-Leaves none recipient renders existing q c e h = λ w. refl
  converge_credentials-Leaves (some files) recipient renders existing q c e h =
      let step = upsert_credential_file m client author recipient renders existing in
      let delete = delete_stale_file client author files in
      Leaves-bind file q (for_each (sorted_paths files) (for_path files step))
        (λ _. for_each (sorted_paths existing) (for_path existing delete))
        (Leaves-for_each file q (sorted_paths files) (for_path files step) λ p.
          Leaves-for_path file files step p q λ cf f.
            upsert_credential_file_other file client repo author m recipient renders existing p cf q
              (other_path p q (c p (ap is_some f)) h))
        λ _. Leaves-for_each file q (sorted_paths existing) (for_path existing delete) λ p.
          Leaves-for_path file existing delete p q λ sha f.
            delete_stale_file_other file client repo author files p sha q
              (other_path p q (e p (ap is_some f)) h)

  -- The stages one after the other.
  stages :
      (slug : Text) (desired : Map DefinitionFile) (credentials : Option (Map CredentialFile))
      (recipient : Text) (renders : Map CredentialRender) (def_renders : Map DefinitionRender)
      (tree : List RepoFileEntry) (w w1 w2 w3 t : World R)
      → AreCredentialPaths credentials
      → on_repo client.list_tree w ≡ (ok tree, w1)
      → upsert_files m client slug author desired
          (partition_pipeline_tree tree ([], [])).0
          def_renders
          w1
        ≡ (ok tt, w2)
      → delete_stale_rendered client author (partition_pipeline_tree tree ([], [])).0 desired w2
        ≡ (ok tt, w3)
      → converge_credentials m client author credentials recipient renders
          (partition_pipeline_tree tree ([], [])).1
          w3
        ≡ (ok tt, t)
      → (q : Text) → is_credential_path q ≡ false
      → file t.repo q ≡ expected (lookup q desired) (is_definition_path q) (file w.repo q)
  unfolding lookup
  stages slug desired credentials recipient renders def_renders tree w w1 w2 w3 t c l h2 h3 h4 q n =
      let parts = partition_pipeline_tree tree ([], []) in
      let before = Leaves-eq file (on_repo client.list_tree) q (Leaves-list q) l in
      let there =
        lookup-partition_yaml q tree [] []
        ∙ ap (λ b. is_definition_path q && b)
            (repo.listed (on_repo-eq client.list_tree w w1 l) q) in
      Leaves-eq file (converge_credentials m client author credentials recipient renders parts.1) q
        (converge_credentials-Leaves credentials recipient renders parts.1 q c (age_paths tree) n)
        h4
      ∙ (delete_stale_rendered-Sets desired parts.0 q w2 w3 h3
          ∙ (ap (collected (is_some (lookup q parts.0)) (is_some (lookup q desired))) (
                upsert_files-Sets file client repo author m slug desired parts.0 def_renders q w1 w2
                  h2
                ∙ ap (overlay (lookup q desired)) before)
              ∙ (ap
                    (λ b.
                      collected b (is_some (lookup q desired))
                        (overlay (lookup q desired) (file w.repo q)))
                    there
                  ∙ expected_stages (lookup q desired) (is_definition_path q)
                      (is_some (file w.repo q)) (file w.repo q) refl)))

  -- After a successful `converge`, each path of the repo that is not a credential file has the file
  -- that is promised: the rendered content for a desired definition, no file for another definition
  -- that opens with the header of a rendered one, and else what it had. Nobody else commits in the
  -- meantime, and the keys of the desired credentials are paths of credential files.
  pub converge-expected :
      (slug : Text) (desired : Map DefinitionFile) (credentials : Option (Map CredentialFile))
      (recipient : Text) (renders : Map CredentialRender) (def_renders : Map DefinitionRender)
      (w t : World R)
      → AreCredentialPaths credentials
      → converge m client author slug desired credentials recipient renders def_renders w
        ≡ (ok tt, t)
      → (q : Text) → is_credential_path q ≡ false
      → file t.repo q ≡ expected (lookup q desired) (is_definition_path q) (file w.repo q)
  unfolding converge
  converge-expected slug desired credentials recipient renders def_renders w t c h q n =
      let (tree, w1, listed, h1) = next-eq-ok (on_repo client.list_tree w) _ h in
      let parts = partition_pipeline_tree tree ([], []) in
      let upsert = upsert_files m client slug author desired parts.0 def_renders in
      let delete = delete_stale_rendered client author parts.0 desired in
      let finish = converge_credentials m client author credentials recipient renders parts.1 in
      let (u, w3, h2, h4) = next-eq-ok ((upsert >> delete) w1) (λ _. finish) h1 in
      let (v, w2, h3, h5) = next-eq-ok (upsert w1) (λ _. delete) h2 in
      stages slug desired credentials recipient renders def_renders tree w w1 w2 w3 t c listed h3 h5
        h4 q n
