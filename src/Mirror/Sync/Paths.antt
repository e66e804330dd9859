-- ===== src/Mirror/Sync/Paths.antt =====
-- workspace/pipelinemirror.go: the paths that a sync asks for, of definitions and credential files.
use workspace_api.Base.{
  or_else, ◌≡◌, refl, sym, ap, subst, ◌∙◌, Bool, true, false, ◌&&◌, List, [], ◌∷◌, ◌++◌, Text,
  codes, same, same→eq, has_prefix, has_suffix, has_suffix-append, has_suffix_ends,
  has_prefix-append, last-append, last, is_some, Map, lookup, insert, lookup-insert, Result, ok, M,
  next-eq-ok, and_then-eq-ok, ok-inj, ◌⊎◌, if◌then◌else◌, arith, Bool-cases, inl, inr,
}
use workspace_api.Model.{Pipeline, DefinitionFile, CredentialFile, is_empty_json}
use workspace_api.Mirror.World.{World, Mirror}
use workspace_api.Mirror.Files.{
  definition_path, credential_path, is_credential_path, age_suffix, slug_of, render_pipeline_file,
  render_pipeline_files, build_credential_files, notify_stale_oauth_credential,
}

last-definition_path : (slug : Text) → last 0 (definition_path slug) ≡ b'l'
unfolding definition_path
last-definition_path slug = last-append slug (codes "yaml") b'.' b'/'

-- The two suffixes end in different letters.
pub definition_path-not_credential :
    (slug : Text) → is_credential_path (definition_path slug) ≡ false
definition_path-not_credential slug =
    second_false (has_prefix (codes "pipelines/") (definition_path slug))
      (has_suffix age_suffix (definition_path slug))
      λ h.
        let bad : b'l' ≡ b'e' =
          sym (last-definition_path slug)
          ∙ has_suffix_ends b'.' (codes "credentials.age") (definition_path slug) h 0 in
        absurd (omega (arith, bad))
  where
    second_false : (a b : Bool) → ¬ (b ≡ true) → (a && b) ≡ false
    second_false true true h = absurd (h refl)
    second_false true false h = refl
    second_false false b h = refl

append_assoc : (a b c : Text) → (a ++ b) ++ c ≡ a ++ (b ++ c)
append_assoc [] b c = refl
append_assoc (x ∷ a) b c = ap (λ t. x ∷ t) (append_assoc a b c)

pub credential_path-IsCredentialPath :
    (slug : Text) → is_credential_path (credential_path slug) ≡ true
unfolding credential_path
credential_path-IsCredentialPath slug =
    both (has_prefix-append (codes "pipelines/") (slug ++ age_suffix)) (
      subst (λ t. has_suffix age_suffix t ≡ true)
        (append_assoc (codes "pipelines/") slug age_suffix)
        (has_suffix-append (codes "pipelines/" ++ slug) age_suffix))
  where
    both : {a b : Bool} → a ≡ true → b ≡ true → (a && b) ≡ true
    both h k = cc

-- A property of each path that has a file, kept when a file is added at a path with it.
abbrev pub AllPaths : {V : Type 0} → (Text → Bool) → Bool → Map V → Type 0
AllPaths test b files = (q : Text) → is_some (lookup q files) ≡ true → test q ≡ b

insert-AllPaths :
    {V : Type 0} (test : Text → Bool) (b : Bool) (k : Text) (v : V) (files : Map V)
    → test k ≡ b
    → AllPaths test b files
    → AllPaths test b (insert k v files)
insert-AllPaths test b k v files h all q i = elim (Bool-cases (same k q)) [
  | inl e ↦ subst (λ r. test r ≡ b) (same→eq k q e) h
  | inr e ↦ all q (ground (arith, i, e, lookup-insert k q v files))
]

branches :
    {S A : Type 0} (b c : Bool) (x y z : M S A) (w : S) {r : Result A × S}
    → (if b then x else (if c then y else z)) w ≡ r
    → (x w ≡ r) ⊎ (y w ≡ r) ⊎ (z w ≡ r)
branches true c x y z w h = inl h
branches false true x y z w h = inr (inl h)
branches false false x y z w h = inr (inr h)

module _ {R : Type 0} (m : Mirror R) where
  pub render_pipeline_files-paths :
      (ps : List Pipeline) (slugs : Map Text) (files : Map DefinitionFile)
      {desired : Map DefinitionFile}
      → AllPaths is_credential_path false files
      → render_pipeline_files m ps slugs files ≡ ok desired
      → AllPaths is_credential_path false desired
  unfolding render_pipeline_files
  render_pipeline_files-paths [] slugs files all h =
      subst (λ d. AllPaths is_credential_path false d) (ok-inj h) all
  render_pipeline_files-paths (p ∷ ps) slugs files all h =
      let (content, first, rest) = and_then-eq-ok (render_pipeline_file m p) _ h in
      let path = definition_path (slug_of slugs p.id) in
      let file : DefinitionFile = record { pipeline_id = p.id; content = content } in
      render_pipeline_files-paths ps slugs (insert path file files)
        (insert-AllPaths is_credential_path false path file files
          (definition_path-not_credential (slug_of slugs p.id)) all)
        rest

  pub build_credential_files-paths :
      (slug : Text) (slugs credentials : Map Text) (ps : List Pipeline) (files : Map CredentialFile)
      {out : Map CredentialFile} (w t : World R)
      → AllPaths is_credential_path true files
      → build_credential_files m slug slugs credentials ps files w ≡ (ok out, t)
      → AllPaths is_credential_path true out
  unfolding build_credential_files
  build_credential_files-paths slug slugs credentials [] files w t all h =
      subst (λ d. AllPaths is_credential_path true d) (ok-inj (ap (λ r. r.0) h)) all
  build_credential_files-paths slug slugs credentials (p ∷ ps) files w t all h =
      let raw = or_else (lookup p.id credentials) [] in
      let path = credential_path (slug_of slugs p.id) in
      let more = λ (cf : CredentialFile).
        insert-AllPaths is_credential_path true path cf files
          (credential_path-IsCredentialPath (slug_of slugs p.id)) all in
      elim (branches p.credentials_external (is_empty_json raw) _ _ _ w h) [
        | inl k ↦ build_credential_files-paths slug slugs credentials ps _ w t (more _) k
        | inr (inl k) ↦ build_credential_files-paths slug slugs credentials ps files w t all k
        | inr (inr k) ↦
            let (u, w1, told, rest) =
              next-eq-ok (notify_stale_oauth_credential m slug p raw w) _ k in
            build_credential_files-paths slug slugs credentials ps _ w1 t (more _) rest
      ]
