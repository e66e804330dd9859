-- ===== src/Mirror/Converge/Expected.antt =====
-- What `converge` leaves in the repo, path by path.
use workspace_api.Base.{
  ◌≡◌, refl, sym, ap, ◌∙◌, Bool, true, false, not, ◌&&◌, ◌||◌, Option, none, some, List, [], ◌∷◌,
  Text, same, same→eq, has_prefix, has_suffix, codes, is_some, map, lookup, insert, lookup-insert,
  Map, mem, mem-keys, mem-sort, keys, M, if◌then◌else◌, arith, Option-cases, inl, inr,
}
use workspace_api.Model.{CommitAuthor, DefinitionFile, DefinitionRender, RepoFileEntry}
use workspace_api.Mirror.World.{RepoClient, World, Mirror}
use workspace_api.Mirror.Files.{
  partition_pipeline_tree, is_definition_path, is_credential_path, yaml_suffix, age_suffix,
  sorted_paths,
}
use workspace_api.Mirror.Effects.{IsRepo, Leaves, Sets, for_each-Sets}
use workspace_api.Mirror.Converge.{for_path, upsert_file, upsert_files}
use workspace_api.Mirror.Converge.Steps.{without_rendered, upsert_file_own, upsert_file_other}

-- The paths of the two maps: one entry of the tree, by the tests on its path.
module _ {X : Type 0} (f : X → Bool) (skipped as_age as_yaml : X) (listed d m s : Bool) where
  place_yaml :
      (a b c : Bool)
      → f skipped ≡ (listed || (d && m))
      → f as_age ≡ (listed || (d && m))
      → f as_yaml ≡ ((s || listed) || (d && m))
      → (s ≡ true → d ≡ (a && (not b && c)))
      → f (if not a then skipped else (if b then as_age else if c then as_yaml else skipped))
        ≡ (listed || (d && (s || m)))
  place_yaml true true c h k l e = ground arith
  place_yaml true false true h k l e = ground arith
  place_yaml true false false h k l e = ground arith
  place_yaml false b c h k l e = ground arith

  place_age :
      (a b c : Bool)
      → f skipped ≡ (listed || (d && m))
      → f as_age ≡ ((s || listed) || (d && m))
      → f as_yaml ≡ (listed || (d && m))
      → (s ≡ true → d ≡ (a && b))
      → f (if not a then skipped else (if b then as_age else if c then as_yaml else skipped))
        ≡ (listed || (d && (s || m)))
  place_age true true c h k l e = ground arith
  place_age true false true h k l e = ground arith
  place_age true false false h k l e = ground arith
  place_age false b c h k l e = ground arith

nothing : (a b : Bool) → a ≡ (a || (b && false))
nothing a b = ground arith

is_some-insert :
    (q k : Text) (v : Text) (files : Map Text)
    → is_some (lookup q (insert k v files)) ≡ (same k q || is_some (lookup q files))
is_some-insert q k v files = ground (arith, lookup-insert k q v files)

pub lookup-partition_yaml :
    (q : Text) (tree : List RepoFileEntry) (yaml age : Map Text)
    → is_some (lookup q (partition_pipeline_tree tree (yaml, age)).0)
      ≡ (is_some (lookup q yaml) || (is_definition_path q && mem q (map (λ e. e.path) tree)))
unfolding partition_pipeline_tree mem
lookup-partition_yaml q [] yaml age = nothing (is_some (lookup q yaml)) (is_definition_path q)
lookup-partition_yaml q (e ∷ tree) yaml age =
    place_yaml {X = Map Text × Map Text} (λ x. is_some (lookup q x.0)) _ _ _ _ _ _ (same e.path q)
      (has_prefix (codes "pipelines/") e.path) (has_suffix age_suffix e.path)
      (has_suffix yaml_suffix e.path) (lookup-partition_yaml q tree yaml age)
      (lookup-partition_yaml q tree yaml (insert e.path e.sha age))
      (lookup-partition_yaml q tree (insert e.path e.sha yaml) age
        ∙ ap (λ b. b || (is_definition_path q && mem q (map (λ r. r.path) tree)))
            (is_some-insert q e.path e.sha yaml))
      (λ h. ap is_definition_path (sym (same→eq e.path q h)))

pub lookup-partition_age :
    (q : Text) (tree : List RepoFileEntry) (yaml age : Map Text)
    → is_some (lookup q (partition_pipeline_tree tree (yaml, age)).1)
      ≡ (is_some (lookup q age) || (is_credential_path q && mem q (map (λ e. e.path) tree)))
unfolding partition_pipeline_tree mem
lookup-partition_age q [] yaml age = nothing (is_some (lookup q age)) (is_credential_path q)
lookup-partition_age q (e ∷ tree) yaml age =
    place_age {X = Map Text × Map Text} (λ x. is_some (lookup q x.1)) _ _ _ _ _ _ (same e.path q)
      (has_prefix (codes "pipelines/") e.path) (has_suffix age_suffix e.path)
      (has_suffix yaml_suffix e.path) (lookup-partition_age q tree yaml age)
      (lookup-partition_age q tree yaml (insert e.path e.sha age)
        ∙ ap (λ b. b || (is_credential_path q && mem q (map (λ r. r.path) tree)))
            (is_some-insert q e.path e.sha age))
      (lookup-partition_age q tree (insert e.path e.sha yaml) age)
      (λ h. ap is_credential_path (sym (same→eq e.path q h)))

pub mem-sorted_paths :
    {V : Type 0} (q : Text) (files : Map V) → mem q (sorted_paths files) ≡ is_some (lookup q files)
unfolding sorted_paths
mem-sorted_paths q files = mem-sort q (keys files) ∙ mem-keys q files

-- The file of a path after the definitions are written, and after stale ones are collected.
abbrev pub overlay : Option DefinitionFile → Option Text → Option Text
overlay none v = v
overlay (some df) v = some df.content

abbrev pub collected : Bool → Bool → Option Text → Option Text
collected exists wanted v = if exists then if wanted then v else without_rendered v else v

-- What `converge` promises of a path: a desired definition has the rendered content; another
-- definition file that opens with the header of a rendered one is gone; any other file is as before.
unfoldable pub expected : Option DefinitionFile → Bool → Option Text → Option Text
expected none is_definition v = if is_definition then without_rendered v else v
expected (some df) is_definition v = some df.content

pub without_rendered_idem :
    (v : Option Text) → without_rendered (without_rendered v) ≡ without_rendered v
without_rendered_idem none = refl
without_rendered_idem (some c) = ground arith

overlay_idem : (o : Option DefinitionFile) (v : Option Text) → overlay o (overlay o v) ≡ overlay o v
overlay_idem none v = refl
overlay_idem (some df) v = refl

listed_overlay :
    (o : Option DefinitionFile) (b : Bool)
    → b ≡ is_some o
    → (v : Option Text) → (if b then overlay o v else v) ≡ overlay o v
listed_overlay none b e v = rw e
listed_overlay (some df) b e v = rw e

module _ {R : Type 0} (file : R → Text → Option Text) where
  pub Leaves-for_path :
      {V : Type 0} (files : Map V) (step : Text → V → M (World R) (Unit {0})) (p q : Text)
      → ((v : V) → lookup p files ≡ some v → Leaves file (step p v) q)
      → Leaves file (for_path files step p) q
  unfolding for_path
  Leaves-for_path files step p q h w = elim (Option-cases (lookup p files)) [
    | inl e ↦ rw (for_path, e)
    | inr (v, e) ↦ rw (for_path, e, h v e w)
  ]

  pub Sets-for_path :
      {V : Type 0} (files : Map V) (step : Text → V → M (World R) (Unit {0})) (p : Text)
      (f : Option V → Option Text → Option Text)
      → ((v : Option Text) → f none v ≡ v)
      → ((v : V) → lookup p files ≡ some v → Sets file (step p v) p (f (some v)))
      → Sets file (for_path files step p) p (f (lookup p files))
  unfolding for_path
  Sets-for_path files step p f z h w t k = elim (Option-cases (lookup p files)) [
    | inl e ↦
        rw e (sym (ap (λ r. file r.1.repo p) (rw (for_path, e) at k)) ∙ sym (z (file w.repo p)))
    | inr (v, e) ↦ rw e (h v e w t (rw (for_path, e) at k))
  ]

  module _ (client : RepoClient R) (repo : IsRepo client file) (author : Option CommitAuthor) where
    -- The loop over the desired definitions.
    pub upsert_files-Sets :
        (m : Mirror R) (slug : Text) (desired : Map DefinitionFile) (existing : Map Text)
        (renders : Map DefinitionRender) (q : Text)
        → Sets file
            (upsert_files m client slug author desired existing renders)
            q
            (overlay (lookup q desired))
    unfolding upsert_files
    upsert_files-Sets m slug desired existing renders q w t h =
        let step = λ (p : Text). λ (df : DefinitionFile).
          upsert_file m client slug author renders p df (lookup p existing) in
        for_each-Sets file (for_path desired step) (λ p. overlay (lookup p desired))
          (λ p r e. Leaves-for_path desired step p r λ df _.
            upsert_file_other file client repo author m slug renders p df (lookup p existing) r e)
          (λ p.
            Sets-for_path desired step p overlay (λ v. refl)
              λ df _.
                upsert_file_own file client repo author m slug renders p df (lookup p existing))
          (λ p v. overlay_idem (lookup p desired) v) (sorted_paths desired) q w t h
        ∙ listed_overlay (lookup q desired) (mem q (sorted_paths desired))
            (mem-sorted_paths q desired) (file w.repo q)
