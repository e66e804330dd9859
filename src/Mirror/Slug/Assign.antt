-- ===== src/Mirror/Slug/Assign.antt =====
-- workspace/pipelinemirror.go: which slug each pipeline of a workspace gets.
use workspace_api.Base.{
  ℕ, ◌+◌, ◌≡◌, refl, ap, ◌∙◌, Bool, true, false, not, ◌&&◌, List, [], ◌∷◌, ◌++◌, arith, Text, same,
  same_iff, same→eq, some, if◌then◌else◌, or_else, has, find, lookup, insert, lookup-insert, ltb,
  Map, Bool-cases, inl, inr,
}
use mathlib.Core.List.{Permᴰ}
use workspace_api.Model.{Pipeline}
use workspace_api.Postgres.{has_id}
use workspace_api.Mirror.Slug.{
  short_id, pipeline_file_slug, base_counts, assign_slugs, pipeline_file_slugs,
}

-- How many pipelines have a base slug, and the slug that this gives one of them.
unfoldable pub count : Text → List Pipeline → ℕ
count base [] = 0
count base (p ∷ ps) =
    let rest = count base ps in if same (pipeline_file_slug p) base then rest + 1 else rest

abbrev pub slug_in : ℕ → Pipeline → Text
slug_in group p =
    if ltb 1 group then pipeline_file_slug p ++ (b'-' ∷ short_id p.id) else pipeline_file_slug p

abbrev pub slug_among : List Pipeline → Pipeline → Text
slug_among ps p = slug_in (count (pipeline_file_slug p) ps) p

-- Ids are the primary key.
unfoldable pub distinct : List Pipeline → Bool
unfolding has
distinct [] = true
distinct (p ∷ ps) = not (has (has_id p.id) ps) && distinct ps

or_else-base_counts :
    (b : Text) (ps : List Pipeline) (counts : Map ℕ)
    → or_else (lookup b (base_counts ps counts)) 0 ≡ or_else (lookup b counts) 0 + count b ps
unfolding base_counts count
or_else-base_counts b [] counts = ground arith
or_else-base_counts b (p ∷ ps) counts =
    let s = pipeline_file_slug p in
    let n = or_else (lookup s counts) 0 + 1 in
    ground (
      arith,
      or_else-base_counts b ps (insert s n counts),
      lookup-insert s b n counts,
      same_iff s b,
    )

lookup-assign_slugs_other :
    (k : Text) (counts : Map ℕ) (ps : List Pipeline) (slugs : Map Text)
    → has (has_id k) ps ≡ false
    → lookup k (assign_slugs counts ps slugs) ≡ lookup k slugs
unfolding assign_slugs has
lookup-assign_slugs_other k counts [] slugs h = refl
lookup-assign_slugs_other k counts (p ∷ ps) slugs h =
    let s = slug_in (or_else (lookup (pipeline_file_slug p) counts) 0) p in
    ground (
      arith,
      lookup-assign_slugs_other k counts ps (insert p.id s slugs),
      lookup-insert p.id k s slugs,
    )

lookup-assign_slugs :
    (k : Text) (counts : Map ℕ) (ps : List Pipeline) (slugs : Map Text) (p : Pipeline)
    → distinct ps ≡ true
    → find (has_id k) ps ≡ some p
    → lookup k (assign_slugs counts ps slugs)
      ≡ some (slug_in (or_else (lookup (pipeline_file_slug p) counts) 0) p)
unfolding assign_slugs has find distinct
lookup-assign_slugs k counts [] slugs p d h = cc
lookup-assign_slugs k counts (q ∷ ps) slugs p d h =
    let s = slug_in (or_else (lookup (pipeline_file_slug q) counts) 0) q in
    elim (Bool-cases (same q.id k)) [
      | inl e ↦ ground (
        arith,
        same→eq q.id k e,
        lookup-assign_slugs_other k counts ps (insert q.id s slugs),
        lookup-insert q.id k s slugs,
      )
      | inr e ↦ lookup-assign_slugs k counts ps (insert q.id s slugs) p (ground arith) (rw e at h)
    ]

-- With distinct ids, each pipeline's slug is its base slug, with its short id behind it exactly if
-- another pipeline has the same base slug.
pub lookup-pipeline_file_slugs :
    (ps : List Pipeline) (k : Text) (p : Pipeline)
    → distinct ps ≡ true
    → find (has_id k) ps ≡ some p
    → lookup k (pipeline_file_slugs ps) ≡ some (slug_among ps p)
unfolding pipeline_file_slugs lookup
lookup-pipeline_file_slugs ps k p d h =
    let base = pipeline_file_slug p in
    lookup-assign_slugs k (base_counts ps []) ps [] p d h
    ∙ ap (λ n. some (slug_in n p)) (omega (arith, or_else-base_counts base ps []))

pub count-perm : {ps qs : List Pipeline} (b : Text) → Permᴰ ps qs → count b ps ≡ count b qs
unfolding count
count-perm b Permᴰ.nil = refl
count-perm b (Permᴰ.cons {a = a} {b = a'} e d) = ground (arith, e, count-perm b d)
count-perm b (Permᴰ.swap {a = x} {b = y} {l = l} e f) = ground arith
count-perm b (Permᴰ.trans d e) = count-perm b d ∙ count-perm b e
