-- ===== src/Tests/Slugs.antt =====
-- The slugs of small sets of pipelines.
use workspace_api.Base.{
  ◌≡◌, refl, [], ◌∷◌, ◌++◌, Text, codes, false, some, lookup, insert, find, same, ◌⊎◌,
}
use mathlib.Core.List.{Permᴰ}
use workspace_api.Model.{Pipeline}
use workspace_api.Mirror.Slug.{
  name_file_slug, dashed, trim_dash_left, trim_dash_right, lower, short_id, pipeline_file_slug,
  pipeline_file_slugs,
}
use workspace_api.Mirror.Slug.Shape.{IsSlug, name_file_slug-IsSlug}
use workspace_api.Mirror.Slug.Assign.{distinct, slug_among, count, lookup-pipeline_file_slugs}
use workspace_api.Mirror.Slug.Order.{pipeline_file_slugs-perm, pipeline_file_slugs-collision}

abbrev pub pipeline : Text → Text → Pipeline
pipeline id name = record {
  id = id;
  customer_slug = codes "acme";
  name = name;
  source_type = codes "rest_api";
  source_config = codes "{}";
  source_credentials = [];
  dataset_name = codes "raw";
  schedule = [];
  write_disposition = [];
  merge_strategy = [];
  enabled = false;
  credentials_external = false;
  created_at = 1;
  updated_at = 1;
}

abbrev first : Pipeline
first = pipeline (codes "11111111-a") (codes "Orders")

abbrev second : Pipeline
second = pipeline (codes "22222222-b") (codes "orders!")

abbrev third : Pipeline
third = pipeline (codes "33333333-c") (codes "Orders 11111111")

slug_of_name : name_file_slug (codes "  Orders & Sales (EU) ") ≡ codes "orders-sales-eu"
unfolding name_file_slug dashed trim_dash_left trim_dash_right lower
slug_of_name = refl

name_file_slug-IsSlug_example : IsSlug (name_file_slug (codes "Orders & Sales"))
name_file_slug-IsSlug_example = name_file_slug-IsSlug (codes "Orders & Sales")

lookup-pipeline_file_slugs_example :
    lookup second.id (pipeline_file_slugs (first ∷ second ∷ []))
    ≡ some (slug_among (first ∷ second ∷ []) second)
unfolding distinct find same
lookup-pipeline_file_slugs_example =
    lookup-pipeline_file_slugs (first ∷ second ∷ []) second.id second refl refl

slug_of_second : slug_among (first ∷ second ∷ []) second ≡ codes "orders-22222222"
unfolding count pipeline_file_slug name_file_slug dashed trim_dash_left trim_dash_right lower
    short_id same
slug_of_second = refl

pipeline_file_slugs-perm_example :
    lookup first.id (pipeline_file_slugs (first ∷ second ∷ []))
    ≡ lookup first.id (pipeline_file_slugs (second ∷ first ∷ []))
unfolding distinct find same
pipeline_file_slugs-perm_example =
    pipeline_file_slugs-perm (first ∷ second ∷ []) (second ∷ first ∷ []) first.id first
      ∣ Permᴰ.swap refl refl ∣₁ refl refl

-- Three pipelines of which two get one path.
pipeline_file_slugs-collision_example :
    (short_id first.id ≡ short_id third.id)
    ⊎ (pipeline_file_slug first ≡ pipeline_file_slug third ++ (b'-' ∷ short_id third.id))
    ⊎ (pipeline_file_slug third ≡ pipeline_file_slug first ++ (b'-' ∷ short_id first.id))
unfolding distinct pipeline_file_slugs pipeline_file_slug name_file_slug short_id same find lookup
    insert
pipeline_file_slugs-collision_example =
    pipeline_file_slugs-collision (first ∷ second ∷ third ∷ []) first.id third.id first third refl
      refl refl refl refl
