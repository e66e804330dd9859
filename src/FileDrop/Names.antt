-- ===== src/FileDrop/Names.antt =====
-- workspace/filedrop.go: the table and the object key of an uploaded file.
use workspace_api.Base.{
  ℕ, Bool, true, false, not, ◌&&◌, ◌||◌, ◌==◌, leb, Option, none, some, List, [], ◌∷◌, ◌++◌, Text,
  codes, keep, find, is_empty, has_suffix, trim_suffix, if◌then◌else◌,
}
use workspace_api.Model.{S3Config}
use workspace_api.BoxRepo.Path.{join_slash, clean}
use workspace_api.Schema.Sources.{to_lower, upload_extensions}

abbrev is_table_char : ℕ → Bool
is_table_char c = (leb b'a' c && leb c b'z') || (leb b'0' c && leb c b'9')

-- `tableNameSanitizer`; the flag says that the run before has its `_`.
unfoldable pub underscored : Bool → Text → Text
underscored in_run [] = []
underscored in_run (c ∷ s) =
    let letter = underscored false s in
    let gap = underscored true s in
    if is_table_char c then c ∷ letter else if in_run then gap else b'_' ∷ gap

-- `strings.Trim(s, "_")`
unfoldable pub trim_under_left : Text → Text
trim_under_left [] = []
trim_under_left (c ∷ s) = let rest = trim_under_left s in if c == b'_' then rest else c ∷ s

unfoldable pub trim_under_right : Text → Text
trim_under_right [] = []
trim_under_right (c ∷ s) = elim (trim_under_right s) [
  | [] ↦ if c == b'_' then [] else c ∷ []
  | d ∷ r ↦ c ∷ d ∷ r
]

-- No two extensions end one name.
abbrev pub stem_of : Text → Option (Text × Text) → Text
stem_of lower none = lower
stem_of lower (some (ext, format)) = trim_suffix ext lower

unfoldable pub longest_stem : Text → Text
unfolding find has_suffix trim_suffix
longest_stem lower = stem_of lower (find (λ e. has_suffix e.0 lower) upload_extensions)

abbrev pub table_name : Text → Text
table_name [] = codes "t_"
table_name (c ∷ s) = if leb b'0' c && leb c b'9' then codes "t_" ++ c ∷ s else c ∷ s

unfoldable pub upload_table_name : Text → Text
unfolding to_lower longest_stem underscored trim_under_left trim_under_right
upload_table_name filename =
    table_name
      (trim_under_right (trim_under_left (underscored false (longest_stem (to_lower filename)))))

-- `path.Join`
unfoldable pub path_join : List Text → Text
unfolding join_slash clean keep
path_join elems = elim (keep (λ e. not (is_empty e)) elems) [
  | [] ↦ []
  | e ∷ rest ↦ clean (join_slash (e ∷ rest))
]

unfoldable pub file_drop_key : S3Config → Text → Text → Text
unfolding path_join
file_drop_key s3 id filename = path_join (s3.key_prefix ∷ codes "uploads" ∷ id ∷ filename ∷ [])

unfoldable pub file_drop_bucket_url : S3Config → Text → Text
unfolding path_join
file_drop_bucket_url s3 id =
    codes "s3://" ++ path_join (s3.bucket ∷ s3.key_prefix ∷ codes "uploads" ∷ id ∷ []) ++ codes "/"
