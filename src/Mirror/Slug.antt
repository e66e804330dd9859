-- ===== src/Mirror/Slug.antt =====
-- workspace/pipelinemirror.go: the file name of a pipeline, from its display name.
pub mod Shape
pub mod Assign
pub mod Order
use workspace_api.Base.{
  ℕ, ◌+◌, ◌==◌, leb, Bool, true, false, ◌&&◌, ◌||◌, Option, none, some, List, [], ◌∷◌, ◌++◌, Text,
  codes, is_empty, Map, lookup, insert, length, ltb, take, if◌then◌else◌, or_else,
}
use workspace_api.Model.{Pipeline}

-- `strings.ToLower`, as far as it meets `a` to `z`: of the other letters only U+0130 and U+212A fall
-- on one of those, and the rest stay outside `a` to `z` and `0` to `9`, which is all that is asked.
unfoldable pub lower : ℕ → ℕ
lower c =
    if leb b'A' c && leb c b'Z'
    then c + 32
    else if c == 0x130
    then b'i'
    else if c == 0x212a
    then b'k'
    else c

abbrev pub is_alnum : ℕ → Bool
is_alnum c = (leb b'a' c && leb c b'z') || (leb b'0' c && leb c b'9')

-- The loop of `nameFileSlug`; the flag is `lastDash`.
unfoldable pub dashed : Bool → Text → Text
unfolding lower
dashed last_dash [] = []
dashed last_dash (r ∷ name) =
    let c = lower r in
    let letter = dashed false name in
    let gap = dashed true name in
    if is_alnum c then c ∷ letter else if last_dash then gap else b'-' ∷ gap

-- `strings.Trim(s, "-")`
unfoldable pub trim_dash_left : Text → Text
trim_dash_left [] = []
trim_dash_left (c ∷ s) = let rest = trim_dash_left s in if c == b'-' then rest else c ∷ s

unfoldable pub trim_dash_right : Text → Text
trim_dash_right [] = []
trim_dash_right (c ∷ s) = elim (trim_dash_right s) [
  | [] ↦ if c == b'-' then [] else c ∷ []
  | d ∷ r ↦ c ∷ d ∷ r
]

unfoldable pub name_file_slug : Text → Text
unfolding dashed trim_dash_left trim_dash_right
name_file_slug name = trim_dash_right (trim_dash_left (dashed true name))

-- `shortID`: ids are ASCII, so the first eight bytes are eight letters.
unfoldable pub short_id : Text → Text
short_id id = if ltb 8 (length id) then take 8 id else id

unfoldable pub pipeline_file_slug : Pipeline → Text
unfolding short_id
pipeline_file_slug p =
    let slug = name_file_slug p.name in if is_empty slug then short_id p.id else slug

-- `baseCount`: the first loop of `pipelineFileSlugs`.
unfoldable pub base_counts : List Pipeline → Map ℕ → Map ℕ
base_counts [] counts = counts
base_counts (p ∷ ps) counts =
    let slug = pipeline_file_slug p in
    base_counts ps (insert slug (or_else (lookup slug counts) 0 + 1) counts)

-- The second loop.
unfoldable pub assign_slugs : Map ℕ → List Pipeline → Map Text → Map Text
assign_slugs counts [] slugs = slugs
assign_slugs counts (p ∷ ps) slugs =
    let base = pipeline_file_slug p in
    let slug =
      if ltb 1 (or_else (lookup base counts) 0) then base ++ (b'-' ∷ short_id p.id) else base in
    assign_slugs counts ps (insert p.id slug slugs)

unfoldable pub pipeline_file_slugs : List Pipeline → Map Text
unfolding base_counts assign_slugs
pipeline_file_slugs ps = assign_slugs (base_counts ps []) ps []
