-- ===== src/BoxRepo/Path.antt =====
-- workspace/boxrepo.go: which paths of a repo the Console may edit.
use workspace_api.Base.{
  ℕ, Bool, true, false, not, ◌&&◌, ◌||◌, ◌==◌, leb, ltb, List, [], ◌∷◌, ◌++◌, Text, codes, length,
  same, mem, has, has_prefix, is_empty, Result, ok, err, invalid_source_config, if◌then◌else◌,
}

-- `strings.Split(p, "/")`: one segment for a text with no slash, the empty one for the empty text.
abbrev pub onto_first : ℕ → List Text → List Text
onto_first c [] = (c ∷ []) ∷ []
onto_first c (seg ∷ segs) = (c ∷ seg) ∷ segs

unfoldable pub split_slash : Text → List Text
split_slash [] = [] ∷ []
split_slash (c ∷ s) = let rest = split_slash s in if c == b'/' then [] ∷ rest else onto_first c rest

unfoldable pub join_slash : List Text → Text
join_slash [] = []
join_slash (seg ∷ []) = seg
join_slash (seg ∷ t ∷ segs) = seg ++ (b'/' ∷ join_slash (t ∷ segs))

-- `path.Clean`, an element at a time, the last one that is kept first.
abbrev pub up : Bool → List Text → List Text
up rooted [] = if rooted then [] else codes ".." ∷ []
up rooted (seg ∷ stack) = if same seg (codes "..") then codes ".." ∷ seg ∷ stack else stack

unfoldable pub clean_step : Bool → List Text → Text → List Text
unfolding same
clean_step rooted stack seg =
    if is_empty seg || same seg (codes ".")
    then stack
    else if same seg (codes "..")
    then up rooted stack
    else seg ∷ stack

unfoldable pub clean_from : Bool → List Text → List Text → List Text
unfolding clean_step
clean_from rooted stack [] = stack
clean_from rooted stack (seg ∷ segs) = clean_from rooted (clean_step rooted stack seg) segs

unfoldable pub turned : List Text → List Text → List Text
turned [] segs = segs
turned (seg ∷ stack) segs = turned stack (seg ∷ segs)

abbrev pub is_rooted : Text → Bool
is_rooted [] = false
is_rooted (c ∷ s) = c == b'/'

abbrev pub dot_if_empty : Text → Text
dot_if_empty [] = codes "."
dot_if_empty (c ∷ s) = c ∷ s

unfoldable pub clean : Text → Text
unfolding clean_from turned join_slash split_slash
clean p =
    let body = join_slash (turned (clean_from (is_rooted p) [] (split_slash p)) []) in
    dot_if_empty (if is_rooted p then b'/' ∷ body else body)

-- `boxRepoBlockedFiles`
abbrev pub box_repo_blocked_files : List Text
box_repo_blocked_files = codes "duckdb.yaml" ∷ codes ".env" ∷ []

abbrev pub is_dotted : Text → Bool
is_dotted seg = has_prefix (codes ".") seg

unfoldable pub is_hidden_repo_path : Text → Bool
unfolding mem has has_prefix split_slash
is_hidden_repo_path p = if mem p box_repo_blocked_files then true else has is_dotted (split_slash p)

unfoldable pub validate_repo_path : Text → Result (Unit {0})
unfolding clean is_hidden_repo_path same has_prefix
validate_repo_path p =
    if is_empty p
    then err invalid_source_config
    else if not (same (clean p) p)
        || (has_prefix (codes "/") (clean p) || has_prefix (codes "..") (clean p))
    then err invalid_source_config
    else if is_hidden_repo_path (clean p)
    then err invalid_source_config
    else ok tt

-- `isCommitSHA`
abbrev pub is_hex : ℕ → Bool
is_hex r = (leb b'0' r && leb r b'9') || (leb b'a' r && leb r b'f')

unfoldable pub all_hex : Text → Bool
all_hex [] = true
all_hex (r ∷ ref) = is_hex r && all_hex ref

unfoldable pub is_commit_sha : Text → Bool
unfolding all_hex
is_commit_sha ref = if ltb (length ref) 7 || ltb 64 (length ref) then false else all_hex ref
