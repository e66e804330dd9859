-- ===== src/BoxRepo/Safety.antt =====
-- workspace/boxrepo.go: which files of a repo the editor can change, and which it shows.
use workspace_api.Base.{
  ◌≡◌, refl, ap, sym, subst, ◌∙◌, false, not, Bool-cases, inl, inr, Option, List, [], ◌∷◌, Text,
  All, same, same→eq, has, keep, Result, ok, err, ok-inj, M, next, ◌>>=◌, of_result, bind-ok,
}
use workspace_api.Model.{RepoFileEntry}
use workspace_api.Mirror.Effects.{IsRepo}
use workspace_api.BoxRepo.Path.{split_slash, is_hidden_repo_path, validate_repo_path}
use workspace_api.BoxRepo.Clean.{IsFull}
use workspace_api.BoxRepo.Guard.{IsEditable, validate_repo_path_iff, hidden-parts, parts-hidden}
use workspace_api.BoxRepo.Editor.{
  RepoFileClient, BoxRepoService, client_for, resolve_commit_author, list_files, put_file,
  delete_file,
}

module _ {R : Type 0} (s : BoxRepoService R) (file : R → Text → Option Text) where
  -- A call that writes at most the file of a path, behind the check of the path.
  guarded-leaves :
      {A : Type 0} (path q : Text) (op : M R A) (w : R)
      → ¬ IsEditable q
      → (same path q ≡ false → file (op w).1 q ≡ file w q)
      → file ((of_result (validate_repo_path path) >>= λ _. op) w).1 q ≡ file w q
  guarded-leaves {A = A} path q op w blocked writes = by_check (validate_repo_path path) refl
    where
      by_check :
          (r : Result (Unit {0}))
          → validate_repo_path path ≡ r
          → file (next {A = Unit {0}} {B = A} (r, w) (λ _. op)).1 q ≡ file w q
      by_check (err e) k = refl
      by_check (ok u) k = elim (Bool-cases (same path q)) [
        | inl e ↦
            absurd
              (blocked (subst IsEditable (same→eq path q e) ((validate_repo_path_iff path).0 k)))
        | inr e ↦ writes e
      ]

  client-leaves :
      {A : Type 0} (caller repo q : Text) (op : RepoFileClient R → M R A) (w : R)
      → ((c : RepoFileClient R) → client_for s caller repo ≡ ok c → file (op c w).1 q ≡ file w q)
      → file ((of_result (client_for s caller repo) >>= op) w).1 q ≡ file w q
  client-leaves {A = A} caller repo q op w h = by_client (client_for s caller repo) refl
    where
      by_client :
          (r : Result (RepoFileClient R))
          → client_for s caller repo ≡ r
          → file (next {A = RepoFileClient R} {B = A} (r, w) op).1 q ≡ file w q
      by_client (err e) k = refl
      by_client (ok c) k = h c k

  -- The editor never changes a file that the customer may not edit, whatever path, content and sha it
  -- is called with and whatever comes of the call, where the client of the repo is Gitea's.
  pub put_file-managed :
      (caller repo path content sha q : Text) (w : R)
      → ((c : RepoFileClient R) → client_for s caller repo ≡ ok c → IsRepo c.files file)
      → ¬ IsEditable q
      → (file (put_file s caller repo path content sha w).1 q ≡ file w q)
        × (file (delete_file s caller repo path sha w).1 q ≡ file w q)
  unfolding put_file delete_file
  put_file-managed caller repo path content sha q w gitea blocked = (
    client-leaves caller repo q _ w λ c k.
        guarded-leaves path q
          (c.files.put_contents path content sha (resolve_commit_author s caller)) w blocked
          (λ e. (gitea c k).put_file path content sha (resolve_commit_author s caller) w q e),
    client-leaves caller repo q _ w λ c k.
        guarded-leaves path q (c.files.delete_contents path sha (resolve_commit_author s caller)) w
          blocked (λ e. (gitea c k).delete_file path sha (resolve_commit_author s caller) w q e),
  )

abbrev visible : List RepoFileEntry → List RepoFileEntry
visible tree = keep (λ e. not (is_hidden_repo_path e.path)) tree

hidden-IsEditable :
    (p : Text) → All IsFull (split_slash p) → is_hidden_repo_path p ≡ false → IsEditable p
hidden-IsEditable p f h =
    let (own, undotted) = hidden-parts p h in
    record { full_segments = f; undotted = undotted; own = own }

visible-IsEditable :
    (tree : List RepoFileEntry)
    → All (λ e. All IsFull (split_slash e.path)) tree
    → All (λ e. IsEditable e.path) (visible tree)
unfolding keep
visible-IsEditable [] h = tt
visible-IsEditable (e ∷ tree) h = elim (Bool-cases (is_hidden_repo_path e.path)) [
  | inl k ↦ rw k (visible-IsEditable tree h.1)
  | inr k ↦ rw k (hidden-IsEditable e.path h.0 k, visible-IsEditable tree h.1)
]

has-visible :
    (p : Text) (tree : List RepoFileEntry)
    → is_hidden_repo_path p ≡ false
    → has (λ e. same e.path p) (visible tree) ≡ has (λ e. same e.path p) tree
unfolding keep has
has-visible p [] h = refl
has-visible p (e ∷ tree) h = elim (Bool-cases (is_hidden_repo_path e.path)) [
  | inl k ↦ elim (Bool-cases (same e.path p)) [
    | inl m ↦ cc (ap is_hidden_repo_path (same→eq e.path p m))
    | inr m ↦ rw (k, m) (has-visible p tree h)
  ]
  | inr k ↦ rw (k, has-visible p tree h)
]

-- What the editor shows of a tree, and what it takes, are the same files: each listed file of a tree
-- whose paths have no empty segment can be edited, and a path that can be edited is listed exactly if
-- it is in the tree.
pub list_files-IsEditable :
    {R : Type 0} (s : BoxRepoService R) (caller repo p : Text) (w v t : R) (c : RepoFileClient R)
    (tree entries : List RepoFileEntry)
    → client_for s caller repo ≡ ok c
    → c.files.list_tree w ≡ (ok tree, v)
    → All (λ e. All IsFull (split_slash e.path)) tree
    → IsEditable p
    → list_files s caller repo w ≡ (ok entries, t)
    → All (λ e. IsEditable e.path) entries
      × (has (λ e. same e.path p) entries ≡ has (λ e. same e.path p) tree)
unfolding list_files
list_files-IsEditable s caller repo p w v t c tree entries k l full e h =
    let shown : visible tree ≡ entries = ok-inj (
      ap (λ z. z.0)
        (sym (
            bind-ok (of_result (client_for s caller repo)) _ w (ap (λ r. (r, w)) k)
            ∙ bind-ok c.files.list_tree _ w l)
          ∙ h)) in
    (
      subst (All (λ e. IsEditable e.path)) shown (visible-IsEditable tree full),
      ap (has (λ e. same e.path p)) (sym shown)
          ∙ has-visible p tree (parts-hidden p e.own e.undotted),
    )
