-- ===== src/Auth/Static.antt =====
-- workspace/static.go: the one workspace of a box, and its credentials from the configuration.
use workspace_api.Base.{
  Bool, false, not, ◌||◌, ◌==◌, Option, none, some, List, [], ◌∷◌, Text, same, is_empty, Result, ok,
  err, workspace_not_found, box_credential_not_found, other, if◌then◌else◌,
}
use workspace_api.Model.{Workspace}
use workspace_api.Auth.Subject.{is_service_account}

-- `strings.Cut(s, "/")`: what stands before the first slash, if there is one.
unfoldable pub cut_owner : Text → Option Text
cut_owner [] = none
cut_owner (c ∷ s) =
    let rest = cut_owner s in
    if c == b'/' then some [] else elim rest [ none ↦ none | some owner ↦ some (c ∷ owner) ]

abbrev pub is_foreign_owner : Text → Option Text → Bool
is_foreign_owner org none = false
is_foreign_owner org (some owner) = not (same owner org)

-- `StaticResolver`
unfoldable pub get_workspace : Workspace → Text → Result Workspace
unfolding same
get_workspace ws slug = if not (same slug ws.slug) then err workspace_not_found else ok ws

unfoldable pub get_workspace_by_user : Workspace → Text → Result Workspace
unfolding is_service_account cut_owner same
get_workspace_by_user ws user_id =
    if is_empty user_id || is_service_account user_id
    then err workspace_not_found
    else if is_foreign_owner ws.casdoor_org (cut_owner user_id)
    then err workspace_not_found
    else ok ws

abbrev pub list_vm_workspace_slugs : Workspace → List Text
list_vm_workspace_slugs ws = ws.slug ∷ []

pub record StaticBoxCredentials : Type 0 where
  pub slug : Text
  pub git_username : Text
  pub git_token : Text
  pub snapshot_token : Text
  pub age_public_key : Text

-- `check`, and what a read returns behind it.
unfoldable pub checked : {A : Type 0} → StaticBoxCredentials → Text → Text → A → Result A
unfolding same
checked c customer_slug value a =
    if not (same customer_slug c.slug)
    then err workspace_not_found
    else if is_empty value
    then err box_credential_not_found
    else ok a

unfoldable pub get_box_git_credential : StaticBoxCredentials → Text → Result (Text × Text)
unfolding checked
get_box_git_credential c customer_slug =
    checked c customer_slug c.git_token (c.git_username, c.git_token)

unfoldable pub get_box_snapshot_credential : StaticBoxCredentials → Text → Result Text
unfolding checked
get_box_snapshot_credential c customer_slug =
    checked c customer_slug c.snapshot_token c.snapshot_token

unfoldable pub get_box_age_key : StaticBoxCredentials → Text → Result Text
unfolding checked
get_box_age_key c customer_slug = checked c customer_slug c.age_public_key c.age_public_key

-- `UpsertBoxGitCredential` and its siblings: deposits are no part of a box.
abbrev pub upsert_box_credential : {A : Type 0} → A → Result (Unit {0})
upsert_box_credential credential = err other
