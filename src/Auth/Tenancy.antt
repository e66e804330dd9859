-- ===== src/Auth/Tenancy.antt =====
-- workspace/static.go: whom the one workspace of a box answers.
use workspace_api.Base.{
  ℕ, ◌≡◌, ◌↔◌, refl, ap, sym, ◌∙◌, Bool, true, false, ◌||◌, ◌==◌, Bool-cases, inl, inr, Option,
  none, some, [], ◌∷◌, ◌++◌, Text, same_iff, is_empty, Result, ok, err, workspace_not_found, arith,
  if◌then◌else◌,
}
use workspace_api.Model.{Workspace}
use workspace_api.Auth.Subject.{is_service_account}
use workspace_api.Auth.Static.{cut_owner, is_foreign_owner, get_workspace_by_user}

-- No slash stands in a text.
unfoldable pub has_slash : Text → Bool
has_slash [] = false
has_slash (c ∷ s) = c == b'/' || has_slash s

cut_owner-append :
    (owner name : Text) → has_slash owner ≡ false → cut_owner (owner ++ b'/' ∷ name) ≡ some owner
unfolding cut_owner has_slash
cut_owner-append [] name h = refl
cut_owner-append (c ∷ owner) name h = ground (arith, cut_owner-append owner name)

cut_owner-none : (s : Text) → has_slash s ≡ false → cut_owner s ≡ none
unfolding cut_owner has_slash
cut_owner-none [] h = refl
cut_owner-none (c ∷ s) h = ground (arith, cut_owner-none s)

-- Whom the workspace is for: a person, and one of its own organization where the subject names one.
pub record IsMember (org user_id : Text) : Type 0 where
  pub known : is_empty user_id ≡ false
  pub person : is_service_account user_id ≡ false
  pub own :
      (owner name : Text) → user_id ≡ owner ++ b'/' ∷ name → has_slash owner ≡ false → owner ≡ org

cut_owner_step :
    (c : ℕ) (o : Option Text) (s owner : Text)
    → ((q : Text) → o ≡ some q → (name : Text) × (s ≡ q ++ b'/' ∷ name) × (has_slash q ≡ false))
    → (c == b'/') ≡ false
    → elim o [ none ↦ none | some q ↦ some (c ∷ q) ] ≡ some owner
    → (name : Text) × (c ∷ s ≡ owner ++ b'/' ∷ name) × (has_slash owner ≡ false)
unfolding has_slash
cut_owner_step c none s owner ih e k = cc
cut_owner_step c (some q) s owner ih e k =
    let (name, shape, clear) = ih q refl in (name, ground arith, ground arith)

cut_owner-eq :
    (s owner : Text)
    → cut_owner s ≡ some owner
    → (name : Text) × (s ≡ owner ++ b'/' ∷ name) × (has_slash owner ≡ false)
unfolding cut_owner has_slash
cut_owner-eq [] owner h = cc
cut_owner-eq (c ∷ s) owner h = elim (Bool-cases (c == b'/')) [
  | inl e ↦ (s, ground arith, ground arith)
  | inr e ↦ cut_owner_step c (cut_owner s) s owner (λ q. cut_owner-eq s q) e (rw e at h)
]

foreign_owner-IsMember :
    (org user_id : Text)
    → is_empty user_id ≡ false
    → is_service_account user_id ≡ false
    → is_foreign_owner org (cut_owner user_id) ≡ false
    → IsMember org user_id
foreign_owner-IsMember org user_id e f g = record {
  known = e;
  person = f;
  own = λ owner name shape clear.
      let cut = ap cut_owner shape ∙ cut_owner-append owner name clear in
      ground (arith, same_iff owner org, ap (is_foreign_owner org) (sym cut) ∙ g);
}

IsMember-foreign_owner :
    (org user_id : Text) → IsMember org user_id → is_foreign_owner org (cut_owner user_id) ≡ false
IsMember-foreign_owner org user_id m = by_owner (cut_owner user_id) refl
  where
    by_owner : (o : Option Text) → cut_owner user_id ≡ o → is_foreign_owner org o ≡ false
    by_owner none e = refl
    by_owner (some owner) e =
        let (name, shape, clear) = cut_owner-eq user_id owner e in
        ground (arith, same_iff owner org, m.own owner name shape clear)

-- A box answers exactly its members: a subject that is not empty, is no application of Casdoor, and,
-- if it is qualified by an organization, by the workspace's own.
pub get_workspace_by_user_iff :
    (ws : Workspace) (user_id : Text)
    → (get_workspace_by_user ws user_id ≡ ok ws) ↔ IsMember ws.casdoor_org user_id
unfolding get_workspace_by_user
get_workspace_by_user_iff ws user_id = (to, from)
  where
    foreign : Bool
    foreign = is_foreign_owner ws.casdoor_org (cut_owner user_id)

    by_tests :
        (b1 b2 b3 : Bool)
        → is_empty user_id ≡ b1
        → is_service_account user_id ≡ b2
        → foreign ≡ b3
        → ◌≡◌ {A = Result Workspace}
            (if b1 || b2
              then err workspace_not_found
              else if b3
              then err workspace_not_found
              else ok ws)
            (ok ws)
        → IsMember ws.casdoor_org user_id
    by_tests true b2 b3 e f g h = cc
    by_tests false true b3 e f g h = cc
    by_tests false false true e f g h = cc
    by_tests false false false e f g h = foreign_owner-IsMember ws.casdoor_org user_id e f g

    to : get_workspace_by_user ws user_id ≡ ok ws → IsMember ws.casdoor_org user_id
    to h = by_tests (is_empty user_id) (is_service_account user_id) foreign refl refl refl h

    from : IsMember ws.casdoor_org user_id → get_workspace_by_user ws user_id ≡ ok ws
    from m = rw (m.known, m.person, IsMember-foreign_owner ws.casdoor_org user_id m)
